-- ===== src/Maintenance/Fence.antt =====
-- What no sequence of calls can do to a maintenance run under a live lease, or to a finished one.
use app_template.Prelude.{
  ℕ, ◌+◌, ◌*◌, ◌<◌, false, Option, none, some, List, [], ◌∷◌, ◌==◌, ◌≡◌, ◌≢◌, refl, sym, ◌∙◌, subst,
  arith, inl, inr, Bool-cases, ==→eq, leb,
}
use app_template.Models.Maintenance.{MaintenanceRun, MaintenanceRunStatus, MaintenanceTaskType}
use app_template.Models.Errors.{Result, ok, err, ◌>>=◌}
use app_template.Database.{Db, Env, find_run}
use app_template.Maintenance.Claim.{
  max_attempts, claim_run, claim_row, claimed_run, failed_run, write_run, live_lease, is_other_task,
  is_terminal, deferred_or, error_code_exhausted, error_code_task_mismatch,
}
use app_template.Maintenance.Settle.{
  owned_run, renew_lease, complete_run, completed_run, settle_retryable_failure, requeued_run,
}
use app_template.Maintenance.Runs.{
  RunCall, run_step, run_steps, runs_after, db_after, by_test, by_lease, after_retry, find_run-put,
  find_run-id, owned_run-ok,
}

-- A running run whose lease ends at `until`, owned by the token `t`.
pub record IsHeld (r : MaintenanceRun) (t until : ℕ) : Type 0 where
  pub is_active : r.status ≡ MaintenanceRunStatus.running
  pub owner : r.owner_token ≡ some t
  pub lease : r.lease_expires_at ≡ some until

-- A call before the end of the lease that has not the owner's token; a claim by the actor of the
-- run's own sweep.
abbrev pub IsForeignTo : (r : MaintenanceRun) (t until : ℕ) → Env × RunCall → Type 0
IsForeignTo r t until (env, RunCall.claims k expected) =
    (env.now < until) × (is_other_task expected r.task_type ≡ false)
IsForeignTo r t until (env, RunCall.renews k x) = x ≢ t
IsForeignTo r t until (env, RunCall.completes k x) = x ≢ t
IsForeignTo r t until (env, RunCall.retries k x code) = x ≢ t

abbrev pub AllForeignTo : (r : MaintenanceRun) (t until : ℕ) → List (Env × RunCall) → Type 0
AllForeignTo r t until [] = Unit
AllForeignTo r t until (c ∷ cs) = IsForeignTo r t until c × AllForeignTo r t until cs

module _ (k : ℕ) (r : MaintenanceRun) (db : Db) (found : find_run k db.runs ≡ some r) where
  -- The run's row is still there.
  abbrev Keeps : Db → Type 0
  Keeps d = find_run k d.runs ≡ some r

  write_other : (x : MaintenanceRun) (d : Db) → Keeps d → k ≢ x.id → Keeps (write_run x d)
  write_other x d kept away = ground (arith, find_run-put k x d.runs, kept)

  claim_other :
      (env : Env) (i : ℕ) (expected : Option MaintenanceTaskType) (x : MaintenanceRun)
      → k ≢ x.id
      → Keeps (claim_row env i expected (some x) db).1
  unfolding claim_row
  claim_other env i expected x away =
      by_test Keeps (is_terminal x.status) _ _ (λ _. found)
        λ _.
          by_test Keeps (is_other_task expected x.task_type) _ _
            (λ _.
              write_other (failed_run env.now error_code_task_mismatch x) db found
                (unfold failed_run in away))
            λ _. by_lease Keeps x db (live_lease env.now x) _ found (
              by_test Keeps (leb max_attempts x.attempt_count) _ _
                (λ _.
                  write_other (failed_run env.now error_code_exhausted x) db found
                    (unfold failed_run in away))
                (λ _. write_other (claimed_run env x) db found (unfold claimed_run in away)))

  -- A settlement behind the fence keeps the row where it keeps it for the owner.
  settle-Keeps {ℓ} :
      {A : Type ℓ} (i t : ℕ) (rest : MaintenanceRun → Result (A × Db))
      → ((x : MaintenanceRun)
          → find_run i db.runs ≡ some x
          → x.owner_token ≡ some t
          → Keeps (runs_after db (rest x)))
      → Keeps (runs_after db (owned_run i t db >>= rest))
  settle-Keeps i t rest h = go (owned_run i t db) refl
    where
      go : (o : Result MaintenanceRun) → owned_run i t db ≡ o → Keeps (runs_after db (o >>= rest))
      go (err e) eq = found
      go (ok x) eq = let (here, own, _) = owned_run-ok i t db x eq in h x here own

  -- The owner of another token is the owner of another run.
  away :
      (i x until t : ℕ) (y : MaintenanceRun)
      → IsHeld r t until
      → x ≢ t
      → find_run i db.runs ≡ some y
      → y.owner_token ≡ some x
      → k ≢ y.id
  away i x until t y held other here own same =
      let named = find_run-id i y db.runs here in
      let again : find_run k db.runs ≡ some y =
        subst (λ n. find_run n db.runs ≡ some y) (sym (same ∙ named)) here in
      let row : r ≡ y = cc in
      let token : y.owner_token ≡ some t =
        subst (λ (z : MaintenanceRun). z.owner_token ≡ some t) row held.owner in
      other (cc)

  claim_self :
      (env : Env) (i : ℕ) (expected : Option MaintenanceTaskType) (t until : ℕ)
      → IsHeld r t until
      → env.now < until
      → is_other_task expected r.task_type ≡ false
      → (claim_row env i expected (some r) db).1 ≡ db
  unfolding claim_row is_terminal live_lease deferred_or
  claim_self env i expected t until held live ours =
      rw (ours, held.is_active, held.lease) (ground (arith, live))

  other_row :
      (env : Env) (i : ℕ) (expected : Option MaintenanceTaskType) (o : Option MaintenanceRun)
      (t until : ℕ)
      → find_run i db.runs ≡ o
      → IsHeld r t until
      → env.now < until
      → is_other_task expected r.task_type ≡ false
      → Keeps (claim_row env i expected o db).1
  other_row env i expected none t until here held live ours = unfold claim_row in found
  other_row env i expected (some x) t until here held live ours = elim (Bool-cases (k == x.id)) [
    | inl same ↦
        let named = find_run-id i x db.runs here in
        let again : find_run k db.runs ≡ some x =
          subst (λ n. find_run n db.runs ≡ some x) (sym (==→eq k x.id same ∙ named)) here in
        let row : r ≡ x = cc in
        subst (λ y. Keeps (claim_row env i expected (some y) db).1) row
          (subst Keeps (sym (claim_self env i expected t until held live ours)) found)
    | inr apart ↦ claim_other env i expected x (ground (arith, apart))
  ]

  complete_other :
      (env : Env) (i x t until : ℕ)
      → IsHeld r t until
      → x ≢ t
      → Keeps (db_after db (complete_run env i x db))
  unfolding complete_run completed_run
  complete_other env i x t until held other = go (owned_run i x db) refl
    where
      go :
          (o : Result MaintenanceRun)
          → owned_run i x db ≡ o
          → Keeps (db_after db (o >>= λ y. ok (write_run (completed_run env.now y) db)))
      go (err e) eq = found
      go (ok y) eq =
          let (here, own, _) = owned_run-ok i x db y eq in
          write_other (completed_run env.now y) db found (away i x until t y held other here own)

  step-held :
      (t until : ℕ) (c : Env × RunCall)
      → IsHeld r t until
      → IsForeignTo r t until c
      → Keeps (run_step c db)
  unfolding run_step claim_run renew_lease settle_retryable_failure
  step-held t until (env, RunCall.claims i expected) held (live, ours) =
      other_row env i expected (find_run i db.runs) t until refl held live ours
  step-held t until (env, RunCall.renews i x) held other = settle-Keeps i x _ λ y here own.
      write_other (record y { lease_expires_at = some (env.now + env.lease_seconds * 1000) }) db
        found (away i x until t y held other here own)
  step-held t until (env, RunCall.completes i x) held other =
      complete_other env i x t until held other
  step-held t until (env, RunCall.retries i x code) held other = settle-Keeps i x _ λ y here own.
      let apart = away i x until t y held other here own in
      after_retry Keeps env code y db found
        (write_other (failed_run env.now error_code_exhausted y) db found
          (unfold failed_run in apart))
        λ d same.
          write_other (requeued_run code y) d
            (subst (λ rs. find_run k rs ≡ some r) (sym same) found) (unfold requeued_run in apart)

-- While the lease of a running maintenance run is live, its row stays as it is through every
-- sequence of claims, renewals, completions and retries, of this run and of others, in which the
-- claims come before the end of that lease and do not expect another task than the run's, and the
-- other calls present another token than the owner's.
pub run_lease_is_exclusive :
    (k : ℕ) (r : MaintenanceRun) (t until : ℕ) (cs : List (Env × RunCall)) (db : Db)
    → find_run k db.runs ≡ some r
    → IsHeld r t until
    → AllForeignTo r t until cs
    → find_run k (run_steps cs db).runs ≡ some r
unfolding run_steps
run_lease_is_exclusive k r t until [] db found held foreign = found
run_lease_is_exclusive k r t until (c ∷ cs) db found held foreign =
    run_lease_is_exclusive k r t until cs (run_step c db)
      (step-held k r db found t until c held foreign.0) held foreign.1
