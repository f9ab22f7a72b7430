-- ===== src/Maintenance/Runs/Validity.antt =====
-- The well-formedness of the maintenance runs under sequences of calls.
use app_template.Prelude.{
  ℕ, ◌+◌, ◌*◌, ◌≤◌, String, true, false, Option, none, some, List, [], ◌∷◌, ◌==◌, ◌≡◌, refl, sym,
  subst, arith, inl, inr, Bool-cases, is_some, leb,
}
use app_template.Models.Maintenance.{MaintenanceRun, MaintenanceRunStatus, MaintenanceTaskType}
use app_template.Models.Errors.{Result, ok, err, ◌>>=◌}
use app_template.Database.{Db, Env, find_run}
use app_template.Maintenance.Claim.{
  max_attempts, is_terminal, claim_run, claim_row, is_other_task, claimed_run, failed_run,
  write_run, live_lease, error_code_exhausted, error_code_task_mismatch,
}
use app_template.Maintenance.Settle.{
  owned_run, renew_lease, complete_run, completed_run, settle_retryable_failure, requeued_run,
}
use app_template.Maintenance.Runs.{
  RunCall, run_step, run_steps, runs_after, db_after, by_test, by_lease, after_retry, find_run-put,
  owned_run-ok,
}

-- The token and the lease are there exactly while the run is running.
abbrev pub RunPhase : MaintenanceRunStatus → MaintenanceRun → Type 0
RunPhase MaintenanceRunStatus.running r =
    (is_some r.owner_token ≡ true)
    × (is_some r.lease_expires_at ≡ true)
    × (is_some r.started_at ≡ true)
RunPhase MaintenanceRunStatus.queued r = (r.owner_token ≡ none) × (r.lease_expires_at ≡ none)
RunPhase _ r =
    (r.owner_token ≡ none) × (r.lease_expires_at ≡ none) × (is_some r.completed_at ≡ true)

pub record RunIsValid (r : MaintenanceRun) : Type 0 where
  pub capped : r.attempt_count ≤ max_attempts
  pub phase : RunPhase r.status r

pub record RunsAreValid (db : Db) : Type 0 where
  pub each : (k : ℕ) (r : MaintenanceRun) → find_run k db.runs ≡ some r → RunIsValid r

write_run-IsValid :
    (r : MaintenanceRun) (db : Db) → RunsAreValid db → RunIsValid r → RunsAreValid (write_run r db)
write_run-IsValid r db v new = record {
  each = λ k x found. elim (Bool-cases (k == r.id)) [
    | inl here ↦
        let same : r ≡ x = ground (arith, found, find_run-put k r db.runs, here) in
        subst RunIsValid same new
    | inr away ↦ v.each k x (ground (arith, found, find_run-put k r db.runs, away))
  ];
}

failed_run-IsValid :
    (now : ℕ) (code : String) (r : MaintenanceRun)
    → RunIsValid r
    → RunIsValid (failed_run now code r)
unfolding failed_run
failed_run-IsValid now code r v = record { capped = v.capped; phase = (refl, refl, refl) }

claimed_run-IsValid :
    (env : Env) (r : MaintenanceRun)
    → leb max_attempts r.attempt_count ≡ false
    → RunIsValid (claimed_run env r)
unfolding claimed_run
claimed_run-IsValid env r room = record {
  capped = ground (arith, room);
  phase = (refl, refl, refl);
}

claim_row-IsValid :
    (env : Env) (k : ℕ) (expected : Option MaintenanceTaskType) (r : MaintenanceRun) (db : Db)
    → RunsAreValid db
    → RunIsValid r
    → RunsAreValid (claim_row env k expected (some r) db).1
unfolding claim_row
claim_row-IsValid env k expected r db v valid =
    by_test RunsAreValid (is_terminal r.status) _ _ (λ _. v)
      λ _.
        by_test RunsAreValid (is_other_task expected r.task_type) _ _
          (λ _.
            write_run-IsValid (failed_run env.now error_code_task_mismatch r) db v
              (failed_run-IsValid env.now error_code_task_mismatch r valid))
          λ _. by_lease RunsAreValid r db (live_lease env.now r) _ v (
            by_test RunsAreValid (leb max_attempts r.attempt_count) _ _
              (λ _.
                write_run-IsValid (failed_run env.now error_code_exhausted r) db v
                  (failed_run-IsValid env.now error_code_exhausted r valid))
              (λ room. write_run-IsValid (claimed_run env r) db v (claimed_run-IsValid env r room)))

claim_run-IsValid :
    (env : Env) (k : ℕ) (expected : Option MaintenanceTaskType) (db : Db)
    → RunsAreValid db
    → RunsAreValid (claim_run env k expected db).1
unfolding claim_run
claim_run-IsValid env k expected db v = by_row (find_run k db.runs) refl
  where
    by_row :
        (o : Option MaintenanceRun)
        → find_run k db.runs ≡ o
        → RunsAreValid (claim_row env k expected o db).1
    by_row none e = unfold claim_row in v
    by_row (some r) e = claim_row-IsValid env k expected r db v (v.each k r e)

renewed_run-IsValid :
    (lease : ℕ) (r : MaintenanceRun)
    → r.status ≡ MaintenanceRunStatus.running
    → RunIsValid r
    → RunIsValid (record r { lease_expires_at = some lease })
renewed_run-IsValid lease r running v =
    let held : RunPhase MaintenanceRunStatus.running r =
      subst (λ st. RunPhase st r) running v.phase in
    record {
      capped = v.capped;
      phase =
          subst (λ st. RunPhase st (record r { lease_expires_at = some lease })) (sym running)
            (held.0, refl, held.2);
    }

completed_run-IsValid :
    (now : ℕ) (r : MaintenanceRun) → RunIsValid r → RunIsValid (completed_run now r)
unfolding completed_run
completed_run-IsValid now r v = record { capped = v.capped; phase = (refl, refl, refl) }

requeued_run-IsValid :
    (code : String) (r : MaintenanceRun) → RunIsValid r → RunIsValid (requeued_run code r)
unfolding requeued_run
requeued_run-IsValid code r v = record { capped = v.capped; phase = (refl, refl) }

module _ (db : Db) (v : RunsAreValid db) where
  -- A settlement begins with the fence.
  by_owner {ℓ} :
      {A : Type ℓ} (k t : ℕ) (rest : MaintenanceRun → Result (A × Db))
      → ((r : MaintenanceRun)
          → RunIsValid r
          → r.status ≡ MaintenanceRunStatus.running
          → RunsAreValid (runs_after db (rest r)))
      → RunsAreValid (runs_after db (owned_run k t db >>= rest))
  by_owner k t rest h = go (owned_run k t db) refl
    where
      go :
          (o : Result MaintenanceRun)
          → owned_run k t db ≡ o
          → RunsAreValid (runs_after db (o >>= rest))
      go (err e) eq = v
      go (ok r) eq =
          let (found, _, running) = owned_run-ok k t db r eq in h r (v.each k r found) running

  renew_lease-IsValid :
      (env : Env) (k t : ℕ) → RunsAreValid (runs_after db (renew_lease env k t db))
  unfolding renew_lease
  renew_lease-IsValid env k t = by_owner k t _ λ r valid running.
      write_run-IsValid (record r { lease_expires_at = some (env.now + env.lease_seconds * 1000) })
        db v (renewed_run-IsValid (env.now + env.lease_seconds * 1000) r running valid)

  complete_run-IsValid :
      (env : Env) (k t : ℕ) → RunsAreValid (db_after db (complete_run env k t db))
  unfolding complete_run
  complete_run-IsValid env k t = go (owned_run k t db) refl
    where
      go :
          (o : Result MaintenanceRun)
          → owned_run k t db ≡ o
          → RunsAreValid (db_after db (o >>= λ r. ok (write_run (completed_run env.now r) db)))
      go (err e) eq = v
      go (ok r) eq =
          let (found, _, _) = owned_run-ok k t db r eq in
          write_run-IsValid (completed_run env.now r) db v
            (completed_run-IsValid env.now r (v.each k r found))

  settle_retryable_failure-IsValid :
      (env : Env) (k t : ℕ) (code : String)
      → RunsAreValid (runs_after db (settle_retryable_failure env k t code db))
  unfolding settle_retryable_failure
  settle_retryable_failure-IsValid env k t code = by_owner k t _ λ r valid running.
      after_retry RunsAreValid env code r db v
        (write_run-IsValid (failed_run env.now error_code_exhausted r) db v
          (failed_run-IsValid env.now error_code_exhausted r valid))
        λ d same.
          write_run-IsValid (requeued_run code r) d
            (record {
              each = λ i x found. v.each i x (subst (λ rs. find_run i rs ≡ some x) same found);
            })
            (requeued_run-IsValid code r valid)

-- Every sequence of calls keeps every maintenance run well formed: at most three attempts; a token,
-- a lease and a start while it is running; neither token nor lease otherwise, and a completion time
-- when it has succeeded or failed.
pub run_steps-IsValid :
    (cs : List (Env × RunCall)) (db : Db) → RunsAreValid db → RunsAreValid (run_steps cs db)
unfolding run_steps run_step
run_steps-IsValid [] db v = v
run_steps-IsValid ((env, RunCall.claims k expected) ∷ cs) db v =
    run_steps-IsValid cs _ (claim_run-IsValid env k expected db v)
run_steps-IsValid ((env, RunCall.renews k t) ∷ cs) db v =
    run_steps-IsValid cs _ (renew_lease-IsValid db v env k t)
run_steps-IsValid ((env, RunCall.completes k t) ∷ cs) db v =
    run_steps-IsValid cs _ (complete_run-IsValid db v env k t)
run_steps-IsValid ((env, RunCall.retries k t code) ∷ cs) db v =
    run_steps-IsValid cs _ (settle_retryable_failure-IsValid db v env k t code)
