-- ===== src/Maintenance/Runs.antt =====
-- Sequences of calls on the maintenance runs, and the branches of a call.
use app_template.Prelude.{
  ℕ, ◌+◌, ◌*◌, ◌≤◌, String, Bool, true, false, Option, none, some, List, [], ◌∷◌, ◌==◌, ◌≡◌, refl,
  sym, ap, subst, arith, inl, inr, Bool-cases, is_some, leb, if◌then◌else◌,
}
use app_template.Models.Maintenance.{
  MaintenanceRun, MaintenanceRunStatus, MaintenanceTaskType, task_type_value,
}
use app_template.Models.Errors.{Result, ok, err, ◌>>=◌}
use app_template.Database.{Db, Env, find_run, put_run}
use app_template.Outbox.Service.{create_maintenance_event, maintenance_retry_key}
use app_template.Models.Outbox.{OutboxEvent}
use app_template.Outbox.Insertion.{create_maintenance_event-ok}
use app_template.Maintenance.Claim.{
  MaintenanceClaimResult, max_attempts, is_terminal, claim_run, claim_row, is_other_task,
  deferred_or, claimed_run, failed_run, write_run, live_lease, error_code_exhausted,
  error_code_task_mismatch, retry_delay,
}
use app_template.Maintenance.Settle.{
  owned_run, renew_lease, complete_run, completed_run, settle_retryable_failure, retry_or_exhaust,
  requeued_run,
}
pub mod Validity

pub data RunCall : Type 0 where
  claims : (run_id : ℕ) (expected : Option MaintenanceTaskType) → RunCall
  renews completes : (run_id owner_token : ℕ) → RunCall
  retries : (run_id owner_token : ℕ) (error_code : String) → RunCall

abbrev pub runs_after {ℓ} : {A : Type ℓ} → Db → Result (A × Db) → Db
runs_after db (err e) = db
runs_after db (ok (a, db')) = db'

abbrev pub db_after : Db → Result Db → Db
db_after db (err e) = db
db_after db (ok db') = db'

-- One call and the tables that it leaves.
unfoldable pub run_step : Env × RunCall → Db → Db
run_step (env, RunCall.claims k expected) db = (claim_run env k expected db).1
run_step (env, RunCall.renews k t) db = runs_after db (renew_lease env k t db)
run_step (env, RunCall.completes k t) db = db_after db (complete_run env k t db)
run_step (env, RunCall.retries k t code) db =
    runs_after db (settle_retryable_failure env k t code db)

unfoldable pub run_steps : List (Env × RunCall) → Db → Db
run_steps [] db = db
run_steps (c ∷ cs) db = run_steps cs (run_step c db)

pub find_run-put :
    (k : ℕ) (r : MaintenanceRun) (rs : List MaintenanceRun)
    → find_run k (put_run r rs)
      ≡ (if k == r.id then (if is_some (find_run k rs) then some r else none) else find_run k rs)
find_run-put k r [] = ground arith
find_run-put k r (x ∷ rs) = ground (arith, find_run-put k r rs)

pub find_run-id :
    (k : ℕ) (r : MaintenanceRun) (rs : List MaintenanceRun) → find_run k rs ≡ some r → r.id ≡ k
find_run-id k r [] h = cc
find_run-id k r (x ∷ rs) h = ground (arith, find_run-id k r rs)

module _ (P : Db → Type 0) where
  pub by_test :
      (b : Bool) (x y : MaintenanceClaimResult × Db)
      → (b ≡ true → P x.1)
      → (b ≡ false → P y.1)
      → P (if b then x else y).1
  by_test true x y p q = p refl
  by_test false x y p q = q refl

  pub by_lease :
      (r : MaintenanceRun) (db : Db) (o : Option ℕ) (rest : MaintenanceClaimResult × Db)
      → P db
      → P rest.1
      → P (deferred_or r db o rest).1
  unfolding deferred_or
  by_lease r db none rest p q = q
  by_lease r db (some t) rest p q = p

pub owned_run-ok :
    (k t : ℕ) (db : Db) (r : MaintenanceRun)
    → owned_run k t db ≡ ok r
    → (find_run k db.runs ≡ some r)
      × (r.owner_token ≡ some t)
      × (r.status ≡ MaintenanceRunStatus.running)
unfolding owned_run
owned_run-ok k t db r h = ground arith

-- What a retry leaves: the failed run, or the queued one with the other runs as they were.
pub after_retry :
    (P : Db → Type 0) (env : Env) (code : String) (r : MaintenanceRun) (db : Db)
    → P db
    → P (write_run (failed_run env.now error_code_exhausted r) db)
    → ((d : Db) → d.runs ≡ db.runs → P (write_run (requeued_run code r) d))
    → P (runs_after db (retry_or_exhaust env code r db))
unfolding retry_or_exhaust
after_retry P env code r db start failed requeued =
    elim (Bool-cases (leb max_attempts r.attempt_count)) [
      | inl y ↦ rw y failed
      | inr n ↦ rw n (go _ refl)
    ]
  where
    go :
        (o : Result (OutboxEvent × Db))
        → create_maintenance_event
            (task_type_value r.task_type)
            r.id
            (maintenance_retry_key r.id r.attempt_count)
            (some (env.now + retry_delay r.attempt_count))
            env.new_dispatch
            env.now
            db
          ≡ o
        → P (
            runs_after db (
              o >>= λ made.
              ok (MaintenanceRunStatus.queued, write_run (requeued_run code r) made.1)))
    go (err e) eq = start
    go (ok (e, d)) eq =
        requeued d (ap (λ (x : Db). x.runs) (create_maintenance_event-ok _ _ _ _ _ _ e db d eq))
