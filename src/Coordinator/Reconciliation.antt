-- ===== src/Coordinator/Reconciliation.antt =====
-- backend/app/job_coordinator/reconciliation.py: recovery of stranded and abandoned jobs. The
-- family `envs` gives the surroundings of the n-th selected row.
pub mod Recovery
use app_template.Prelude.{
  ℕ, suc, ◌-◌, ◌*◌, ◌/◌, max, String, Bool, true, false, ◌&&◌, not, Option, none, some, List, [],
  ◌∷◌, ltb, leb, if◌then◌else◌,
}
use app_template.Models.Jobs.{Job, JobStatus, JobAttemptStatus, is_running}
use app_template.Models.Errors.{Result, ok, ◌>>=◌}
use app_template.Database.{Db, Env, find_job, put_job}
use app_template.Outbox.Service.{create_dispatch_event, reconciliation_dispatch_key}
use app_template.Jobs.Lookup.{running_attempt, close_attempt}
use app_template.Jobs.Failure.{enforce_attempt_ceiling_locked}
use app_template.Coordinator.Queries.{some_until}
use app_template.Coordinator.Candidates.{
  queued_jobs_for_reconciliation, running_jobs_for_reconciliation,
}

-- Times are milliseconds after the epoch, later than the thresholds.
unfoldable pub reconciliation_cutoff : (now threshold_seconds cooldown_seconds : ℕ) → ℕ
reconciliation_cutoff now threshold cooldown = now - max threshold cooldown * 1000

abbrev pub cooldown_bucket : (now cooldown_seconds : ℕ) → ℕ
cooldown_bucket now cooldown = now / 1000 / cooldown

-- The row of a queued job behind its replacement event.
unfoldable pub redispatched_row : Env → Job → Job
redispatched_row env job = record job { dispatch_id = some env.new_dispatch }

unfoldable pub redispatch : Env → (bucket : ℕ) → Job → Db → Result Db
redispatch env bucket job db =
    create_dispatch_event job.organisation_id job.id env.new_dispatch
      (some (reconciliation_dispatch_key job.id bucket)) env.now env.now
      (record db { jobs = put_job (redispatched_row env job) db.jobs })

-- One row of the queued scan: the job that was reconciled, if any.
unfoldable pub reconcile_queued : Env → (bucket : ℕ) → Option Job → Db → Result (Option ℕ × Db)
reconcile_queued env bucket none db = ok (none, db)
reconcile_queued env bucket (some job) db =
    let (is_exhausted, db') = enforce_attempt_ceiling_locked env job db in
    if is_exhausted
    then ok (none, db')
    else (redispatch env bucket job db >>= λ done. ok (some job.id, done))

unfoldable pub close_running_attempt_abandoned : Job → (now : ℕ) → Db → Db
close_running_attempt_abandoned job now db = record db {
  attempts =
      close_attempt (running_attempt job db.attempts) JobAttemptStatus.abandoned now none
        db.attempts;
}

-- The row of a recovered job: its owner token is rotated, so the dead attempt's is superseded.
unfoldable pub recovered_row : Env → Job → Job
recovered_row env job = record job {
  status = JobStatus.queued;
  dispatch_id = some env.new_dispatch;
  owner_token = some env.new_owner;
  execution_lease_expires_at = none;
}

unfoldable pub recover : Env → (bucket now : ℕ) → Job → Db → Result Db
recover env bucket now job db =
    let closed_db = close_running_attempt_abandoned job now db in
    create_dispatch_event job.organisation_id job.id env.new_dispatch
      (some (reconciliation_dispatch_key job.id bucket)) env.now env.now
      (record closed_db { jobs = put_job (recovered_row env job) closed_db.jobs })

-- One row of the running scan, its state checked again under the lock.
unfoldable pub reconcile_running : Env → (bucket now : ℕ) → Option Job → Db → Result (Option ℕ × Db)
reconcile_running env bucket now none db = ok (none, db)
reconcile_running env bucket now (some job) db =
    let (is_exhausted, db') = enforce_attempt_ceiling_locked env job db in
    if not (is_running job.status)
    then ok (none, db)
    else if not (some_until job.execution_lease_expires_at now)
    then ok (none, db)
    else if is_exhausted
    then ok (none, db')
    else (recover env bucket now job db >>= λ done. ok (some job.id, done))

abbrev pub cons_some {ℓ} : {A : Type ℓ} → Option A → List A → List A
cons_some none xs = xs
cons_some (some x) xs = x ∷ xs

-- The loop over the selected jobs, in one transaction; a row is the session's, as it stands.
unfoldable pub each_job :
    (ℕ → Option Job → Db → Result (Option ℕ × Db)) → (n : ℕ) → List ℕ → Db → Result (List ℕ × Db)
each_job handle n [] db = ok ([], db)
each_job handle n (k ∷ ks) db = do
  (done, db') ← handle n (find_job k db.jobs) db
  (rest, db'') ← each_job handle (suc n) ks db'
  ok (cons_some done rest, db'')

unfoldable pub reconcile_queued_jobs :
    (envs : ℕ → Env) (is_locked : ℕ → Bool) (now threshold_seconds cooldown_seconds limit : ℕ)
    → Db
    → Result (List ℕ × Db)
unfolding reconciliation_cutoff
reconcile_queued_jobs envs is_locked now threshold cooldown limit db =
    each_job (λ n. reconcile_queued (envs n) (cooldown_bucket now cooldown)) 0
      (queued_jobs_for_reconciliation is_locked (reconciliation_cutoff now threshold cooldown) limit
        db.events db.jobs)
      db

-- The same candidates, without a lock or a write.
unfoldable pub reconciliation_candidates :
    (now threshold_seconds cooldown_seconds limit : ℕ) → Db → List ℕ
unfolding reconciliation_cutoff
reconciliation_candidates now threshold cooldown limit db =
    queued_jobs_for_reconciliation (λ _. false) (reconciliation_cutoff now threshold cooldown) limit
      db.events db.jobs

unfoldable pub reconcile_running_jobs :
    (envs : ℕ → Env) (is_locked : ℕ → Bool) (now threshold_seconds cooldown_seconds limit : ℕ)
    → Db
    → Result (List ℕ × Db)
unfolding reconciliation_cutoff
reconcile_running_jobs envs is_locked now threshold cooldown limit db =
    each_job (λ n. reconcile_running (envs n) (cooldown_bucket now cooldown) now) 0
      (running_jobs_for_reconciliation is_locked now (reconciliation_cutoff now threshold cooldown)
        limit db.events db.jobs)
      db
