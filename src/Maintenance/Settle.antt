-- ===== src/Maintenance/Settle.antt =====
-- backend/app/modules/maintenance/service.py: the renewal and the settlements of a claimed run.
use app_template.Prelude.{
  ℕ, ◌+◌, ◌*◌, String, Bool, true, false, ◌||◌, not, none, some, ltb, leb, opt_eq, if◌then◌else◌,
}
use app_template.Models.Maintenance.{MaintenanceRun, MaintenanceRunStatus, task_type_value}
use app_template.Models.Errors.{stale_dispatch, Result, ok, err, ◌>>=◌}
use app_template.Database.{Db, Env, find_run}
use app_template.Outbox.Service.{create_maintenance_event, maintenance_retry_key}
use app_template.Maintenance.Claim.{
  max_attempts, error_code_exhausted, retry_delay, is_running, failed_run, write_run,
}

-- The ownership fence of a settlement: `MaintenanceStaleRunError` for a missing run, another
-- token or a run that is not running.
unfoldable pub owned_run : (run_id owner_token : ℕ) → Db → Result MaintenanceRun
owned_run run_id owner_token db = elim (find_run run_id db.runs) [
  | none ↦ err (stale_dispatch run_id none (some owner_token))
  | some run ↦
      if not (opt_eq run.owner_token (some owner_token)) || not (is_running run.status)
      then err (stale_dispatch run_id run.owner_token (some owner_token))
      else ok run
]

unfoldable pub renew_lease : Env → (run_id owner_token : ℕ) → Db → Result (ℕ × Db)
renew_lease env run_id owner_token db = do
  run ← owned_run run_id owner_token db
  let lease = env.now + env.lease_seconds * 1000
  ok (lease, write_run (record run { lease_expires_at = some lease }) db)

unfoldable pub completed_run : ℕ → MaintenanceRun → MaintenanceRun
completed_run now run = record run {
  status = MaintenanceRunStatus.succeeded;
  completed_at = some now;
  error_code = none;
  owner_token = none;
  lease_expires_at = none;
}

unfoldable pub complete_run : Env → (run_id owner_token : ℕ) → Db → Result Db
unfolding completed_run
complete_run env run_id owner_token db = do
  run ← owned_run run_id owner_token db
  ok (write_run (completed_run env.now run) db)

unfoldable pub requeued_run : (error_code : String) → MaintenanceRun → MaintenanceRun
requeued_run error_code run = record run {
  status = MaintenanceRunStatus.queued;
  error_code = some error_code;
  owner_token = none;
  lease_expires_at = none;
}

-- The retry of an owned run, or its failure at the ceiling. The event's column default for
-- `created_at` is the clock; its due time is the retry's.
unfoldable pub retry_or_exhaust :
    Env → (error_code : String) → MaintenanceRun → Db → Result (MaintenanceRunStatus × Db)
unfolding retry_delay requeued_run failed_run
retry_or_exhaust env error_code run db =
    if leb max_attempts run.attempt_count
    then ok
        (MaintenanceRunStatus.failed, write_run (failed_run env.now error_code_exhausted run) db)
    else (do
      (_, db') ←
          create_maintenance_event (task_type_value run.task_type) run.id
            (maintenance_retry_key run.id run.attempt_count)
            (some (env.now + retry_delay run.attempt_count)) env.new_dispatch env.now db
      ok (MaintenanceRunStatus.queued, write_run (requeued_run error_code run) db'))

unfoldable pub settle_retryable_failure :
    Env → (run_id owner_token : ℕ) (error_code : String) → Db → Result (MaintenanceRunStatus × Db)
unfolding retry_or_exhaust
settle_retryable_failure env run_id owner_token error_code db = do
  run ← owned_run run_id owner_token db
  retry_or_exhaust env error_code run db

unfoldable pub enforce_attempt_ceiling_locked : (now : ℕ) → MaintenanceRun → Db → Bool × Db
unfolding failed_run
enforce_attempt_ceiling_locked now run db =
    if ltb run.attempt_count max_attempts
    then (false, db)
    else (true, write_run (failed_run now error_code_exhausted run) db)
