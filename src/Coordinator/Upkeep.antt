-- ===== src/Coordinator/Upkeep.antt =====
-- backend/app/job_coordinator/reconciliation.py: the schedule of the sweeps, the recovery of their
-- runs, and the cleanup of published events.
pub mod Deletion
pub mod Retention
use app_template.Prelude.{
  ℕ, suc, ◌+◌, ◌-◌, ◌*◌, ◌/◌, String, Bool, true, ◌&&◌, not, Option, none, some, List, [], ◌∷◌, ltb,
  ◌==◌, length, map, take, keep, sort_by, if◌then◌else◌,
}
use app_template.Models.Outbox.{OutboxEvent, OutboxEventStatus, DedupKey}
use app_template.Models.Maintenance.{
  MaintenanceRun, MaintenanceTaskType, MaintenanceRunStatus, task_type_value,
}
use app_template.Models.Errors.{integrity, Result, ok, err, ◌>>=◌}
use app_template.Database.{Db, Env, any, find_run, insert_event}
use app_template.Outbox.Contracts.{event_type_outbox_cleanup_completed}
use app_template.Outbox.Service.{create_maintenance_event, maintenance_recovery_key}
use app_template.Maintenance.Claim.{
  create_scheduled_run, error_code_abandoned, is_terminal, is_running, write_run,
}
use app_template.Maintenance.Settle.{enforce_attempt_ceiling_locked}
use app_template.Coordinator.Queries.{some_before, some_until, published_events_retention}
use app_template.Coordinator.Reconciliation.{cooldown_bucket, cons_some}

unfoldable pub schedule_bucket : (now interval_hours : ℕ) → ℕ
schedule_bucket now hours = now / 1000 / (hours * 3600)

unfoldable pub schedule_bucket_start : (bucket interval_hours : ℕ) → ℕ
schedule_bucket_start bucket hours = bucket * hours * 3600 * 1000

abbrev pub schedule_key : (event_type : String) (now interval_hours : ℕ) → DedupKey
schedule_key event_type now hours = DedupKey.schedule event_type (schedule_bucket now hours)

-- The run and its event. `env` draws the identifier of the run with `new_owner`.
unfoldable pub schedule_run :
    Env → (now : ℕ) → MaintenanceTaskType → (interval_hours : ℕ) → Db → Result Db
unfolding schedule_bucket schedule_bucket_start
schedule_run env now task_type hours db = do
  let key = schedule_key (task_type_value task_type) now hours
  (run, db₁) ←
      create_scheduled_run task_type key (schedule_bucket_start (schedule_bucket now hours) hours)
        env.new_owner db
  (_, db₂) ←
      create_maintenance_event (task_type_value task_type) run.id key none env.new_dispatch env.now
        db₁
  ok db₂

-- The nested transaction: a collision rolls it back and counts nothing.
abbrev pub or_skip : Db → Result Db → Result (ℕ × Db)
or_skip db (ok db') = ok (1, db')
or_skip db (err (integrity _)) = ok (0, db)
or_skip db (err e) = err e

unfoldable pub schedule_maintenance_events :
    (envs : ℕ → Env) (now ai_retention_interval_hours transfer_reconcile_interval_hours : ℕ)
    → Db
    → Result (ℕ × Db)
schedule_maintenance_events envs now retention_hours transfer_hours db = do
  (m, db₁) ←
      or_skip db (schedule_run (envs 0) now MaintenanceTaskType.ai_retention retention_hours db)
  (n, db₂) ←
      or_skip db₁
        (schedule_run (envs 1) now MaintenanceTaskType.transfer_reconcile transfer_hours db₁)
  ok (m + n, db₂)

-- backend/app/modules/maintenance/queries.py
unfoldable pub expired_running_maintenance_runs :
    (is_locked : ℕ → Bool) (lease_expired_before limit : ℕ) → List MaintenanceRun → List ℕ
expired_running_maintenance_runs is_locked lease_expired_before limit runs =
    map (λ (r : MaintenanceRun). r.id)
      (take limit (
        keep (λ (r : MaintenanceRun). not (is_locked r.id))
          (sort_by (λ (a b : MaintenanceRun). ltb b.scheduled_for a.scheduled_for)
            (keep
              (λ (r : MaintenanceRun).
                is_running r.status && some_before r.lease_expires_at lease_expired_before)
              runs))))

unfoldable pub recovered_run : MaintenanceRun → MaintenanceRun
recovered_run run = record run {
  status = MaintenanceRunStatus.queued;
  taken_over = true;
  error_code = some error_code_abandoned;
  owner_token = none;
  lease_expires_at = none;
}

-- One row of the scan, its state checked again under the lock.
unfoldable pub recover_run :
    Env → (bucket now : ℕ) → Option MaintenanceRun → Db → Result (Option ℕ × Db)
unfolding recovered_run
recover_run env bucket now none db = ok (none, db)
recover_run env bucket now (some run) db =
    let (is_exhausted, db') = enforce_attempt_ceiling_locked now run db in
    if is_terminal run.status
    then ok (none, db)
    else if not (some_until run.lease_expires_at now)
    then ok (none, db)
    else if is_exhausted
    then ok (none, db')
    else (create_maintenance_event (task_type_value run.task_type) run.id
          (maintenance_recovery_key run.id bucket) none env.new_dispatch env.now db
        >>= λ created. ok (some run.id, write_run (recovered_run run) created.1))

unfoldable pub recover_runs :
    (envs : ℕ → Env) (bucket now : ℕ) (n : ℕ) → List ℕ → Db → Result (List ℕ × Db)
recover_runs envs bucket now n [] db = ok ([], db)
recover_runs envs bucket now n (k ∷ ks) db = do
  (done, db') ← recover_run (envs n) bucket now (find_run k db.runs) db
  (rest, db'') ← recover_runs envs bucket now (suc n) ks db'
  ok (cons_some done rest, db'')

unfoldable pub recover_expired_maintenance_runs :
    (envs : ℕ → Env) (is_locked : ℕ → Bool) (now cooldown_seconds limit : ℕ)
    → Db
    → Result (List ℕ × Db)
recover_expired_maintenance_runs envs is_locked now cooldown limit db =
    recover_runs envs (cooldown_bucket now cooldown) now 0
      (expired_running_maintenance_runs is_locked now limit db.runs) db

-- The ledger row of one cleanup.
unfoldable pub cleanup_marker : (marker_id bucket now : ℕ) → OutboxEvent
cleanup_marker marker_id bucket now = record {
  id = marker_id;
  organisation_id = none;
  event_type = event_type_outbox_cleanup_completed;
  event_version = 1;
  aggregate_type = some "outbox_cleanup";
  aggregate_id = none;
  payload = [];
  deduplication_key = some (DedupKey.cleanup bucket);
  status = OutboxEventStatus.published;
  available_at = now;
  claimed_at = none;
  claim_token = none;
  processed_at = some now;
  attempt_count = 0;
  last_error = none;
  created_at = now;
}

abbrev delete_events : List ℕ → Db → Db
delete_events ids db = record db {
  events = keep (λ (e : OutboxEvent). not (any (λ k. k == e.id) ids)) db.events;
}

-- A cleanup of a bucket that has a marker rolls back and deletes nothing.
cleanup_after :
    (is_locked : ℕ → Bool) (now retention_days limit : ℕ) (before : Db)
    → Result Db
    → Result (ℕ × Db)
cleanup_after is_locked now days limit before (ok db) =
    let ids =
      map (λ (e : OutboxEvent). e.id)
        (published_events_retention is_locked (now - days * 86400000) limit db.events) in
    ok (length ids, delete_events ids db)
cleanup_after is_locked now days limit before (err (integrity _)) = ok (0, before)
cleanup_after is_locked now days limit before (err e) = err e

unfoldable pub cleanup_published_events :
    (is_locked : ℕ → Bool) (marker_id now retention_days limit interval_hours : ℕ)
    → Db
    → Result (ℕ × Db)
unfolding cleanup_after cleanup_marker schedule_bucket
cleanup_published_events is_locked marker_id now days limit hours db =
    cleanup_after is_locked now days limit db
      (insert_event (cleanup_marker marker_id (schedule_bucket now hours) now) db)
