-- ===== src/Maintenance/Claim.antt =====
-- backend/app/modules/maintenance/service.py: the policy, creation and claim of a run.
use app_template.Prelude.{
  ℕ, zero, suc, ◌+◌, ◌*◌, ◌^◌, min, String, Bool, true, false, ◌||◌, not, Option, none, some, ◌∷◌,
  ltb, leb, ◌==◌, if◌then◌else◌,
}
use app_template.Models.Outbox.{DedupKey}
use app_template.Models.Maintenance.{MaintenanceRun, MaintenanceRunStatus, MaintenanceTaskType}
use app_template.Models.Errors.{integrity, Result, ok, raise_if, ◌>>◌}
use app_template.Database.{Db, Env, any, key_eq, find_run, put_run}

abbrev pub max_attempts : ℕ
max_attempts = 3

abbrev pub error_code_exhausted : String
error_code_exhausted = "maintenance_retries_exhausted"

abbrev pub error_code_abandoned : String
error_code_abandoned = "maintenance_attempt_abandoned"

abbrev pub error_code_task_mismatch : String
error_code_task_mismatch = "maintenance_task_type_mismatch"

pub data MaintenanceClaimOutcome : Type 0 where
  claimed deferred exhausted mismatch stale : MaintenanceClaimOutcome

pub record MaintenanceClaimResult : Type 0 where
  pub outcome : MaintenanceClaimOutcome
  pub run_id : ℕ
  pub task_type : Option MaintenanceTaskType
  pub owner_token : Option ℕ
  pub attempt_number : ℕ
  pub deferred_until : Option ℕ
  pub taken_over : Bool

-- In milliseconds. `2 ** -1` is a half.
unfoldable pub retry_delay : ℕ → ℕ
retry_delay zero = 15000
retry_delay (suc n) = min (30000 * 2 ^ n) 600000

unfoldable pub is_terminal : MaintenanceRunStatus → Bool
is_terminal MaintenanceRunStatus.succeeded = true
is_terminal MaintenanceRunStatus.failed = true
is_terminal _ = false

abbrev pub is_running : MaintenanceRunStatus → Bool
is_running MaintenanceRunStatus.running = true
is_running _ = false

abbrev pub same_task : MaintenanceTaskType → MaintenanceTaskType → Bool
same_task MaintenanceTaskType.ai_retention MaintenanceTaskType.ai_retention = true
same_task MaintenanceTaskType.transfer_reconcile MaintenanceTaskType.transfer_reconcile = true
same_task _ _ = false

-- `_fail_locked`
unfoldable pub failed_run : (now : ℕ) (error_code : String) → MaintenanceRun → MaintenanceRun
failed_run now error_code run = record run {
  status = MaintenanceRunStatus.failed;
  error_code = some error_code;
  completed_at = some now;
  owner_token = none;
  lease_expires_at = none;
}

abbrev pub write_run : MaintenanceRun → Db → Db
write_run run db = record db { runs = put_run run db.runs }

-- The new row and its flush, with the unique constraint on the schedule key.
unfoldable pub create_scheduled_run :
    MaintenanceTaskType → DedupKey → (scheduled_for run_id : ℕ) → Db → Result (MaintenanceRun × Db)
create_scheduled_run task_type schedule_key scheduled_for run_id db = do
  raise_if (any (λ (r : MaintenanceRun). r.id == run_id) db.runs) (integrity "pk_maintenance_runs")
  raise_if (any (λ (r : MaintenanceRun). key_eq r.schedule_key schedule_key) db.runs)
      (integrity "uq_maintenance_runs_schedule_key")
  let run : MaintenanceRun = record {
    id = run_id;
    task_type = task_type;
    schedule_key = schedule_key;
    scheduled_for = scheduled_for;
    status = MaintenanceRunStatus.queued;
    attempt_count = 0;
    owner_token = none;
    lease_expires_at = none;
    taken_over = false;
    error_code = none;
    started_at = none;
    completed_at = none;
  }
  ok (run, record db { runs = run ∷ db.runs })

abbrev pub plain_claim :
    MaintenanceClaimOutcome → ℕ → Option MaintenanceTaskType → Option ℕ → MaintenanceClaimResult
plain_claim outcome run_id task_type until = record {
  outcome = outcome;
  run_id = run_id;
  task_type = task_type;
  owner_token = none;
  attempt_number = 0;
  deferred_until = until;
  taken_over = false;
}

live_until : ℕ → Option ℕ → Option ℕ
live_until now none = none
live_until now (some t) = if ltb now t then some t else none

-- The bound of a live lease.
unfoldable pub live_lease : ℕ → MaintenanceRun → Option ℕ
unfolding live_until
live_lease now run = if is_running run.status then live_until now run.lease_expires_at else none

unfoldable pub is_other_task : Option MaintenanceTaskType → MaintenanceTaskType → Bool
is_other_task none t = false
is_other_task (some expected) t = not (same_task t expected)

abbrev time_or_now : Option ℕ → ℕ → ℕ
time_or_now none now = now
time_or_now (some t) now = t

unfoldable pub claimed_run : Env → MaintenanceRun → MaintenanceRun
claimed_run env run = record run {
  status = MaintenanceRunStatus.running;
  attempt_count = run.attempt_count + 1;
  owner_token = some env.new_owner;
  lease_expires_at = some (env.now + env.lease_seconds * 1000);
  taken_over = run.taken_over || is_running run.status;
  started_at = some (time_or_now run.started_at env.now);
}

unfoldable pub claim_of : Env → MaintenanceRun → MaintenanceClaimResult
claim_of env run = record {
  outcome = MaintenanceClaimOutcome.claimed;
  run_id = run.id;
  task_type = some run.task_type;
  owner_token = some env.new_owner;
  attempt_number = run.attempt_count + 1;
  deferred_until = none;
  taken_over = is_running run.status;
}

unfoldable pub deferred_or :
    MaintenanceRun → Db → Option ℕ → MaintenanceClaimResult × Db → MaintenanceClaimResult × Db
deferred_or run db none rest = rest
deferred_or run db (some t) rest =
    (plain_claim MaintenanceClaimOutcome.deferred run.id (some run.task_type) (some t), db)

-- The claim of a row, in the order of the source's tests.
unfoldable pub claim_row :
    Env
    → (run_id : ℕ) → Option MaintenanceTaskType
    → Option MaintenanceRun
    → Db
    → MaintenanceClaimResult × Db
unfolding is_terminal is_other_task deferred_or live_lease claimed_run claim_of failed_run
claim_row env run_id expected none db =
    (plain_claim MaintenanceClaimOutcome.stale run_id none none, db)
claim_row env run_id expected (some run) db =
    if is_terminal run.status
    then (plain_claim MaintenanceClaimOutcome.stale run_id (some run.task_type) none, db)
    else if is_other_task expected run.task_type
    then (
      plain_claim MaintenanceClaimOutcome.mismatch run_id (some run.task_type) none,
      write_run (failed_run env.now error_code_task_mismatch run) db,
    )
    else deferred_or run db (live_lease env.now run) (
        if leb max_attempts run.attempt_count
        then (
          plain_claim MaintenanceClaimOutcome.exhausted run_id (some run.task_type) none,
          write_run (failed_run env.now error_code_exhausted run) db,
        )
        else (claim_of env run, write_run (claimed_run env run) db))

unfoldable pub claim_run :
    Env
    → (run_id : ℕ) → (expected_task_type : Option MaintenanceTaskType) → Db
    → MaintenanceClaimResult × Db
claim_run env run_id expected db = claim_row env run_id expected (find_run run_id db.runs) db
