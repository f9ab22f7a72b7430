-- ===== src/Models/Maintenance.antt =====
-- backend/app/modules/maintenance/models.py: the rows of `maintenance_runs`.
use app_template.Prelude.{ℕ, String, Bool, Option}
use app_template.Models.Outbox.{DedupKey}

pub data MaintenanceTaskType : Type 0 where
  ai_retention transfer_reconcile : MaintenanceTaskType

pub data MaintenanceRunStatus : Type 0 where
  queued running succeeded failed : MaintenanceRunStatus

-- The schedule key is the deduplication key of the event that dispatches the run.
pub record MaintenanceRun : Type 0 where
  pub id : ℕ
  pub task_type : MaintenanceTaskType
  pub schedule_key : DedupKey
  pub scheduled_for : ℕ
  pub status : MaintenanceRunStatus
  pub attempt_count : ℕ
  pub owner_token : Option ℕ
  pub lease_expires_at : Option ℕ
  pub taken_over : Bool
  pub error_code : Option String
  pub started_at : Option ℕ
  pub completed_at : Option ℕ

-- `task_type.value`
abbrev pub task_type_value : MaintenanceTaskType → String
task_type_value MaintenanceTaskType.ai_retention = "ai.retention"
task_type_value MaintenanceTaskType.transfer_reconcile = "ai.transfer_reconcile"
