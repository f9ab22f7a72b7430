-- ===== src/Jobs/Failure.antt =====
-- backend/app/modules/jobs/service.py: the terminal failure of a locked job.
use text.Mathlib.Text.{◌==◌ as str_eq}
use app_template.Prelude.{String, Bool, true, false, none, some, ◌∷◌, leb, if◌then◌else◌}
use app_template.Models.Jobs.{Job, JobAttemptStatus, JobStatus}
use app_template.Models.Audit.{AuditEvent, Metadata, job_failed}
use app_template.Database.{Db, Env, put_job, any}
use app_template.Jobs.Policy.{
  max_attempts, error_code_retries_exhausted, error_message_retries_exhausted,
}
use app_template.Jobs.Lookup.{running_attempt, close_attempt}

-- `record_event` for a job: one row, stamped with the request id.
abbrev pub job_event : Env → Job → String → Metadata → AuditEvent
job_event env job action metadata = record {
  organisation_id = some job.organisation_id;
  actor_user_id = job.created_by_user_id;
  action = action;
  resource_type = "job";
  resource_id = job.id;
  metadata = metadata;
  request_id = env.request_id;
}

-- The row that `_fail_locked` leaves.
unfoldable pub failed_row : Env → Job → (error_code error_message : String) → Job
failed_row env job error_code error_message = record job {
  status = JobStatus.failed;
  error_code = some error_code;
  error_message = some error_message;
  completed_at = some env.failed_at;
  execution_lease_expires_at = none;
}

unfoldable pub fail_locked :
    Env → Job → (error_code error_message : String) → JobAttemptStatus → Db → Db
unfolding running_attempt close_attempt failed_row
fail_locked env job error_code error_message attempt_status db = record db {
  jobs = put_job (failed_row env job error_code error_message) db.jobs;
  attempts =
      close_attempt (running_attempt job db.attempts) attempt_status env.failed_at (some error_code)
        db.attempts;
  audit =
      job_event env job "job.failed"
        (job_failed job.job_type job.input_reference error_code error_message job.attempt_count)
      ∷ db.audit;
}

-- A registered hook is called in the transaction; what it writes is in tables of its own module.
unfoldable pub run_exhaustion_hook : Env → Job → (failure_code : String) → Db → Db
run_exhaustion_hook env job failure_code db =
    if any (λ t. str_eq t job.job_type) env.hooks
    then record db { hook_calls = (job.id, failure_code) ∷ db.hook_calls }
    else db

-- The failure that the three exhaustion paths share.
unfoldable pub exhaust : Env → Job → Db → Db
unfolding fail_locked run_exhaustion_hook
exhaust env job db = run_exhaustion_hook env job error_code_retries_exhausted (
    fail_locked env job error_code_retries_exhausted error_message_retries_exhausted
      JobAttemptStatus.exhausted db)

-- True with the failed job when the ceiling is reached, false with nothing changed below it.
unfoldable pub enforce_attempt_ceiling_locked : Env → Job → Db → Bool × Db
unfolding exhaust
enforce_attempt_ceiling_locked env job db =
    if leb max_attempts job.attempt_count then (true, exhaust env job db) else (false, db)
