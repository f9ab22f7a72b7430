-- ===== src/Jobs/Settle.antt =====
-- backend/app/modules/jobs/service.py: progress, success, failure and retry of a claimed job.
use app_template.Prelude.{
  ℕ, ◌+◌, ◌*◌, String, Bool, false, ◌&&◌, ◌||◌, not, Option, none, some, ◌∷◌, leb, ◌==◌, opt_eq,
  is_some, if◌then◌else◌,
}
use app_template.Prelude.Int.{ℤ, pos, negsuc}
use app_template.Models.Jobs.{
  Job, JobStatus, JobAttempt, JobAttemptStatus, is_running, is_queued, is_succeeded, is_failed,
}
use app_template.Models.Audit.{job_succeeded}
use app_template.Models.Errors.{conflict, invalid, Result, ok, err, raise_if, ◌>>=◌, ◌>>◌}
use app_template.Database.{Db, Env, find_job, put_job}
use app_template.Outbox.Service.{create_dispatch_event, retry_dispatch_key}
use app_template.Jobs.Policy.{
  max_attempts, retry_delay, is_terminal, error_code_transient, error_code_retries_exhausted,
  error_message_retries_exhausted, error_code_dispatch_invalid,
}
use app_template.Jobs.Lookup.{
  get_job_locked, running_attempt, write_attempt, close_attempt, verify_owner,
}
use app_template.Jobs.Failure.{fail_locked, failed_row, run_exhaustion_hook, exhaust, job_event}
use app_template.Jobs.Claim.{live_lease}

-- The row of a job that waits for its retry. The owner token stays.
unfoldable pub retry_row : Env → Job → Job
retry_row env job = record job {
  status = JobStatus.queued;
  dispatch_id = some env.new_dispatch;
  execution_lease_expires_at = none;
}

-- The retry of a job below the ceiling: its attempt is closed and its next dispatch written.
unfoldable pub schedule_retry : Env → Job → Db → Result Db
unfolding running_attempt close_attempt create_dispatch_event retry_row retry_delay
schedule_retry env job db =
    create_dispatch_event job.organisation_id job.id env.new_dispatch
      (some (retry_dispatch_key job.id job.attempt_count)) env.now
      (env.now + retry_delay job.attempt_count)
      (record db {
        jobs = put_job (retry_row env job) db.jobs;
        attempts =
            close_attempt (running_attempt job db.attempts) JobAttemptStatus.retry_scheduled env.now
              (some error_code_transient) db.attempts;
      })

-- The decision for a locked job.
unfoldable pub settle_locked : Env → (owner_token : ℕ) → Job → Db → Result (Option JobStatus × Db)
settle_locked env owner_token job db = do
  verify_owner job (some owner_token)
  if is_terminal job.status
      then ok (none, db)
      else if not (is_running job.status)
      then ok (none, db)
      else if leb max_attempts job.attempt_count
      then ok (some JobStatus.failed, exhaust env job db)
      else (do db' ← schedule_retry env job db; ok (some JobStatus.queued, db'))

unfoldable pub settle_retryable_failure :
    Env → (job_id owner_token : ℕ) → Db → Result (Option JobStatus × Db)
unfolding settle_locked
settle_retryable_failure env job_id owner_token db = do
  job ← get_job_locked job_id db
  settle_locked env owner_token job db

unfoldable pub in_range : ℤ → Bool
in_range (pos n) = leb n 100
in_range (negsuc n) = false

unfoldable pub magnitude : ℤ → ℕ
magnitude (pos n) = n
magnitude (negsuc n) = 0

unfoldable pub progress_row : Env → Job → ℕ → Job
progress_row env job progress = record job {
  progress = progress;
  execution_lease_expires_at = some (env.now + env.lease_seconds * 1000);
}

abbrev pub renewed : ℕ → JobAttempt → JobAttempt
renewed lease a = record a { lease_expires_at = lease }

unfoldable pub update_progress :
    Env → (job_id : ℕ) (progress : ℤ) (owner_token : Option ℕ) → Db → Result (Job × Db)
unfolding get_job_locked verify_owner is_terminal running_attempt in_range magnitude write_attempt
    progress_row
update_progress env job_id progress owner_token db = do
  raise_if (not (in_range progress)) (invalid "invalid_job_progress")
  job ← get_job_locked job_id db
  if is_terminal job.status
      then (do verify_owner job owner_token; err (conflict "job_in_terminal_state"))
      else (do
        verify_owner job owner_token
        raise_if (not (is_running job.status)) (conflict "job_not_running")
        ok (
          progress_row env job (magnitude progress),
          record db {
            jobs = put_job (progress_row env job (magnitude progress)) db.jobs;
            attempts =
                write_attempt (running_attempt job db.attempts)
                  (renewed (env.now + env.lease_seconds * 1000)) db.attempts;
          },
        ))

reference_or : Option String → Option String → Option String
reference_or none old = old
reference_or (some r) old = some r

unfoldable pub succeeded_row : Env → Job → (result_reference : Option String) → Job
unfolding reference_or
succeeded_row env job result_reference = record job {
  status = JobStatus.succeeded;
  progress = 100;
  completed_at = some env.now;
  execution_lease_expires_at = none;
  result_reference = reference_or result_reference job.result_reference;
}

unfoldable pub succeed :
    Env
    → (job_id : ℕ) (result_reference : Option String) (owner_token : Option ℕ) → Db
    → Result (Job × Db)
unfolding get_job_locked verify_owner is_terminal running_attempt close_attempt succeeded_row
succeed env job_id result_reference owner_token db = do
  job ← get_job_locked job_id db
  if is_succeeded job.status then ok (job, db) else (do
    verify_owner job owner_token
    raise_if (is_terminal job.status) (conflict "job_in_terminal_state")
    let row = succeeded_row env job result_reference
    ok (
      row,
      record db {
        jobs = put_job row db.jobs;
        attempts =
            close_attempt (running_attempt job db.attempts) JobAttemptStatus.succeeded env.now none
              db.attempts;
        audit =
            job_event env job "job.succeeded" (
              job_succeeded job.job_type job.input_reference row.result_reference job.attempt_count)
            ∷ db.audit;
      },
    ))

unfoldable pub fail :
    Env
    → (job_id : ℕ) (error_code error_message : String) (owner_token : Option ℕ) → Db
    → Result (Job × Db)
unfolding get_job_locked verify_owner is_terminal fail_locked failed_row
fail env job_id error_code error_message owner_token db = do
  job ← get_job_locked job_id db
  if is_failed job.status then ok (job, db) else (do
    verify_owner job owner_token
    raise_if (is_terminal job.status) (conflict "job_in_terminal_state")
    ok (
      failed_row env job error_code error_message,
      fail_locked env job error_code error_message JobAttemptStatus.failed db,
    ))

-- Whether the exhausted message names the job's current attempt.
unfoldable pub names_current_attempt : Job → (dispatch_id owner_token : Option ℕ) → Bool
names_current_attempt job none none = not (is_some job.owner_token)
names_current_attempt job none (some t) = false
names_current_attempt job (some d) none = false
names_current_attempt job (some d) (some t) =
    opt_eq (some d) job.dispatch_id && opt_eq (some t) job.owner_token

-- The bridge for older broker messages; `none` is a stale message.
unfoldable pub settle_after_retries_exhausted :
    Env
    → (job_id : ℕ) (exhausted_dispatch_id exhausted_owner_token : Option ℕ) → Db
    → Result (Option Job × Db)
unfolding get_job_locked is_terminal names_current_attempt live_lease exhaust failed_row
settle_after_retries_exhausted env job_id exhausted_dispatch_id exhausted_owner_token db = do
  job ← get_job_locked job_id db
  if is_terminal job.status
      then ok (none, db)
      else if not (names_current_attempt job exhausted_dispatch_id exhausted_owner_token)
      then ok (none, db)
      else if is_some (live_lease env.now job)
      then ok (none, db)
      else ok (
        some (failed_row env job error_code_retries_exhausted error_message_retries_exhausted),
        exhaust env job db,
      )

abbrev undelivered : String
undelivered = "The job could not be delivered."

-- The job is the organisation's, waits for this very dispatch and was never claimed.
unfoldable pub is_undelivered : (event_id organisation_id : ℕ) → Job → Bool
is_undelivered event_id organisation_id job = not (
    not (job.organisation_id == organisation_id)
    || (not (opt_eq job.dispatch_id (some event_id))
        || (not (is_queued job.status) || not (job.attempt_count == 0))))

unfoldable pub fail_undelivered :
    Env → (event_id organisation_id : ℕ) → Option Job → Db → Option Job × Db
fail_undelivered env event_id organisation_id none db = (none, db)
fail_undelivered env event_id organisation_id (some job) db =
    if is_undelivered event_id organisation_id job
    then (
      some (failed_row env job error_code_dispatch_invalid undelivered),
      run_exhaustion_hook env job error_code_dispatch_invalid
          (fail_locked env job error_code_dispatch_invalid undelivered JobAttemptStatus.failed db),
    )
    else (none, db)

-- A dead initial event fails the never-claimed job that it dispatches. The caller commits.
unfoldable pub settle_dead_initial_dispatch :
    Env → (event_id : ℕ) (aggregate_id organisation_id : Option ℕ) → Db → Option Job × Db
unfolding fail_undelivered
settle_dead_initial_dispatch env event_id none organisation_id db = (none, db)
settle_dead_initial_dispatch env event_id (some k) none db = (none, db)
settle_dead_initial_dispatch env event_id (some k) (some o) db =
    fail_undelivered env event_id o (find_job k db.jobs) db
