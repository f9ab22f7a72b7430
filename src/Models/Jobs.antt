-- ===== src/Models/Jobs.antt =====
-- backend/app/modules/jobs/models.py: the rows of `jobs` and `job_attempts`. Times are numbers of
-- milliseconds, identifiers are numbers. `created_at` of a job and the primary key of an attempt
-- are left out: no function of the model reads them.
use app_template.Prelude.{ℕ, String, Bool, true, false, Option}

pub data JobStatus : Type 0 where
  queued running succeeded failed cancelled : JobStatus

pub data JobAttemptStatus : Type 0 where
  running retry_scheduled succeeded failed exhausted abandoned : JobAttemptStatus

pub record Job : Type 0 where
  pub id : ℕ
  pub organisation_id : ℕ
  pub job_type : String
  pub status : JobStatus
  pub progress : ℕ
  pub input_reference : String
  pub result_reference : Option String
  pub error_code : Option String
  pub error_message : Option String
  pub attempt_count : ℕ
  pub created_by_user_id : Option ℕ
  pub started_at : Option ℕ
  pub completed_at : Option ℕ
  pub dispatch_id : Option ℕ
  pub owner_token : Option ℕ
  pub execution_lease_expires_at : Option ℕ

pub record JobAttempt : Type 0 where
  pub job_id : ℕ
  pub organisation_id : ℕ
  pub dispatch_id : ℕ
  pub owner_token : ℕ
  pub attempt_number : ℕ
  pub status : JobAttemptStatus
  pub lease_expires_at : ℕ
  pub started_at : ℕ
  pub completed_at : Option ℕ
  pub taken_over : Bool
  pub error_code : Option String

-- `job.status == JobStatus.QUEUED` and the like.
abbrev pub is_queued : JobStatus → Bool
is_queued JobStatus.queued = true
is_queued _ = false

abbrev pub is_running : JobStatus → Bool
is_running JobStatus.running = true
is_running _ = false

abbrev pub is_succeeded : JobStatus → Bool
is_succeeded JobStatus.succeeded = true
is_succeeded _ = false

abbrev pub is_failed : JobStatus → Bool
is_failed JobStatus.failed = true
is_failed _ = false

abbrev pub is_open : JobAttemptStatus → Bool
is_open JobAttemptStatus.running = true
is_open _ = false
