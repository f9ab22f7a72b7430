-- ===== src/Jobs/Policy.antt =====
-- backend/app/modules/jobs/service.py: the retry policy, the outcomes of a claim and the
-- terminal states.
use app_template.Prelude.{
  ℕ, zero, suc, ◌*◌, ◌^◌, min, String, Bool, true, false, Option, none, some,
}
use app_template.Models.Jobs.{Job, JobStatus}

abbrev pub max_attempts : ℕ
max_attempts = 3

abbrev pub retry_min_backoff_ms : ℕ
retry_min_backoff_ms = 1000

abbrev pub retry_max_backoff_ms : ℕ
retry_max_backoff_ms = 60000

abbrev pub error_code_retries_exhausted : String
error_code_retries_exhausted = "job_retries_exhausted"

abbrev pub error_message_retries_exhausted : String
error_message_retries_exhausted = "The job exhausted its allowed attempts."

abbrev pub error_code_dispatch_invalid : String
error_code_dispatch_invalid = "job_dispatch_invalid"

abbrev pub error_code_transient : String
error_code_transient = "job_transient_failure"

-- In milliseconds. `2 ** -1` is a half.
unfoldable pub retry_delay : ℕ → ℕ
retry_delay zero = 500
retry_delay (suc n) = min (retry_min_backoff_ms * 2 ^ n) retry_max_backoff_ms

unfoldable pub is_terminal : JobStatus → Bool
is_terminal JobStatus.succeeded = true
is_terminal JobStatus.failed = true
is_terminal JobStatus.cancelled = true
is_terminal JobStatus.queued = false
is_terminal JobStatus.running = false

pub data ClaimOutcome : Type 0 where
  claimed deferred exhausted stale : ClaimOutcome

pub record ClaimResult : Type 0 where
  pub outcome : ClaimOutcome
  pub job : Job
  pub dispatch_id : Option ℕ
  pub owner_token : Option ℕ
  pub deferred_until : Option ℕ
  pub taken_over : Bool

-- `ClaimResult(outcome=…, job=job)` with the other fields at their defaults.
abbrev pub plain_result : ClaimOutcome → Job → ClaimResult
plain_result outcome job = record {
  outcome = outcome;
  job = job;
  dispatch_id = none;
  owner_token = none;
  deferred_until = none;
  taken_over = false;
}

abbrev pub deferred_result : Job → ℕ → ClaimResult
deferred_result job until = record {
  outcome = ClaimOutcome.deferred;
  job = job;
  dispatch_id = none;
  owner_token = none;
  deferred_until = some until;
  taken_over = false;
}

-- The credential that a worker captured at its claim.
pub record JobOwnership : Type 0 where
  pub job_id : ℕ
  pub owner_token : ℕ
  pub organisation_id : ℕ
