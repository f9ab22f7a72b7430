-- ===== src/Jobs/Samples.antt =====
-- One job on its way: scheduled, claimed, and waiting for its retry.
use app_template.Prelude.{ℕ, ◌+◌, false, none, some, List, [], ◌∷◌, ◌≡◌, refl, subst}
use app_template.Models.Jobs.{Job, JobStatus, JobAttempt, JobAttemptStatus}
use app_template.Models.Errors.{ok}
use app_template.Database.{Db, Env, insert_job, insert_attempt, insert_event}
use app_template.Outbox.Contracts.{
  dispatch_payload, json_chars, entries_chars, value_chars, escaped_chars,
}
use app_template.Outbox.Service.{
  create_dispatch_event, check_payload_size, dispatch_event, retry_dispatch_key,
}
use app_template.Jobs.Policy.{retry_delay, ClaimResult, ClaimOutcome, is_terminal}
use app_template.Jobs.Lookup.{
  get_job_locked, verify_owner, running_attempt, close_attempt, write_attempt,
}
use app_template.Jobs.Claim.{
  claim_dispatch, claim_locked, live_lease, not_yet_due, defer_or, take_claim, new_attempt,
  claimed_row, abandon_old, claim_result, schedule_job, queued_job,
}
use app_template.Jobs.Settle.{settle_retryable_failure, settle_locked, schedule_retry, retry_row}
use app_template.Jobs.Invariant.{IsValid, after}
use app_template.Jobs.Invariant.Claiming.{claim_dispatch-IsValid}
use app_template.Jobs.Calls.{Call, step, run, empty_db, run-IsValid}

-- A clock at `t` milliseconds, with fresh identifiers from `fresh` on.
abbrev pub at : (t fresh : ℕ) → Env
at t fresh = record {
  now = t;
  failed_at = t;
  new_dispatch = fresh;
  new_owner = fresh + 1;
  lease_seconds = 900;
  hooks = [];
  request_id = none;
}

abbrev pub scheduling : List (Env × Call)
scheduling = (at 0 10, Call.schedules 1 "file.processing" "file:1" none (some 7) 0) ∷ []

-- The job waits for the event 10.
abbrev pub waiting_job : Job
waiting_job = record {
  id = 7;
  organisation_id = 1;
  job_type = "file.processing";
  status = JobStatus.queued;
  progress = 0;
  input_reference = "file:1";
  result_reference = none;
  error_code = none;
  error_message = none;
  attempt_count = 0;
  created_by_user_id = none;
  started_at = none;
  completed_at = none;
  dispatch_id = some 10;
  owner_token = none;
  execution_lease_expires_at = none;
}

abbrev pub waiting_db : Db
waiting_db = record empty_db {
  jobs = waiting_job ∷ [];
  events = dispatch_event 1 7 10 none 0 0 ∷ [];
}

-- The first attempt, claimed after 5 ms with the token 21.
abbrev pub running_job : Job
running_job = record waiting_job {
  status = JobStatus.running;
  attempt_count = 1;
  started_at = some 5;
  owner_token = some 21;
  execution_lease_expires_at = some 900005;
}

abbrev pub first_attempt : JobAttempt
first_attempt = record {
  job_id = 7;
  organisation_id = 1;
  dispatch_id = 10;
  owner_token = 21;
  attempt_number = 1;
  status = JobAttemptStatus.running;
  lease_expires_at = 900005;
  started_at = 5;
  completed_at = none;
  taken_over = false;
  error_code = none;
}

abbrev pub running_db : Db
running_db = record waiting_db { jobs = running_job ∷ []; attempts = first_attempt ∷ [] }

abbrev pub first_claim : ClaimResult
first_claim = record {
  outcome = ClaimOutcome.claimed;
  job = running_job;
  dispatch_id = some 10;
  owner_token = some 21;
  deferred_until = none;
  taken_over = false;
}

-- The attempt failed after 9 ms; its retry is the event 30, a second later.
abbrev pub retrying_db : Db
retrying_db = record running_db {
  jobs =
      record running_job {
        status = JobStatus.queued;
        dispatch_id = some 30;
        execution_lease_expires_at = none;
      }
      ∷ [];
  attempts =
      record first_attempt {
        status = JobAttemptStatus.retry_scheduled;
        completed_at = some 9;
        error_code = some "job_transient_failure";
      }
      ∷ [];
  events = dispatch_event 1 7 30 (some (retry_dispatch_key 7 1)) 9 1009 ∷ waiting_db.events;
}

pub empty_db-IsValid : IsValid empty_db
empty_db-IsValid = record { jobs_valid = λ k j h. absurd cc; no_orphans = λ k h. refl }

pub scheduled_job :
    schedule_job (at 0 10) 1 "file.processing" "file:1" none (some 7) 0 empty_db
    ≡ ok (waiting_job, waiting_db)
unfolding schedule_job queued_job insert_job create_dispatch_event check_payload_size json_chars
    entries_chars value_chars escaped_chars insert_event dispatch_payload
scheduled_job = refl

pub scheduling_lem : run scheduling empty_db ≡ waiting_db
unfolding run step schedule_job queued_job insert_job create_dispatch_event check_payload_size
    json_chars entries_chars value_chars escaped_chars insert_event dispatch_payload
scheduling_lem = refl

pub claiming_lem : claim_dispatch (at 5 20) 7 waiting_db ≡ ok (first_claim, running_db)
unfolding claim_dispatch claim_locked get_job_locked is_terminal live_lease not_yet_due defer_or
    take_claim new_attempt claimed_row abandon_old claim_result insert_attempt dispatch_event
claiming_lem = refl

pub retrying_lem :
    settle_retryable_failure (at 9 30) 7 21 running_db ≡ ok (some JobStatus.queued, retrying_db)
unfolding settle_retryable_failure settle_locked get_job_locked verify_owner is_terminal
    schedule_retry retry_row retry_delay create_dispatch_event check_payload_size insert_event
    running_attempt close_attempt write_attempt json_chars entries_chars value_chars escaped_chars
    dispatch_payload dispatch_event
retrying_lem = refl

pub waiting_db-IsValid : IsValid waiting_db
waiting_db-IsValid = subst IsValid scheduling_lem (run-IsValid scheduling empty_db empty_db-IsValid)

pub running_db-IsValid : IsValid running_db
running_db-IsValid =
    subst (λ r. IsValid (after waiting_db r)) claiming_lem
      (claim_dispatch-IsValid (at 5 20) 7 waiting_db waiting_db-IsValid)
