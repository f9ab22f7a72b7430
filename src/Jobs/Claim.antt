-- ===== src/Jobs/Claim.antt =====
-- backend/app/modules/jobs/service.py: scheduling a job and claiming its next attempt.
use app_template.Prelude.{
  ℕ, ◌+◌, ◌*◌, String, ◌&&◌, Option, none, some, List, ltb, leb, if◌then◌else◌,
}
use app_template.Models.Jobs.{Job, JobStatus, JobAttempt, JobAttemptStatus, is_running, is_queued}
use app_template.Models.Outbox.{OutboxEvent, is_pending}
use app_template.Models.Errors.{Result, ok, ◌>>=◌}
use app_template.Database.{Db, Env, find_event, put_job, insert_job, insert_attempt}
use app_template.Outbox.Service.{create_dispatch_event}
use app_template.Jobs.Policy.{
  max_attempts, is_terminal, ClaimOutcome, ClaimResult, plain_result, deferred_result,
  error_code_retries_exhausted, error_message_retries_exhausted,
}
use app_template.Jobs.Lookup.{get_job_locked, running_attempt, close_attempt}
use app_template.Jobs.Failure.{exhaust, failed_row}

abbrev pub id_or : Option ℕ → ℕ → ℕ
id_or none fresh = fresh
id_or (some k) fresh = k

-- The row of a new job; `fresh_job` is drawn where the caller supplies no id.
unfoldable pub queued_job :
    Env
    → (organisation_id : ℕ) (job_type input_reference : String) (actor_user_id : Option ℕ) (id : ℕ)
    → Job
queued_job env organisation_id job_type input_reference actor_user_id id = record {
  id = id;
  organisation_id = organisation_id;
  job_type = job_type;
  status = JobStatus.queued;
  progress = 0;
  input_reference = input_reference;
  result_reference = none;
  error_code = none;
  error_message = none;
  attempt_count = 0;
  created_by_user_id = actor_user_id;
  started_at = none;
  completed_at = none;
  dispatch_id = some env.new_dispatch;
  owner_token = none;
  execution_lease_expires_at = none;
}

-- The job and its event in one transaction: where either insert fails, neither row is there.
unfoldable pub schedule_job :
    Env
    → (organisation_id : ℕ) (job_type input_reference : String) (actor_user_id : Option ℕ)
      (job_id : Option ℕ) (fresh_job : ℕ)
    → Db
    → Result (Job × Db)
unfolding queued_job
schedule_job env organisation_id job_type input_reference actor_user_id job_id fresh_job db = do
  let job =
      queued_job env organisation_id job_type input_reference actor_user_id (id_or job_id fresh_job)
  db₁ ← insert_job job db
  db₂ ← create_dispatch_event organisation_id job.id env.new_dispatch none env.now env.now db₁
  ok (job, db₂)

live_until : ℕ → Option ℕ → Option ℕ
live_until now none = none
live_until now (some t) = if ltb now t then some t else none

-- The bound of a live execution lease.
unfoldable pub live_lease : ℕ → Job → Option ℕ
unfolding live_until
live_lease now job =
    if is_running job.status then live_until now job.execution_lease_expires_at else none

unfoldable pub due_later : ℕ → Option OutboxEvent → Option ℕ
due_later now none = none
due_later now (some e) =
    if is_pending e.status && ltb now e.available_at then some e.available_at else none

named_event : Option ℕ → List OutboxEvent → Option OutboxEvent
named_event none events = none
named_event (some k) events = find_event k events

-- The due time of a queued job's current event that is still pending and not yet due.
unfoldable pub not_yet_due : ℕ → Job → List OutboxEvent → Option ℕ
unfolding due_later named_event
not_yet_due now job events =
    if is_queued job.status then due_later now (named_event job.dispatch_id events) else none

abbrev time_or_now : Option ℕ → ℕ → ℕ
time_or_now none now = now
time_or_now (some t) now = t

-- The row after a claim.
unfoldable pub claimed_row : Env → Job → Job
claimed_row env job = record job {
  dispatch_id = some (id_or job.dispatch_id env.new_dispatch);
  owner_token = some env.new_owner;
  status = JobStatus.running;
  attempt_count = job.attempt_count + 1;
  started_at = some (time_or_now job.started_at env.now);
  execution_lease_expires_at = some (env.now + env.lease_seconds * 1000);
}

unfoldable pub new_attempt : Env → Job → JobAttempt
new_attempt env job = record {
  job_id = job.id;
  organisation_id = job.organisation_id;
  dispatch_id = id_or job.dispatch_id env.new_dispatch;
  owner_token = env.new_owner;
  attempt_number = job.attempt_count + 1;
  status = JobAttemptStatus.running;
  lease_expires_at = env.now + env.lease_seconds * 1000;
  started_at = env.now;
  completed_at = none;
  taken_over = is_running job.status;
  error_code = none;
}

-- The attempts after an expired owner's is closed.
unfoldable pub abandon_old : Env → Job → List JobAttempt → List JobAttempt
abandon_old env job attempts =
    if is_running job.status
    then close_attempt (running_attempt job attempts) JobAttemptStatus.abandoned env.now none
        attempts
    else attempts

unfoldable pub claim_result : Env → Job → ClaimResult
claim_result env job = record {
  outcome = ClaimOutcome.claimed;
  job = claimed_row env job;
  dispatch_id = some (id_or job.dispatch_id env.new_dispatch);
  owner_token = some env.new_owner;
  deferred_until = none;
  taken_over = is_running job.status;
}

-- The tables between the update of the job and the insert of the new attempt.
abbrev pub claiming : Env → Job → Db → Db
claiming env job db = record db {
  jobs = put_job (claimed_row env job) db.jobs;
  attempts = abandon_old env job db.attempts;
}

unfoldable pub take_claim : Env → Job → Db → Result (ClaimResult × Db)
take_claim env job db = do
  db' ← insert_attempt (new_attempt env job) (claiming env job db)
  ok (claim_result env job, db')

unfoldable pub defer_or :
    Job → Db → Option ℕ → Result (ClaimResult × Db) → Result (ClaimResult × Db)
defer_or job db (some t) rest = ok (deferred_result job t, db)
defer_or job db none rest = rest

-- The claim of a locked job, in the order of the source's tests.
unfoldable pub claim_locked : Env → Job → Db → Result (ClaimResult × Db)
claim_locked env job db =
    if is_terminal job.status
    then ok (plain_result ClaimOutcome.stale job, db)
    else defer_or job db (live_lease env.now job) (
        defer_or job db (not_yet_due env.now job db.events) (
          if leb max_attempts job.attempt_count
          then ok (
            plain_result ClaimOutcome.exhausted
                (failed_row env job error_code_retries_exhausted error_message_retries_exhausted),
            exhaust env job db,
          )
          else take_claim env job db))

unfoldable pub claim_dispatch : Env → (job_id : ℕ) → Db → Result (ClaimResult × Db)
claim_dispatch env job_id db = do job ← get_job_locked job_id db; claim_locked env job db
