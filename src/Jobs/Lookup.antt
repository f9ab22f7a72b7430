-- ===== src/Jobs/Lookup.antt =====
-- backend/app/modules/jobs/service.py: reading a job and its open attempt, and the ownership
-- checks. The row-level-security settings of the session are not modelled: each read sees the row
-- that its policy admits.
use app_template.Prelude.{
  ℕ, String, Bool, ◌&&◌, Option, none, some, List, ◌==◌, opt_eq, is_some, not, find_first,
  update_first, if◌then◌else◌,
}
use app_template.Models.Jobs.{Job, JobAttempt, JobAttemptStatus, is_running}
use app_template.Models.Errors.{
  Error, not_found, stale_dispatch, Result, ok, err, raise_if, or_raise, ◌>>=◌, ◌>>◌,
}
use app_template.Database.{Db, find_job, is_held_by}
use app_template.Jobs.Policy.{JobOwnership}

abbrev pub job_not_found : Error
job_not_found = not_found "job_not_found"

unfoldable pub bootstrap_job : ℕ → Db → Result Job
bootstrap_job job_id db = or_raise (find_job job_id db.jobs) job_not_found

-- The unlocked read.
unfoldable pub read_job : ℕ → Db → Result Job
unfolding bootstrap_job
read_job job_id db = bootstrap_job job_id db

-- The locked read checks the tenant key once more.
unfoldable pub get_job_locked : ℕ → Db → Result Job
unfolding bootstrap_job
get_job_locked job_id db = do
  job ← bootstrap_job job_id db
  or_raise (find_first (λ r. r.id == job_id && r.organisation_id == job.organisation_id) db.jobs)
      job_not_found

-- The read of the API: the organisation filters the rows.
unfoldable pub get_job : (organisation_id job_id : ℕ) → Db → Result Job
get_job organisation_id job_id db =
    or_raise (find_first (λ r. r.organisation_id == organisation_id && r.id == job_id) db.jobs)
      job_not_found

unfoldable pub find_held : ℕ → Option ℕ → List JobAttempt → Option JobAttempt
find_held job_id none attempts = none
find_held job_id (some token) attempts = find_first (is_held_by job_id token) attempts

-- The open attempt of the job's current owner.
unfoldable pub running_attempt : Job → List JobAttempt → Option JobAttempt
unfolding find_held
running_attempt job attempts = find_held job.id job.owner_token attempts

abbrev pub closed : JobAttemptStatus → ℕ → Option String → JobAttempt → JobAttempt
closed status now error_code a = record a {
  status = status;
  completed_at = some now;
  error_code = error_code;
}

-- A write to the row that `running_attempt` returned; a legacy owner has none.
unfoldable pub write_attempt :
    Option JobAttempt → (JobAttempt → JobAttempt) → List JobAttempt → List JobAttempt
write_attempt none change attempts = attempts
write_attempt (some a) change attempts =
    update_first (is_held_by a.job_id a.owner_token) change attempts

unfoldable pub close_attempt :
    Option JobAttempt
    → JobAttemptStatus
    → (now : ℕ) → (error_code : Option String) → List JobAttempt
    → List JobAttempt
unfolding write_attempt
close_attempt attempt status now error_code attempts =
    write_attempt attempt (closed status now error_code) attempts

verify_token : Job → Option ℕ → Option ℕ → Result (Unit {0})
verify_token job none captured = ok tt
verify_token job (some t) captured =
    if opt_eq (some t) captured then ok tt else err (stale_dispatch job.id (some t) captured)

unfoldable pub verify_owner : Job → Option ℕ → Result (Unit {0})
unfolding verify_token
verify_owner job captured = verify_token job job.owner_token captured

-- The checks of a row against the captured credential.
unfoldable pub check_ownership : JobOwnership → Db → Job → Result Job
check_ownership o db job = do
  let stale = stale_dispatch job.id job.owner_token (some o.owner_token)
  raise_if (not (job.organisation_id == o.organisation_id)) stale
  raise_if (not (is_running job.status && is_some job.owner_token)) stale
  raise_if (not (opt_eq job.owner_token (some o.owner_token))) stale
  raise_if (not (is_some (running_attempt job db.attempts))) stale
  ok job

-- `lock` chooses the read; the checks are the same.
unfoldable pub verify_ownership : JobOwnership → (lock : Bool) → Db → Result Job
verify_ownership o lock db = do
  job ← if lock then get_job_locked o.job_id db else read_job o.job_id db
  check_ownership o db job
