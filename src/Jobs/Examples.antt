-- ===== src/Jobs/Examples.antt =====
-- Concrete runs of the job services on the sample job.
use app_template.Prelude.{
  ◌+◌, ◌*◌, true, false, none, some, List, [], ◌∷◌, ◌≡◌, ◌≢◌, refl, ltb, if◌then◌else◌, ◌<◌, ◌≤◌,
  arith, ◌↔◌, is_some,
}
use app_template.Models.Jobs.{Job, JobStatus}
use app_template.Models.Errors.{ok}
use app_template.Database.{Db, Env, find_job}
use app_template.Jobs.Policy.{
  retry_delay, ClaimResult, is_terminal, max_attempts, JobOwnership, deferred_result,
}
use app_template.Jobs.Lookup.{verify_ownership, running_attempt}
use app_template.Jobs.Claim.{claim_dispatch, live_lease, not_yet_due, claim_result}
use app_template.Jobs.Settle.{retry_row}
use app_template.Jobs.Invariant.{IsValid}
use app_template.Jobs.Calls.{Call, run, empty_db, run-IsValid}
use app_template.Jobs.Leases.{IsLeased}
use app_template.Jobs.Traces.{terminal_is_final, lease_is_exclusive, AllForeign}
use app_template.Jobs.Ownership.{
  IsOwnedRow, verify_ownership_iff, superseded_is_refused, claim_dispatch-IsLeased,
}
use app_template.Jobs.Progress.{claim_dispatch_returns}
use app_template.Jobs.Retry.{retry_delay_bounds, retry_waits_until_due, retry_due}
use app_template.Jobs.Samples.{
  at, scheduling, waiting_job, waiting_db, running_job, running_db, first_claim, retrying_db,
  empty_db-IsValid, claiming_lem, retrying_lem, waiting_db-IsValid, running_db-IsValid,
}

run-IsValid_example : IsValid (run scheduling empty_db)
run-IsValid_example = run-IsValid scheduling empty_db empty_db-IsValid

-- A job that failed, and a claim and a late success that change nothing.
abbrev failed_job : Job
failed_job = record waiting_job { status = JobStatus.failed; completed_at = some 50 }

abbrev late_calls : List (Env × Call)
late_calls = (at 60 40, Call.claims 7) ∷ (at 70 50, Call.succeeds 7 none none) ∷ []

terminal_is_final_example :
    find_job 7 (run late_calls (record waiting_db { jobs = failed_job ∷ [] })).jobs
    ≡ some failed_job
unfolding is_terminal
terminal_is_final_example =
    terminal_is_final 7 failed_job late_calls (record waiting_db { jobs = failed_job ∷ [] }) refl
      refl

abbrev foreign_calls : List (Env × Call)
foreign_calls =
    (at 60 40, Call.claims 7)
    ∷ (at 70 50, Call.succeeds 7 none (some 20))
    ∷ (at 80 60, Call.exhausts 7 (some 10) (some 21))
    ∷ []

foreign : AllForeign 21 900005 foreign_calls
foreign = ((omega arith, cc), ((omega arith, ground arith), ((omega arith, cc), tt)))

lease_is_exclusive_example : find_job 7 (run foreign_calls running_db).jobs ≡ some running_job
lease_is_exclusive_example =
    lease_is_exclusive 7 running_job 21 900005 foreign_calls running_db refl
      (record { is_active = refl; owner = refl; lease = refl }) foreign

claim_dispatch_returns_example :
    (x : ClaimResult × Db) × (claim_dispatch (at 5 20) 7 waiting_db ≡ ok x)
claim_dispatch_returns_example =
    claim_dispatch_returns (at 5 20) 7 waiting_db waiting_job waiting_db-IsValid refl refl

retry_delay_bounds_example :
    (1000 ≤ retry_delay 2) × (retry_delay 2 ≤ retry_delay 3) × (retry_delay 3 ≤ 60000)
retry_delay_bounds_example = retry_delay_bounds 2 3 (omega arith) (omega arith)

abbrev credential : JobOwnership
credential = record { job_id = 7; owner_token = 21; organisation_id = 1 }

verify_ownership_iff_example : (verify_ownership credential true running_db ≡ ok running_job) ↔ (
    IsOwnedRow credential running_db running_job
    × (is_some (running_attempt running_job running_db.attempts) ≡ true))
verify_ownership_iff_example = verify_ownership_iff credential true running_db running_job

superseded_is_refused_example :
    verify_ownership (record credential { owner_token = 20 }) true running_db ≢ ok running_job
superseded_is_refused_example =
    superseded_is_refused (at 5 20) 7 waiting_db running_db first_claim
      (record credential { owner_token = 20 }) true running_job claiming_lem refl refl
      (ground arith)

retry_waits_until_due_example :
    (j : Job) × (find_job 7 running_db.jobs ≡ some j)
    × (db'' : Db) × (claim_dispatch (at 500 40) 7 retrying_db
        ≡ ok (
            if ltb 500 (retry_due (at 9 30) j)
            then (deferred_result (retry_row (at 9 30) j) (retry_due (at 9 30) j), retrying_db)
            else (claim_result (at 500 40) (retry_row (at 9 30) j), db'')))
retry_waits_until_due_example =
    retry_waits_until_due (at 9 30) (at 500 40) 7 21 running_db retrying_db running_db-IsValid
      retrying_lem refl

claim_dispatch-IsLeased_example :
    (j : Job) × ((find_job 7 waiting_db.jobs ≡ some j)
      × (is_terminal j.status ≡ false)
      × (live_lease 5 j ≡ none)
      × (not_yet_due 5 j waiting_db.events ≡ none)
      × (j.attempt_count < max_attempts))
    × ((find_job 7 running_db.jobs ≡ some running_job)
        × IsLeased running_job 21 (5 + 900 * 1000)
        × (1 ≡ j.attempt_count + 1)
        × (first_claim.owner_token ≡ some 21)
        × (some 10 ≡ running_job.dispatch_id))
claim_dispatch-IsLeased_example =
    claim_dispatch-IsLeased (at 5 20) 7 waiting_db running_db first_claim claiming_lem refl
