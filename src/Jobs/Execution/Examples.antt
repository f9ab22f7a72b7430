-- ===== src/Jobs/Execution/Examples.antt =====
-- Concrete runs of the wrapper on the sample job: its handler fails with a timeout.
use app_template.Prelude.{ℕ, true, none, some, ◌≡◌, is_some, refl, arith}
use app_template.Models.Errors.{failure, ok}
use app_template.Jobs.Lookup.{verify_ownership}
use app_template.Jobs.Invariant.{IsValid}
use app_template.Jobs.Samples.{
  at, waiting_db, running_db, running_job, first_claim, claiming_lem, retrying_lem,
  waiting_db-IsValid,
}
use app_template.Jobs.Execution.{
  DurableJobContext, Surroundings, Run, HandlerEnd, Ending, Reason, ownership,
  stamp_current_message, handled, round, run_claimed, rounds, after_claim, by_outcome, run_handler,
  settle_round, context_of,
}
use app_template.Jobs.Execution.Budget.{run_claimed_ends}
use app_template.Jobs.Execution.Validity.{run_claimed-IsValid}
use app_template.Jobs.Execution.Delivery.{handler_owns}
use app_template.Jobs.Execution.Retrying.{IsRequeued, run_claimed-IsScheduled}
use app_template.Models.Jobs.{Job}

abbrev failing : Surroundings
failing = record {
  has_message = true;
  claiming = λ n. at 5 20;
  settling = λ n. at 9 30;
  claim_takes = λ n. 2;
  sleep = λ n requested. requested;
  meanwhile = λ n db. db;
  handler = λ n c db. (HandlerEnd.raised (failure "timeout"), db);
}

abbrev arrived : Run
arrived = record { db = waiting_db; time = 5; stamp = none }

run_claimed_ends_example : is_some (run_claimed failing 7 arrived).0 ≡ true
run_claimed_ends_example = run_claimed_ends failing 7 arrived (λ n requested. omega arith)

run_claimed-IsValid_example : IsValid (run_claimed failing 7 arrived).1.db
run_claimed-IsValid_example =
    run_claimed-IsValid failing 7 arrived (λ n db v. v) (λ n c db v. v) waiting_db-IsValid

handler_owns_example :
    (c : DurableJobContext) × ((c.job_id ≡ 7)
      × (c.organisation_id ≡ 1)
      × (running_job.dispatch_id ≡ some c.dispatch_id)
      × (c.owner_token ≡ 21))
    × (verify_ownership (ownership c) true running_db ≡ ok running_job)
    × (round failing 0 5 7 arrived
        ≡ handled failing 0 7 c.owner_token
            (HandlerEnd.raised (failure "timeout"))
            (record { db = running_db; time = 5; stamp = some (c.dispatch_id, c.owner_token) }))
handler_owns_example =
    handler_owns failing 0 5 7 arrived first_claim running_db waiting_db-IsValid claiming_lem refl

retries : (run_claimed failing 7 arrived).0 ≡ some (Ending.returns Reason.retry_scheduled)
unfolding run_claimed rounds round after_claim by_outcome run_handler handled settle_round
    stamp_current_message context_of
retries = rw claiming_lem (rw retrying_lem refl)

run_claimed-IsScheduled_example :
    (n : ℕ) × (j : Job) × IsRequeued (failing.settling n) 7 (run_claimed failing 7 arrived).1.db j
run_claimed-IsScheduled_example = run_claimed-IsScheduled failing 7 arrived retries
