-- ===== src/Jobs/Execution.antt =====
-- backend/app/modules/jobs/execution.py: the wrapper in which every actor runs its handler. Times
-- are milliseconds on one clock.
use app_template.Prelude.{
  ℕ, zero, suc, ◌+◌, ◌-◌, String, Bool, true, false, ◌||◌, Option, none, some, ltb, if◌then◌else◌,
}
use app_template.Models.Jobs.{Job, JobStatus}
use app_template.Models.Errors.{Error, stale_dispatch, failure, Result, ok, err}
use app_template.Database.{Db, Env}
use app_template.Jobs.Policy.{ClaimResult, ClaimOutcome, JobOwnership}
use app_template.Jobs.Claim.{claim_dispatch}
use app_template.Jobs.Settle.{settle_retryable_failure}
pub mod Budget
pub mod Validity
pub mod Delivery
pub mod Retrying
pub mod Examples

abbrev pub max_defer_wait : ℕ
max_defer_wait = 30000

abbrev pub defer_total_budget : ℕ
defer_total_budget = 120000

abbrev pub defer_margin : ℕ
defer_margin = 100

pub record DurableJobContext : Type 0 where
  pub job_id : ℕ
  pub organisation_id : ℕ
  pub job_type : String
  pub input_reference : String
  pub created_by_user_id : Option ℕ
  pub dispatch_id : ℕ
  pub owner_token : ℕ

unfoldable pub ownership : DurableJobContext → JobOwnership
ownership context = record {
  job_id = context.job_id;
  owner_token = context.owner_token;
  organisation_id = context.organisation_id;
}

-- How a handler ends: it returns, it raises `JobPermanentError`, or it raises something else.
pub data HandlerEnd : Type 0 where
  returned : HandlerEnd
  permanent : String → HandlerEnd
  raised : Error → HandlerEnd

-- The reason of the line that is logged last.
pub data Reason : Type 0 where
  terminal_state global_attempt_limit completed dispatch_superseded : Reason
  retry_scheduled exhausted already_terminal retry_settlement_superseded : Reason

pub data Ending : Type 0 where
  returns : Reason → Ending
  raises_deferred : (job_id deferred_until : ℕ) → Ending
  raises_permanent : String → Ending
  raises : Error → Ending

-- What `run_claimed` works on: the tables, the clock and the stamp of the current broker message.
pub record Run : Type 0 where
  pub db : Db
  pub time : ℕ
  pub stamp : Option (ℕ × ℕ)

-- What each round meets: the identifiers and settings of its claim and of its settlement, how long
-- the claim takes, how long a sleep lasts, what other processes commit before the claim, and the
-- handler with the tables as it and the others leave them.
pub record Surroundings : Type 0 where
  pub has_message : Bool
  pub claiming : ℕ → Env
  pub settling : ℕ → Env
  pub claim_takes : ℕ → ℕ
  pub sleep : (n requested : ℕ) → ℕ
  pub meanwhile : ℕ → Db → Db
  pub handler : ℕ → DurableJobContext → Db → HandlerEnd × Db

pub data RoundEnd : Type 0 where
  ends : Ending → RoundEnd
  continues : RoundEnd

unfoldable pub stamp_current_message : Bool → (dispatch_id owner_token : ℕ) → Run → Run
stamp_current_message true d t run = record run { stamp = some (d, t) }
stamp_current_message false d t run = run

unfoldable pub context_of : (job_id dispatch_id owner_token : ℕ) → Job → DurableJobContext
context_of k d t job = record {
  job_id = k;
  organisation_id = job.organisation_id;
  job_type = job.job_type;
  input_reference = job.input_reference;
  created_by_user_id = job.created_by_user_id;
  dispatch_id = d;
  owner_token = t;
}

-- A short remaining lease is waited out; a long one, or a spent budget, raises.
unfoldable pub defer_round : Surroundings → (n started job_id : ℕ) → Option ℕ → Run → RoundEnd × Run
defer_round w n started k none run = (RoundEnd.ends (Ending.raises (failure "AssertionError")), run)
defer_round w n started k (some until) run =
    let now = run.time + w.claim_takes n in
    if ltb max_defer_wait (until - now) || ltb defer_total_budget (now - started)
    then (RoundEnd.ends (Ending.raises_deferred k until), record run { time = now })
    else (RoundEnd.continues, record run { time = now + w.sleep n (until + defer_margin - now) })

-- The decision on a transient failure. The loop goes on after a decision that is none of the three.
unfoldable pub settle_round : Run → Result (Option JobStatus × Db) → RoundEnd × Run
settle_round run (ok (none, db)) =
    (RoundEnd.ends (Ending.returns Reason.already_terminal), record run { db = db })
settle_round run (ok (some JobStatus.queued, db)) =
    (RoundEnd.ends (Ending.returns Reason.retry_scheduled), record run { db = db })
settle_round run (ok (some JobStatus.failed, db)) =
    (RoundEnd.ends (Ending.returns Reason.exhausted), record run { db = db })
settle_round run (ok (some _, db)) = (RoundEnd.continues, record run { db = db })
settle_round run (err (stale_dispatch k current captured)) =
    (RoundEnd.ends (Ending.returns Reason.retry_settlement_superseded), run)
settle_round run (err e) = (RoundEnd.ends (Ending.raises e), run)

unfoldable pub handled :
    Surroundings → (n job_id owner_token : ℕ) → HandlerEnd → Run → RoundEnd × Run
unfolding settle_round
handled w n k t HandlerEnd.returned run = (RoundEnd.ends (Ending.returns Reason.completed), run)
handled w n k t (HandlerEnd.permanent code) run =
    (RoundEnd.ends (Ending.raises_permanent code), run)
handled w n k t (HandlerEnd.raised (stale_dispatch _ _ _)) run =
    (RoundEnd.ends (Ending.returns Reason.dispatch_superseded), run)
handled w n k t (HandlerEnd.raised e) run =
    settle_round run (settle_retryable_failure (w.settling n) k t run.db)

unfoldable pub run_handler :
    Surroundings → (n job_id : ℕ) → Option ℕ → Option ℕ → Job → Run → RoundEnd × Run
unfolding stamp_current_message context_of handled
run_handler w n k (some d) (some t) job run =
    let (end, db) = w.handler n (context_of k d t job) run.db in
    handled w n k t end (record (stamp_current_message w.has_message d t run) { db = db })
run_handler w n k _ _ job run = (RoundEnd.ends (Ending.raises (failure "AssertionError")), run)

unfoldable pub by_outcome :
    Surroundings → (n started job_id : ℕ) → ClaimOutcome → ClaimResult → Run → RoundEnd × Run
by_outcome w n started k ClaimOutcome.stale result run =
    (RoundEnd.ends (Ending.returns Reason.terminal_state), run)
by_outcome w n started k ClaimOutcome.exhausted result run =
    (RoundEnd.ends (Ending.returns Reason.global_attempt_limit), run)
by_outcome w n started k ClaimOutcome.deferred result run =
    defer_round w n started k result.deferred_until run
by_outcome w n started k ClaimOutcome.claimed result run =
    run_handler w n k result.dispatch_id result.owner_token result.job run

unfoldable pub after_claim :
    Surroundings → (n started job_id : ℕ) → Run → Result (ClaimResult × Db) → RoundEnd × Run
unfolding by_outcome
after_claim w n started k run (err e) = (RoundEnd.ends (Ending.raises e), run)
after_claim w n started k run (ok (result, db)) =
    by_outcome w n started k result.outcome result (record run { db = db })

-- One turn of the loop.
unfoldable pub round : Surroundings → (n started job_id : ℕ) → Run → RoundEnd × Run
unfolding after_claim
round w n started k run =
    let met = record run { db = w.meanwhile n run.db } in
    after_claim w n started k met
      (claim_dispatch (record (w.claiming n) { now = run.time }) k met.db)

abbrev pub or_again : RoundEnd × Run → (Run → Option Ending × Run) → Option Ending × Run
or_again (RoundEnd.ends e, run) again = (some e, run)
or_again (RoundEnd.continues, run) again = again run

-- The loop with a bound on its turns; `none` when the bound is met.
unfoldable pub rounds :
    (fuel : ℕ) → Surroundings → (n started job_id : ℕ) → Run → Option Ending × Run
unfolding round
rounds zero w n started k run = (none, run)
rounds (suc fuel) w n started k run =
    or_again (round w n started k run) λ next. rounds fuel w (suc n) started k next

-- The turns that the budget of the deferrals allows.
unfoldable pub run_claimed : Surroundings → (job_id : ℕ) → Run → Option Ending × Run
run_claimed w k run = rounds 1202 w 0 run.time k run
