-- ===== src/Jobs/Execution/Validity.antt =====
-- The agreement of jobs and attempt ledgers under the execution wrapper.
use app_template.Prelude.{ℕ, zero, suc, Option, none, some, arith}
use app_template.Models.Jobs.{Job, JobStatus}
use app_template.Models.Errors.{stale_dispatch, Result, ok, err}
use app_template.Database.{Db}
use app_template.Jobs.Policy.{ClaimResult, ClaimOutcome}
use app_template.Jobs.Claim.{claim_dispatch}
use app_template.Jobs.Settle.{settle_retryable_failure}
use app_template.Jobs.Invariant.{IsValid, after}
use app_template.Jobs.Invariant.Claiming.{claim_dispatch-IsValid}
use app_template.Jobs.Invariant.Working.{settle_retryable_failure-IsValid}
use app_template.Jobs.Execution.{
  DurableJobContext, Surroundings, Run, RoundEnd, HandlerEnd, Ending, defer_round, settle_round,
  handled, run_handler, context_of, by_outcome, after_claim, round, rounds, or_again, run_claimed,
}

settle_round-IsValid :
    (run : Run) (o : Result (Option JobStatus × Db))
    → IsValid run.db
    → IsValid (after run.db o)
    → IsValid (settle_round run o).1.db
unfolding settle_round
settle_round-IsValid run (ok (none, db)) v h = h
settle_round-IsValid run (ok (some JobStatus.queued, db)) v h = h
settle_round-IsValid run (ok (some JobStatus.failed, db)) v h = h
settle_round-IsValid run (ok (some _, db)) v h = h
settle_round-IsValid run (err (stale_dispatch k current captured)) v h = v
settle_round-IsValid run (err e) v h = v

module _ (w : Surroundings) (others : (n : ℕ) (db : Db) → IsValid db → IsValid (w.meanwhile n db))
    (handlers : (n : ℕ) (c : DurableJobContext) (db : Db)
      → IsValid db
      → IsValid (w.handler n c db).1) where
  handled-IsValid :
      (n k t : ℕ) (end : HandlerEnd) (run : Run)
      → IsValid run.db
      → IsValid (handled w n k t end run).1.db
  unfolding handled
  handled-IsValid n k t HandlerEnd.returned run v = v
  handled-IsValid n k t (HandlerEnd.permanent code) run v = v
  handled-IsValid n k t (HandlerEnd.raised (stale_dispatch _ _ _)) run v = v
  handled-IsValid n k t (HandlerEnd.raised e) run v =
      settle_round-IsValid run (settle_retryable_failure (w.settling n) k t run.db) v
        (settle_retryable_failure-IsValid (w.settling n) k t run.db v)

  run_handler-IsValid :
      (n k : ℕ) (d t : Option ℕ) (job : Job) (run : Run)
      → IsValid run.db
      → IsValid (run_handler w n k d t job run).1.db
  unfolding run_handler
  run_handler-IsValid n k (some d) (some t) job run v =
      handled-IsValid n k t _ _ (handlers n (context_of k d t job) run.db v)
  run_handler-IsValid n k (some d) none job run v = v
  run_handler-IsValid n k none t job run v = v

  defer_round-IsValid :
      (n started k : ℕ) (o : Option ℕ) (run : Run)
      → IsValid run.db
      → IsValid (defer_round w n started k o run).1.db
  unfolding defer_round
  defer_round-IsValid n started k none run v = v
  defer_round-IsValid n started k (some until) run v = ground (arith, v)

  after_claim-IsValid :
      (n started k : ℕ) (run : Run) (o : Result (ClaimResult × Db))
      → IsValid (after run.db o)
      → IsValid (after_claim w n started k run o).1.db
  unfolding after_claim
  after_claim-IsValid n started k run (err e) v = v
  after_claim-IsValid n started k run (ok (r, db)) v = by_kind r.outcome
    where
      by_kind :
          (c : ClaimOutcome) → IsValid (by_outcome w n started k c r (record run { db = db })).1.db
      by_kind ClaimOutcome.stale = v
      by_kind ClaimOutcome.exhausted = v
      by_kind ClaimOutcome.deferred =
          defer_round-IsValid n started k r.deferred_until (record run { db = db }) v
      by_kind ClaimOutcome.claimed =
          run_handler-IsValid n k r.dispatch_id r.owner_token r.job (record run { db = db }) v

  round-IsValid :
      (n started k : ℕ) (run : Run) → IsValid run.db → IsValid (round w n started k run).1.db
  unfolding round
  round-IsValid n started k run v =
      after_claim-IsValid n started k (record run { db = w.meanwhile n run.db })
        (claim_dispatch (record (w.claiming n) { now = run.time }) k (w.meanwhile n run.db))
        (claim_dispatch-IsValid (record (w.claiming n) { now = run.time }) k (w.meanwhile n run.db)
          (others n run.db v))

  or_again-IsValid :
      (r : RoundEnd × Run) (again : Run → Option Ending × Run)
      → IsValid r.1.db
      → ((next : Run) → IsValid next.db → IsValid (again next).1.db)
      → IsValid (or_again r again).1.db
  or_again-IsValid (RoundEnd.ends e, next) again v h = v
  or_again-IsValid (RoundEnd.continues, next) again v h = h next v

  rounds-IsValid :
      (fuel n started k : ℕ) (run : Run)
      → IsValid run.db
      → IsValid (rounds fuel w n started k run).1.db
  unfolding rounds
  rounds-IsValid zero n started k run v = v
  rounds-IsValid (suc fuel) n started k run v =
      or_again-IsValid _ _ (round-IsValid n started k run v)
        λ next w'. rounds-IsValid fuel (suc n) started k next w'

-- `run_claimed` keeps every job in agreement with its attempt ledger, however the handler ends, if
-- the handler and the other processes keep it.
pub run_claimed-IsValid :
    (w : Surroundings) (k : ℕ) (run : Run)
    → ((n : ℕ) (db : Db) → IsValid db → IsValid (w.meanwhile n db))
    → ((n : ℕ) (c : DurableJobContext) (db : Db) → IsValid db → IsValid (w.handler n c db).1)
    → IsValid run.db
    → IsValid (run_claimed w k run).1.db
unfolding run_claimed
run_claimed-IsValid w k run others handlers v =
    rounds-IsValid w others handlers 1202 0 run.time k run v
