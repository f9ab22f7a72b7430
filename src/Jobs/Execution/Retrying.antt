-- ===== src/Jobs/Execution/Retrying.antt =====
-- What a scheduled retry of the wrapper leaves.
use app_template.Prelude.{
  ℕ, zero, suc, ◌+◌, ◌-◌, ◌<◌, ◌||◌, Option, none, some, ◌≡◌, refl, ltb, inl, inr, Bool-cases,
}
use app_template.Models.Jobs.{Job, JobStatus}
use app_template.Models.Errors.{stale_dispatch, Result, ok, err}
use app_template.Models.Outbox.{OutboxEvent, OutboxEventStatus}
use app_template.Database.{Db, Env, find_job, find_event}
use app_template.Outbox.Service.{dispatch_event, retry_dispatch_key}
use app_template.Jobs.Policy.{ClaimResult, ClaimOutcome, max_attempts, retry_delay}
use app_template.Jobs.Claim.{claim_dispatch}
use app_template.Jobs.Settle.{settle_retryable_failure, retry_row}
use app_template.Jobs.Retry.{IsScheduled, settle-IsScheduled, retry_due}
use app_template.Jobs.Execution.{
  Surroundings, Run, RoundEnd, HandlerEnd, Ending, Reason, defer_round, settle_round, handled,
  run_handler, by_outcome, after_claim, round, rounds, or_again, run_claimed, max_defer_wait,
  defer_total_budget,
}

abbrev scheduled : RoundEnd
scheduled = RoundEnd.ends (Ending.returns Reason.retry_scheduled)

settle_round-scheduled :
    (run : Run) (o : Result (Option JobStatus × Db))
    → (settle_round run o).0 ≡ scheduled
    → o ≡ ok (some JobStatus.queued, (settle_round run o).1.db)
unfolding settle_round
settle_round-scheduled run (ok (none, db)) h = cc
settle_round-scheduled run (ok (some JobStatus.queued, db)) h = refl
settle_round-scheduled run (ok (some JobStatus.failed, db)) h = cc
settle_round-scheduled run (ok (some _, db)) h = cc
settle_round-scheduled run (err (stale_dispatch k current captured)) h = cc
settle_round-scheduled run (err e) h = cc

module _ (w : Surroundings) (k : ℕ) where
  -- A turn that schedules a retry leaves the job behind its next dispatch.
  abbrev Schedules : ℕ → RoundEnd × Run → Type 0
  Schedules n r = r.0 ≡ scheduled → (j : Job) × IsScheduled (w.settling n) k r.1.db j

  handled-Schedules :
      (n t : ℕ) (end : HandlerEnd) (run : Run) → Schedules n (handled w n k t end run)
  unfolding handled
  handled-Schedules n t HandlerEnd.returned run = λ h. cc
  handled-Schedules n t (HandlerEnd.permanent code) run = λ h. cc
  handled-Schedules n t (HandlerEnd.raised (stale_dispatch _ _ _)) run = λ h. cc
  handled-Schedules n t (HandlerEnd.raised e) run = λ h.
      let o = settle_retryable_failure (w.settling n) k t run.db in
      let (j, found, waits) =
        settle-IsScheduled (w.settling n) k t run.db (settle_round run o).1.db
          (settle_round-scheduled run o h) in
      (j, waits)

  run_handler-Schedules :
      (n : ℕ) (d t : Option ℕ) (job : Job) (run : Run) → Schedules n (run_handler w n k d t job run)
  unfolding run_handler
  run_handler-Schedules n (some d) (some t) job run = handled-Schedules n t _ _
  run_handler-Schedules n (some d) none job run = λ h. cc
  run_handler-Schedules n none t job run = λ h. cc

  defer_round-Schedules :
      (n started : ℕ) (o : Option ℕ) (run : Run) → Schedules n (defer_round w n started k o run)
  unfolding defer_round
  defer_round-Schedules n started none run = λ h. cc
  defer_round-Schedules n started (some until) run =
      let now = run.time + w.claim_takes n in
      elim (Bool-cases
        (ltb max_defer_wait (until - now) || ltb defer_total_budget (now - started))) [
          | inl y ↦ rw y λ h. cc
          | inr f ↦ rw f λ h. cc
        ]

  after_claim-Schedules :
      (n started : ℕ) (run : Run) (o : Result (ClaimResult × Db))
      → Schedules n (after_claim w n started k run o)
  unfolding after_claim
  after_claim-Schedules n started run (err e) = λ h. cc
  after_claim-Schedules n started run (ok (r, db)) = by_kind r.outcome
    where
      by_kind :
          (c : ClaimOutcome) → Schedules n (by_outcome w n started k c r (record run { db = db }))
      by_kind ClaimOutcome.stale = λ h. cc
      by_kind ClaimOutcome.exhausted = λ h. cc
      by_kind ClaimOutcome.deferred =
          defer_round-Schedules n started r.deferred_until (record run { db = db })
      by_kind ClaimOutcome.claimed =
          run_handler-Schedules n r.dispatch_id r.owner_token r.job (record run { db = db })

  round-Schedules : (n started : ℕ) (run : Run) → Schedules n (round w n started k run)
  unfolding round
  round-Schedules n started run =
      after_claim-Schedules n started (record run { db = w.meanwhile n run.db })
        (claim_dispatch (record (w.claiming n) { now = run.time }) k (w.meanwhile n run.db))

  -- The loop schedules in one of its turns.
  abbrev Reschedules : Option Ending × Run → Type 0
  Reschedules r =
      r.0 ≡ some (Ending.returns Reason.retry_scheduled)
      → (n : ℕ) × (j : Job) × IsScheduled (w.settling n) k r.1.db j

  or_again-Reschedules :
      (n : ℕ) (r : RoundEnd × Run) (again : Run → Option Ending × Run)
      → Schedules n r
      → ((next : Run) → Reschedules (again next))
      → Reschedules (or_again r again)
  or_again-Reschedules n (RoundEnd.ends e, next) again here later =
      λ h. let (j, waits) = here cc in (n, j, waits)
  or_again-Reschedules n (RoundEnd.continues, next) again here later = later next

  rounds-Reschedules :
      (fuel n started : ℕ) (run : Run) → Reschedules (rounds fuel w n started k run)
  unfolding rounds
  rounds-Reschedules zero n started run = λ h. cc
  rounds-Reschedules (suc fuel) n started run =
      or_again-Reschedules n _ _ (round-Schedules n started run)
        λ next. rounds-Reschedules fuel (suc n) started next

-- Job `j` as a scheduled retry leaves it, and the event that it waits behind.
pub record IsRequeued (env : Env) (k : ℕ) (db' : Db) (j : Job) : Type 0 where
  pub row :
      find_job k db'.jobs
      ≡ some (record j {
        status = JobStatus.queued;
        dispatch_id = some env.new_dispatch;
        execution_lease_expires_at = none;
      })
  pub event : OutboxEvent
  pub written : find_event env.new_dispatch db'.events ≡ some event
  pub is_waiting : event.status ≡ OutboxEventStatus.pending
  pub due : event.available_at ≡ env.now + retry_delay j.attempt_count
  pub of_job : event.aggregate_id ≡ some j.id
  pub of_tenant : event.organisation_id ≡ some j.organisation_id
  pub room : j.attempt_count < max_attempts

IsScheduled-IsRequeued :
    (env : Env) (k : ℕ) (db' : Db) (j : Job) → IsScheduled env k db' j → IsRequeued env k db' j
unfolding retry_row dispatch_event
IsScheduled-IsRequeued env k db' j s = record {
  row = s.row;
  event =
      dispatch_event j.organisation_id j.id env.new_dispatch
        (some (retry_dispatch_key j.id j.attempt_count)) env.now (retry_due env j);
  written = s.event;
  is_waiting = refl;
  due = refl;
  of_job = refl;
  of_tenant = refl;
  room = s.room;
}

-- Where `run_claimed` reports a scheduled retry, the job that it leaves is queued, without a lease,
-- under a new dispatch, which is a pending event of that job and organisation that falls due after
-- the delay of its attempt, and it has attempts left.
pub run_claimed-IsScheduled :
    (w : Surroundings) (k : ℕ) (run : Run)
    → (run_claimed w k run).0 ≡ some (Ending.returns Reason.retry_scheduled)
    → (n : ℕ) × (j : Job) × IsRequeued (w.settling n) k (run_claimed w k run).1.db j
unfolding run_claimed
run_claimed-IsScheduled w k run h =
    let (n, j, waits) = rounds-Reschedules w k 1202 0 run.time run h in
    (n, j, IsScheduled-IsRequeued (w.settling n) k _ j waits)
