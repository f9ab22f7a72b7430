-- ===== src/Jobs/Execution/Budget.antt =====
-- The deferrals of `run_claimed` and their budget.
use app_template.Prelude.{
  ℕ, zero, suc, ◌+◌, ◌*◌, ◌-◌, ◌<◌, ◌≤◌, Bool, true, false, ◌||◌, Option, none, some, List, ◌≡◌,
  refl, arith, inl, inr, Bool-cases, is_some, ltb, leb,
}
use app_template.Models.Jobs.{Job}
use app_template.Models.Outbox.{OutboxEvent}
use app_template.Models.Errors.{stale_dispatch, Result, ok, err, ◌>>=◌}
use app_template.Database.{Db, Env, insert_attempt}
use app_template.Jobs.Policy.{ClaimResult, ClaimOutcome, is_terminal, max_attempts}
use app_template.Jobs.Lookup.{get_job_locked}
use app_template.Jobs.Claim.{
  claim_dispatch, claim_locked, live_lease, not_yet_due, defer_or, take_claim, claim_result,
  new_attempt, claiming, due_later,
}
use app_template.Jobs.Settle.{settle_retryable_failure, settle_locked}
use app_template.Jobs.Execution.{
  Surroundings, Run, RoundEnd, Ending, HandlerEnd, max_defer_wait, defer_total_budget, defer_margin,
  defer_round, settle_round, handled, run_handler, after_claim, by_outcome, round, rounds,
  run_claimed, or_again,
}

abbrev is_continuing : RoundEnd → Bool
is_continuing (RoundEnd.ends e) = false
is_continuing RoundEnd.continues = true

settle_round_ends :
    (env : Env) (k t : ℕ) (run : Run) (db : Db)
    → is_continuing (settle_round run (settle_retryable_failure env k t db)).0 ≡ false
unfolding settle_round settle_retryable_failure settle_locked
settle_round_ends env k t run db = ground arith

live_lease-later : (now until : ℕ) (job : Job) → live_lease now job ≡ some until → now < until
unfolding live_lease
live_lease-later now until job h = ground arith

not_yet_due-later :
    (now until : ℕ) (job : Job) (events : List OutboxEvent)
    → not_yet_due now job events ≡ some until
    → now < until
unfolding not_yet_due due_later
not_yet_due-later now until job events h = ground arith

-- A claim that defers names a time that is still to come.
abbrev DefersLater : ℕ → Result (ClaimResult × Db) → Type 0
DefersLater now (err e) = Unit
DefersLater now (ok (r, db)) = (until : ℕ) → r.deferred_until ≡ some until → now < until

defer_or-DefersLater :
    (now : ℕ) (job : Job) (db : Db) (o : Option ℕ) (rest : Result (ClaimResult × Db))
    → ((until : ℕ) → o ≡ some until → now < until)
    → DefersLater now rest
    → DefersLater now (defer_or job db o rest)
unfolding defer_or
defer_or-DefersLater now job db none rest h later = later
defer_or-DefersLater now job db (some t) rest h later = h

take_claim-DefersLater :
    (env : Env) (now : ℕ) (job : Job) (db : Db) → DefersLater now (take_claim env job db)
unfolding take_claim claim_result
take_claim-DefersLater env now job db =
    go (insert_attempt (new_attempt env job) (claiming env job db))
  where
    go : (o : Result Db) → DefersLater now (o >>= λ d. ok (claim_result env job, d))
    go (err e) = tt
    go (ok d) = λ until h. cc

claim_locked-DefersLater :
    (env : Env) (job : Job) (db : Db) → DefersLater env.now (claim_locked env job db)
unfolding claim_locked
claim_locked-DefersLater env job db = elim (Bool-cases (is_terminal job.status)) [
  | inl y ↦ rw y λ until h. cc
  | inr n ↦ rw n (
      defer_or-DefersLater env.now job db (live_lease env.now job) _
        (λ until. live_lease-later env.now until job)
        (defer_or-DefersLater env.now job db (not_yet_due env.now job db.events) _
          (λ until. not_yet_due-later env.now until job db.events)
          (elim (Bool-cases (leb max_attempts job.attempt_count)) [
            | inl y ↦ rw y λ until h. cc
            | inr n ↦ rw n (take_claim-DefersLater env env.now job db)
          ])))
]

claim_dispatch-DefersLater :
    (env : Env) (k : ℕ) (db : Db) → DefersLater env.now (claim_dispatch env k db)
unfolding claim_dispatch
claim_dispatch-DefersLater env k db = go (get_job_locked k db)
  where
    go : (o : Result Job) → DefersLater env.now (o >>= λ job. claim_locked env job db)
    go (err e) = tt
    go (ok job) = claim_locked-DefersLater env job db

-- A turn after which the loop goes on began within the budget and took the margin at least.
abbrev IsPaced : (started : ℕ) → Run → RoundEnd × Run → Type 0
IsPaced started run (end, next) =
    is_continuing end ≡ true
    → (run.time + defer_margin ≤ next.time) × (run.time ≤ started + defer_total_budget)

module _ (w : Surroundings) (sleeps : (n requested : ℕ) → requested ≤ w.sleep n requested) where
  defer_round-IsPaced :
      (n started k : ℕ) (o : Option ℕ) (run : Run)
      → ((until : ℕ) → o ≡ some until → run.time < until)
      → IsPaced started run (defer_round w n started k o run)
  unfolding defer_round
  defer_round-IsPaced n started k none run later = λ going. cc
  defer_round-IsPaced n started k (some until) run later =
      let now = run.time + w.claim_takes n in
      let slept = sleeps n (until + defer_margin - now) in
      let coming = later until refl in
      elim (Bool-cases
        (ltb max_defer_wait (until - now) || ltb defer_total_budget (now - started))) [
          | inl y ↦ rw y λ going. cc
          | inr n ↦ rw n λ going. (omega (arith, slept, coming), ground (arith, n))
        ]

handled_ends :
    (w : Surroundings) (n k t : ℕ) (end : HandlerEnd) (run : Run)
    → is_continuing (handled w n k t end run).0 ≡ false
unfolding handled
handled_ends w n k t HandlerEnd.returned run = refl
handled_ends w n k t (HandlerEnd.permanent code) run = refl
handled_ends w n k t (HandlerEnd.raised (stale_dispatch _ _ _)) run = refl
handled_ends w n k t (HandlerEnd.raised e) run = settle_round_ends (w.settling n) k t run run.db

run_handler_ends :
    (w : Surroundings) (n k : ℕ) (d t : Option ℕ) (job : Job) (run : Run)
    → is_continuing (run_handler w n k d t job run).0 ≡ false
unfolding run_handler
run_handler_ends w n k (some d) (some t) job run = handled_ends w n k t _ _
run_handler_ends w n k (some d) none job run = refl
run_handler_ends w n k none t job run = refl

module _ (w : Surroundings) (sleeps : (n requested : ℕ) → requested ≤ w.sleep n requested) where
  after_claim-IsPaced :
      (n started k : ℕ) (run : Run) (o : Result (ClaimResult × Db))
      → DefersLater run.time o
      → IsPaced started run (after_claim w n started k run o)
  unfolding after_claim
  after_claim-IsPaced n started k run (err e) later = λ going. cc
  after_claim-IsPaced n started k run (ok (r, db)) later = by_kind r.outcome
    where
      by_kind :
          (c : ClaimOutcome)
          → IsPaced started run (by_outcome w n started k c r (record run { db = db }))
      by_kind ClaimOutcome.stale = λ going. cc
      by_kind ClaimOutcome.exhausted = λ going. cc
      by_kind ClaimOutcome.deferred =
          defer_round-IsPaced w sleeps n started k r.deferred_until (record run { db = db }) later
      by_kind ClaimOutcome.claimed = λ going.
          let ended =
            run_handler_ends w n k r.dispatch_id r.owner_token r.job (record run { db = db }) in
          cc

  round-IsPaced : (n started k : ℕ) (run : Run) → IsPaced started run (round w n started k run)
  unfolding round
  round-IsPaced n started k run =
      after_claim-IsPaced n started k (record run { db = w.meanwhile n run.db }) _
        (claim_dispatch-DefersLater (record (w.claiming n) { now = run.time }) k
          (w.meanwhile n run.db))

  -- The rest of the loop is asked for only after a turn that goes on.
  or_again_ends :
      (started : ℕ) (run : Run) (r : RoundEnd × Run) (again : Run → Option Ending × Run)
      → IsPaced started run r
      → ((next : Run)
          → run.time + defer_margin ≤ next.time
          → run.time ≤ started + defer_total_budget
          → is_some (again next).0 ≡ true)
      → is_some (or_again r again).0 ≡ true
  or_again_ends started run (RoundEnd.ends e, next) again paced h = refl
  or_again_ends started run (RoundEnd.continues, next) again paced h =
      h next (paced refl).0 (paced refl).1

  rounds_end :
      (fuel n started k : ℕ) (run : Run)
      → started + defer_total_budget < run.time + defer_margin * fuel
      → is_some (rounds (suc fuel) w n started k run).0 ≡ true
  unfolding rounds
  rounds_end zero n started k run left =
      or_again_ends started run (round w n started k run) _ (round-IsPaced n started k run)
        λ next step within. absurd (omega (arith, left, within))
  rounds_end (suc fuel) n started k run left =
      or_again_ends started run (round w n started k run) _ (round-IsPaced n started k run)
        λ next step within. rounds_end fuel (suc n) started k next (omega (arith, left, step))

-- `run_claimed` ends: if a sleep lasts at least as long as requested, the loop has returned or
-- raised after at most 1202 turns, whatever the tables, the handler and the other processes are.
pub run_claimed_ends :
    (w : Surroundings) (k : ℕ) (run : Run)
    → ((n requested : ℕ) → requested ≤ w.sleep n requested)
    → is_some (run_claimed w k run).0 ≡ true
unfolding run_claimed
run_claimed_ends w k run sleeps = rounds_end w sleeps 1201 0 run.time k run (omega arith)
