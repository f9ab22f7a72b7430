-- ===== src/Jobs/Retry.antt =====
-- The durable retry: its delay, and the claim that it admits.
use app_template.Prelude.{
  ℕ, zero, suc, ◌+◌, ◌<◌, ◌≤◌, Bool, true, false, none, some, ◌==◌, ◌≡◌, refl, ◌∙◌, subst, arith,
  ==_refl, ltb, if◌then◌else◌,
}
use native.Mathlib.Nat.{one-le-pow, pow-le-pow_right}
use app_template.Models.Jobs.{Job, JobStatus}
use app_template.Models.Errors.{Result, ok}
use app_template.Database.{Db, Env, find_job, find_event, any}
use app_template.Outbox.Service.{dispatch_event, retry_dispatch_key}
use app_template.Outbox.Insertion.{create_dispatch_event-ok}
use app_template.Jobs.Policy.{is_terminal, max_attempts, retry_delay, deferred_result}
use app_template.Jobs.Claim.{
  claim_dispatch, claim_locked, take_claim, live_lease, not_yet_due, defer_or, claim_result,
}
use app_template.Jobs.Settle.{settle_retryable_failure, settle_locked, schedule_retry, retry_row}
use app_template.Jobs.Invariant.{IsValid, after, get_job_locked_lem, found_row, find-put_self}
use app_template.Jobs.Invariant.Working.{settle_retryable_failure-IsValid}
use app_template.Jobs.Ownership.{locked-ok}
use app_template.Jobs.Progress.{take_claim_ok}

-- From the first attempt on a retry waits at least a second and at most a minute, and a later
-- attempt never waits less.
pub retry_delay_bounds :
    (m n : ℕ)
    → 0 < m
    → m ≤ n
    → (1000 ≤ retry_delay m) × (retry_delay m ≤ retry_delay n) × (retry_delay n ≤ 60000)
unfolding retry_delay
retry_delay_bounds (suc m) (suc n) h le = omega (
  arith,
  one-le-pow m 2 (omega arith),
  pow-le-pow_right {n = 2} (omega arith) {i = m} {j = n} (omega arith),
)
retry_delay_bounds zero n h le = absurd (omega arith)
retry_delay_bounds (suc m) zero h le = absurd (omega arith)

-- The due time of the next dispatch.
abbrev pub retry_due : Env → Job → ℕ
retry_due env j = env.now + retry_delay j.attempt_count

settle_queued :
    (env : Env) (j : Job) (t : ℕ) (db db' : Db)
    → settle_locked env t j db ≡ ok (some JobStatus.queued, db')
    → (schedule_retry env j db ≡ ok db')
      × (j.status ≡ JobStatus.running)
      × (j.attempt_count < max_attempts)
unfolding settle_locked
settle_queued env j t db db' h = ground arith

schedule_retry-ok :
    (env : Env) (j : Job) (db db' : Db)
    → find_job j.id db.jobs ≡ some j
    → schedule_retry env j db ≡ ok db'
    → (find_job j.id db'.jobs ≡ some (retry_row env j))
      × (find_event env.new_dispatch db'.events
          ≡ some (
              dispatch_event j.organisation_id j.id env.new_dispatch
                (some (retry_dispatch_key j.id j.attempt_count))
                env.now
                (retry_due env j)))
unfolding schedule_retry
schedule_retry-ok env j db db' found h = rw (create_dispatch_event-ok _ _ _ _ _ _ _ db' h) (
  find-put_self j (retry_row env j) db.jobs found (unfold retry_row in refl),
  unfold dispatch_event in (rw (==_refl env.new_dispatch) refl),
)

-- A retry that was scheduled: the job is queued behind a new pending event of its own, which falls
-- due after the delay of its attempt, and it has attempts left.
pub record IsScheduled (env : Env) (k : ℕ) (db' : Db) (j : Job) : Type 0 where
  pub row : find_job k db'.jobs ≡ some (retry_row env j)
  pub event :
      find_event env.new_dispatch db'.events
      ≡ some (
          dispatch_event j.organisation_id j.id env.new_dispatch
            (some (retry_dispatch_key j.id j.attempt_count))
            env.now
            (retry_due env j))
  pub room : j.attempt_count < max_attempts

pub settle-IsScheduled :
    (env : Env) (k t : ℕ) (db db' : Db)
    → settle_retryable_failure env k t db ≡ ok (some JobStatus.queued, db')
    → (j : Job) × (find_job k db.jobs ≡ some j) × IsScheduled env k db' j
unfolding settle_retryable_failure
settle-IsScheduled env k t db db' h =
    let (j, here, named, run) = locked-ok k db (λ job. settle_locked env t job db) h in
    let (scheduled, running, room) = settle_queued env j t db db' run in
    let (row, event) = schedule_retry-ok env j db db' here scheduled in
    (
      j,
      subst (λ i. find_job i db.jobs ≡ some j) named here,
      record {
        row = subst (λ i. find_job i db'.jobs ≡ some (retry_row env j)) named row;
        event = event;
        room = room;
      },
    )

due_check :
    (env env₂ : Env) (k : ℕ) (db' : Db) (j : Job)
    → IsScheduled env k db' j
    → not_yet_due env₂.now (retry_row env j) db'.events
      ≡ (if ltb env₂.now (retry_due env j) then some (retry_due env j) else none)
unfolding not_yet_due retry_row
due_check env env₂ k db' j s = rw s.event (unfold dispatch_event in refl)

claim_of_retry :
    (env env₂ : Env) (j : Job) (db' : Db) (b : Bool)
    → j.attempt_count < max_attempts
    → not_yet_due env₂.now (retry_row env j) db'.events
      ≡ (if b then some (retry_due env j) else none)
    → claim_locked env₂ (retry_row env j) db' ≡ (
        if b
        then ok (deferred_result (retry_row env j) (retry_due env j), db')
        else take_claim env₂ (retry_row env j) db')
unfolding claim_locked defer_or is_terminal live_lease retry_row
claim_of_retry env env₂ j db' true room due = rw due refl
claim_of_retry env env₂ j db' false room due = rw due (ground (arith, room))

claim_of_scheduled :
    (env env₂ : Env) (k : ℕ) (db' : Db) (j : Job)
    → IsScheduled env k db' j
    → claim_dispatch env₂ k db' ≡ (
        if ltb env₂.now (retry_due env j)
        then ok (deferred_result (retry_row env j) (retry_due env j), db')
        else take_claim env₂ (retry_row env j) db')
unfolding claim_dispatch
claim_of_scheduled env env₂ k db' j s =
    rw (get_job_locked_lem k db')
      (rw s.row (claim_of_retry env env₂ j db' _ s.room (due_check env env₂ k db' j s)))

if_ok {ℓ} :
    {A : Type ℓ}
    → (b : Bool) (x y : A) (r : Result A) → r ≡ ok y
    → (if b then ok x else r) ≡ ok (if b then x else y)
if_ok true x y r h = refl
if_ok false x y r h = h

-- After a settlement that schedules a retry, on tables that the service wrote, a claim of that job
-- at any later point defers until the retry's due time and changes nothing, and from the due time
-- on takes the next attempt: it never raises and never finds the job busy, exhausted or stale.
pub retry_waits_until_due :
    (env env₂ : Env) (k t : ℕ) (db db' : Db)
    → IsValid db
    → settle_retryable_failure env k t db ≡ ok (some JobStatus.queued, db')
    → any (λ r. r.owner_token == env₂.new_owner) db'.attempts ≡ false
    → (j : Job) × (find_job k db.jobs ≡ some j)
      × (db'' : Db) × (claim_dispatch env₂ k db'
          ≡ ok (
              if ltb env₂.now (retry_due env j)
              then (deferred_result (retry_row env j) (retry_due env j), db')
              else (claim_result env₂ (retry_row env j), db'')))
retry_waits_until_due env env₂ k t db db' v h fresh =
    let (j, found, s) = settle-IsScheduled env k t db db' h in
    let v' : IsValid db' =
      subst (λ r. IsValid (after db r)) h (settle_retryable_failure-IsValid env k t db v) in
    let (db'', taken) =
      take_claim_ok env₂ (retry_row env j) db' v' (found_row k (retry_row env j) db' s.row) fresh in
    (
      j,
      found,
      db'',
      claim_of_scheduled env env₂ k db' j s ∙ if_ok (ltb env₂.now (retry_due env j)) _ _ _ taken,
    )
