-- ===== src/Notifications/Once.antt =====
-- backend/app/modules/notifications/tasks.py: how often an email is handed to the provider.
use app_template.Prelude.{ℕ, ◌+◌, ◌≤◌, String, List, [], ◌∷◌, arith}
use app_template.Database.App.{AppDb}
use app_template.Jobs.Execution.{DurableJobContext}
use app_template.Notifications.Email.{EmailAttempt, EmailWorld, send_notification_email_attempt}
use app_template.Notifications.Queue.{queued_at, queued_at-bound}
use app_template.Notifications.Attempts.{attempt-Spends}
use app_template.Notifications.Sends.{requests, allowances, Spends}

-- One attempt after another. Between two attempts other processes commit.
pub record EmailRun : Type 0 where
  pub context : DurableJobContext
  pub world : EmailWorld
  pub before : AppDb → AppDb

abbrev pub attempt_of : (str : ℕ → String) → EmailRun → AppDb → EmailAttempt
attempt_of str r db = send_notification_email_attempt r.world str r.context (r.before db)

unfoldable pub requests_in : ℕ → (str : ℕ → String) → List EmailRun → AppDb → ℕ
requests_in k str [] db = 0
requests_in k str (r ∷ rs) db =
    requests k (r.world.parse r.context.input_reference) (attempt_of str r db)
    + requests_in k str rs (attempt_of str r db).db

unfoldable pub allowances_in : ℕ → List EmailRun → ℕ
allowances_in k [] = 0
allowances_in k (r ∷ rs) =
    allowances k (r.world.parse r.context.input_reference) r.world.answer + allowances_in k rs

-- No other process puts delivery `k` into the queue.
unfoldable pub LeavesQueue : ℕ → List EmailRun → Type 0
LeavesQueue k [] = Unit
LeavesQueue k (r ∷ rs) =
    ((n : ℕ) (x : AppDb)
      → queued_at k (r.world.meanwhile n x).deliveries ≤ queued_at k x.deliveries)
    × ((x : AppDb) → queued_at k (r.before x).deliveries ≤ queued_at k x.deliveries)
    × LeavesQueue k rs

requests_in-bound :
    (k : ℕ) (str : ℕ → String) (rs : List EmailRun) (db : AppDb)
    → LeavesQueue k rs
    → requests_in k str rs db ≤ queued_at k db.deliveries + allowances_in k rs
unfolding requests_in allowances_in LeavesQueue Spends
requests_in-bound k str [] db h = omega arith
requests_in-bound k str (r ∷ rs) db (quiet, calm, others) = omega (
  arith,
  attempt-Spends k r.world str r.context (r.before db) quiet,
  calm db,
  requests_in-bound k str rs (attempt_of str r db).db others,
)

-- The provider is asked to send one notification delivery at most once, plus once for each attempt
-- at it in whose world the provider answers with a transient refusal: over any sequence of attempts,
-- one after another, at this and at other deliveries, with any parser of identifiers and any
-- answers, and with any commits of other processes before each attempt, between its transactions
-- and while it awaits the answer that do not put the delivery back into the queue. The requests
-- that are counted are those of the attempts in the sequence.
pub email_is_sent_once :
    (k : ℕ) (str : ℕ → String) (rs : List EmailRun) (db : AppDb)
    → LeavesQueue k rs
    → requests_in k str rs db ≤ 1 + allowances_in k rs
email_is_sent_once k str rs db h =
    omega (arith, requests_in-bound k str rs db h, queued_at-bound k db.deliveries)
