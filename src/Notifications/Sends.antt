-- ===== src/Notifications/Sends.antt =====
-- backend/app/modules/notifications/tasks.py: the queue around a request to send.
use app_template.Prelude.{
  ℕ, ◌+◌, ◌≤◌, Bool, true, false, ◌&&◌, Option, none, some, List, ◌==◌, ◌≡◌, refl, ◌∙◌, ap, arith,
  inl, inr, Bool-cases, if◌then◌else◌, ==→eq,
}
use app_template.Models.Notifications.{NotificationDelivery, NotificationDeliveryStatus}
use app_template.Models.Errors.{Error, Result, ok, err}
use app_template.Database.App.{AppDb}
use app_template.Jobs.Policy.{JobOwnership}
use app_template.Jobs.Execution.{DurableJobContext, HandlerEnd, ownership}
use app_template.Notifications.Service.{commit, find_delivery}
use app_template.Notifications.Deliveries.{mark_delivery_running}
use app_template.Notifications.Email.{
  SendAnswer, EmailAttempt, EmailWorld, ends, or_raises, after_answer, send,
}
use app_template.Notifications.Queue.{
  queued_at, queued_row, is_queued_status, Within, Yields, Yields-bind, Yields-ok, running-Yields,
}
use app_template.Notifications.Endings.{is_transient, after_answer-Ends}

-- A transaction that the attempt continues from.
pub committed_lem {ℓ} :
    {A : Type ℓ} (P : EmailAttempt → Type 0) (sent : Bool) (db : AppDb) (r : Result (A × AppDb))
    (rest : A → AppDb → EmailAttempt)
    → ((e : Error) → P (ends (HandlerEnd.raised e) sent db))
    → ((made : A × AppDb) → r ≡ ok made → P (rest made.0 made.1))
    → P (or_raises sent (commit db r) rest)
unfolding or_raises
committed_lem P sent db (err e) rest stopped goes = stopped e
committed_lem P sent db (ok made) rest stopped goes = goes made refl

abbrev pub when : Bool → ℕ
when true = 1
when false = 0

-- Which delivery an attempt is at.
abbrev pub is_for : ℕ → Option ℕ → Bool
is_for k none = false
is_for k (some j) = k == j

-- The requests to send delivery `k` in an attempt, and those that the provider's answer allows
-- again.
abbrev pub requests : (k : ℕ) (target : Option ℕ) → EmailAttempt → ℕ
requests k target a = when (is_for k target && a.has_sent)

abbrev pub allowances : (k : ℕ) (target : Option ℕ) → SendAnswer → ℕ
allowances k target answer = when (is_for k target && is_transient answer)

-- An attempt takes a delivery out of the queue before it asks the provider.
unfoldable pub Spends : (k : ℕ) (target : Option ℕ) → SendAnswer → AppDb → EmailAttempt → Type 0
Spends k target answer db a =
    requests k target a + queued_at k a.db.deliveries
    ≤ queued_at k db.deliveries + allowances k target answer

pub ends-Spends :
    (k : ℕ) (target : Option ℕ) (answer : SendAnswer) (db : AppDb) (a : EmailAttempt)
    → a.has_sent ≡ false
    → queued_at k a.db.deliveries ≤ queued_at k db.deliveries
    → Spends k target answer db a
unfolding Spends
ends-Spends k target answer db a quiet within = ground arith

-- A delivery that is read in the queue counts.
waits_lem :
    (k : ℕ) (d : NotificationDelivery) (ds : List NotificationDelivery)
    → find_delivery d.id ds ≡ some d
    → d.status ≡ NotificationDeliveryStatus.queued
    → when (k == d.id) ≤ queued_at k ds
waits_lem k d ds found waits = elim (Bool-cases (k == d.id)) [
  | inl y ↦
      let read =
        ap queued_row (ap (λ x. find_delivery x ds) (==→eq k d.id y) ∙ found)
        ∙ ap is_queued_status waits in
      rw y (rw read (omega arith))
  | inr n ↦ rw n (omega arith)
]

-- What the queue may hold of delivery `k` once delivery `j` runs.
abbrev left_of : (k j : ℕ) → List NotificationDelivery → ℕ
left_of k j ds = if k == j then 0 else queued_at k ds

running_left :
    (k j : ℕ) (o : Option JobOwnership) (read db : AppDb)
    → queued_at k db.deliveries ≤ queued_at k read.deliveries
    → Yields (Within k (left_of k j read.deliveries)) (mark_delivery_running j o db)
running_left k j o read db less =
    running-Yields k (left_of k j read.deliveries) j o db λ n. rw n less

left_less : (same : Bool) (n before : ℕ) → n ≤ (if same then 0 else before) → n ≤ before
left_less true n before h = omega (arith, h)
left_less false n before h = h

room_for : (same again : Bool) (n : ℕ) → again ≡ true → same ≡ true → 1 ≤ n + when (same && again)
room_for same again n h y = rw y (rw h (omega arith))

spent_less :
    (same asked again : Bool) (n before : ℕ)
    → when same ≤ before
    → n ≤ (if same then 0 else before) + when (same && again)
    → when (same && asked) + n ≤ before + when (same && again)
spent_less true true again n before waits h = omega (arith, waits, h)
spent_less true false again n before waits h = omega (arith, waits, h)
spent_less false asked again n before waits h = omega (arith, h)

-- The provider is asked for a delivery that has left the queue.
answered-Spends :
    (k : ℕ) (w : EmailWorld) (c : DurableJobContext) (j : ℕ) (db reached : AppDb)
    → ((n : ℕ) (x : AppDb) → queued_at k (w.meanwhile n x).deliveries ≤ queued_at k x.deliveries)
    → when (k == j) ≤ queued_at k db.deliveries
    → Within k (left_of k j db.deliveries) reached.deliveries
    → Spends k (some j) w.answer db (after_answer w.env c j w.answer (w.meanwhile 2 reached))
unfolding Spends
answered-Spends k w c j db reached quiet waits left =
    let before = quiet 2 reached in
    let bound = left_of k j db.deliveries + allowances k (some j) w.answer in
    let (asked, after) =
      after_answer-Ends k bound w.env c j w.answer (w.meanwhile 2 reached)
        (omega (arith, before, left)) (λ t y. room_for (k == j) (is_transient w.answer) _ t y) in
    spent_less (k == j) _ (is_transient w.answer) _ _ waits after

-- The attempt read the delivery in the tables `read`, and marks it in the tables `db`.
pub send-Spends :
    (k : ℕ) (w : EmailWorld) (c : DurableJobContext) (d : NotificationDelivery) (read db : AppDb)
    → ((n : ℕ) (x : AppDb) → queued_at k (w.meanwhile n x).deliveries ≤ queued_at k x.deliveries)
    → queued_at k db.deliveries ≤ queued_at k read.deliveries
    → find_delivery d.id read.deliveries ≡ some d
    → d.status ≡ NotificationDeliveryStatus.queued
    → Spends k (some d.id) w.answer read (send w c d db)
unfolding send Yields
send-Spends k w c d read db quiet less found waits =
    committed_lem (Spends k (some d.id) w.answer read) false db _ _
      (λ e. ends-Spends k (some d.id) w.answer read (ends (HandlerEnd.raised e) false db) refl less)
      λ made ran.
        let left = running_left k d.id (some (ownership c)) read db less made ran in
        let seen = w.meanwhile 1 made.1 in
        let calm = quiet 1 made.1 in
        let still : Within k (left_of k d.id read.deliveries) seen.deliveries =
          omega (arith, left, calm) in
        committed_lem (Spends k (some d.id) w.answer read) false seen _ _
          (λ e.
            ends-Spends k (some d.id) w.answer read (ends (HandlerEnd.raised e) false seen) refl
              (left_less (k == d.id) _ _ still))
          λ made₂ checked.
            answered-Spends k w c d.id read made₂.1 quiet
              (waits_lem k d read.deliveries found waits)
              (Yields-bind (Within k (left_of k d.id read.deliveries)) _ _
                (λ j ran_check. Yields-ok _ j seen still) made₂ checked)
