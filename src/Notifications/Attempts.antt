-- ===== src/Notifications/Attempts.antt =====
-- backend/app/modules/notifications/tasks.py: the queue before and after an attempt.
use app_template.Prelude.{
  ℕ, ◌≤◌, String, Bool, true, false, Option, none, some, ◌≡◌, refl, ◌∙◌, ap, subst, arith,
  if◌then◌else◌,
}
use app_template.Models.Notifications.{
  Notification, NotificationDelivery, NotificationDeliveryStatus, is_delivery_terminal, is_sending,
}
use app_template.Models.Errors.{not_found, failure, Result, ok, err, bind-ok, or_raise-ok, ◌>>=◌}
use app_template.Database.App.{AppDb}
use app_template.Jobs.Execution.{DurableJobContext, HandlerEnd}
use app_template.Notifications.Service.{
  find_delivery, get_delivery_for_task, get_notification_for_task,
}
use app_template.Notifications.Email.{
  SendAnswer, EmailAttempt, EmailWorld, ends, fail_invalid_context, settle_acceptance_unknown, send,
  settle_job_for_terminal_delivery, attempt_delivery, with_rows, with_id, with_recipient,
  send_notification_email_attempt,
}
use app_template.Notifications.Queue.{queued_at, ok_inj, find_delivery-id}
use app_template.Notifications.Endings.{
  Ends, fail_invalid_context-Ends, settle_acceptance_unknown-Ends, settle_job-Ends,
}
use app_template.Notifications.Sends.{Spends, ends-Spends, send-Spends}

idle-Spends :
    (k : ℕ) (target : Option ℕ) (answer : SendAnswer) (db : AppDb) (a : EmailAttempt)
    → Ends k (queued_at k db.deliveries) false a
    → Spends k target answer db a
idle-Spends k target answer db a (quiet, within) = ends-Spends k target answer db a quiet within

pub if_holds {ℓ} :
    {A : Type ℓ} (P : A → Type 0) (b : Bool) (x y : A)
    → ((b ≡ true) → P x)
    → ((b ≡ false) → P y)
    → P (if b then x else y)
if_holds P true x y h g = h refl
if_holds P false x y h g = g refl

is_waiting :
    (s : NotificationDeliveryStatus)
    → is_delivery_terminal s ≡ false
    → is_sending s ≡ false
    → s ≡ NotificationDeliveryStatus.queued
is_waiting NotificationDeliveryStatus.queued h g = refl
is_waiting NotificationDeliveryStatus.running h g = cc
is_waiting NotificationDeliveryStatus.succeeded h g = cc
is_waiting NotificationDeliveryStatus.failed h g = cc
is_waiting NotificationDeliveryStatus.attention_required h g = cc

attempt_delivery-Spends :
    (k : ℕ) (w : EmailWorld) (str : ℕ → String) (c : DurableJobContext) (u : ℕ)
    (d : NotificationDelivery) (n : Notification) (read db : AppDb)
    → ((n : ℕ) (x : AppDb) → queued_at k (w.meanwhile n x).deliveries ≤ queued_at k x.deliveries)
    → queued_at k db.deliveries ≤ queued_at k read.deliveries
    → find_delivery d.id read.deliveries ≡ some d
    → Spends k (some d.id) w.answer read (attempt_delivery w str c u d n db)
unfolding attempt_delivery
attempt_delivery-Spends k w str c u d n read db quiet less found =
    let P = Spends k (some d.id) w.answer read in
    let bound = queued_at k read.deliveries in
    let idle = idle-Spends k (some d.id) w.answer read in
    if_holds P _ (fail_invalid_context w.env c db) _
      (λ _. idle _ (fail_invalid_context-Ends k bound w.env c db less))
      λ _.
        if_holds P _ (settle_job_for_terminal_delivery w.env str c d d.status db) _
          (λ _. idle _ (settle_job-Ends k bound w.env str c d d.status db less))
          λ open_row.
            if_holds P _ (settle_acceptance_unknown w.env c d.id false db) (send w c d db)
              (λ _. idle _ (settle_acceptance_unknown-Ends k bound w.env c d.id false db less))
              λ idle_row.
                send-Spends k w c d read db quiet less found (is_waiting d.status open_row idle_row)

invalid-Spends :
    (k : ℕ) (target : Option ℕ) (w : EmailWorld) (c : DurableJobContext) (read db : AppDb)
    → queued_at k db.deliveries ≤ queued_at k read.deliveries
    → Spends k target w.answer read (fail_invalid_context w.env c db)
invalid-Spends k target w c read db less =
    idle-Spends k target w.answer read _
      (fail_invalid_context-Ends k (queued_at k read.deliveries) w.env c db less)

with_rows-Spends :
    (k : ℕ) (w : EmailWorld) (str : ℕ → String) (c : DurableJobContext) (u j : ℕ) (db : AppDb)
    (r : Result (NotificationDelivery × Notification))
    → ((n : ℕ) (x : AppDb) → queued_at k (w.meanwhile n x).deliveries ≤ queued_at k x.deliveries)
    → ((rows : NotificationDelivery × Notification)
        → r ≡ ok rows
        → find_delivery j db.deliveries ≡ some rows.0)
    → Spends k
        (some j)
        w.answer
        db
        (with_rows w c db r λ d n. attempt_delivery w str c u d n (w.meanwhile 0 db))
with_rows-Spends k w str c u j db (ok (d, n)) quiet found =
    let read = found (d, n) refl in
    let same = find_delivery-id j d db.deliveries read in
    subst (λ x. Spends k (some x) w.answer db (attempt_delivery w str c u d n (w.meanwhile 0 db)))
      same
      (attempt_delivery-Spends k w str c u d n db (w.meanwhile 0 db) quiet (quiet 0 db)
        (ap (λ x. find_delivery x db.deliveries) same ∙ read))
with_rows-Spends k w str c u j db (err (not_found m)) quiet found =
    invalid-Spends k (some j) w c db (w.meanwhile 0 db) (quiet 0 db)
with_rows-Spends k w str c u j db (err e) quiet found =
    ends-Spends k (some j) w.answer db (ends (HandlerEnd.raised e) false db) refl (omega arith)

-- The rows that the job refers to.
abbrev pub rows_of : ℕ → AppDb → Result (NotificationDelivery × Notification)
rows_of j db = get_delivery_for_task j db >>= λ d.
    get_notification_for_task d.notification_id db >>= λ n. ok (d, n)

pub rows_of-found :
    (j : ℕ) (db : AppDb) (rows : NotificationDelivery × Notification)
    → rows_of j db ≡ ok rows
    → find_delivery j db.deliveries ≡ some rows.0
unfolding get_delivery_for_task
rows_of-found j db rows h =
    let (d, read, then_read) = bind-ok (get_delivery_for_task j db) _ h in
    let (n, other, out) = bind-ok (get_notification_for_task d.notification_id db) _ then_read in
    or_raise-ok _ (find_delivery j db.deliveries) read ∙ ap (λ r. some r.0) (ok_inj (d, n) rows out)

with_id-Spends :
    (k : ℕ) (w : EmailWorld) (str : ℕ → String) (c : DurableJobContext) (u : ℕ) (target : Option ℕ)
    (db : AppDb)
    → ((n : ℕ) (x : AppDb) → queued_at k (w.meanwhile n x).deliveries ≤ queued_at k x.deliveries)
    → Spends k target w.answer db (
        with_id db target λ j.
          with_rows w c db (rows_of j db) λ d n. attempt_delivery w str c u d n (w.meanwhile 0 db))
with_id-Spends k w str c u none db quiet =
    ends-Spends k none w.answer db (ends (HandlerEnd.raised (failure "ValueError")) false db) refl
      (omega arith)
with_id-Spends k w str c u (some j) db quiet =
    with_rows-Spends k w str c u j db (rows_of j db) quiet (rows_of-found j db)

with_recipient-Spends :
    (k : ℕ) (w : EmailWorld) (c : DurableJobContext) (user : Option ℕ) (db : AppDb)
    (rest : ℕ → EmailAttempt)
    → ((u : ℕ) → Spends k (w.parse c.input_reference) w.answer db (rest u))
    → Spends k (w.parse c.input_reference) w.answer db (with_recipient w c db user rest)
with_recipient-Spends k w c none db rest h =
    invalid-Spends k (w.parse c.input_reference) w c db db (omega arith)
with_recipient-Spends k w c (some u) db rest h = h u

pub attempt-Spends :
    (k : ℕ) (w : EmailWorld) (str : ℕ → String) (c : DurableJobContext) (db : AppDb)
    → ((n : ℕ) (x : AppDb) → queued_at k (w.meanwhile n x).deliveries ≤ queued_at k x.deliveries)
    → Spends k (w.parse c.input_reference) w.answer db (send_notification_email_attempt w str c db)
unfolding send_notification_email_attempt
attempt-Spends k w str c db quiet =
    let target = w.parse c.input_reference in
    if_holds (Spends k target w.answer db) _ (fail_invalid_context w.env c db) _
      (λ _. invalid-Spends k target w c db db (omega arith))
      λ _.
        with_recipient-Spends k w c c.created_by_user_id db _
          λ u. with_id-Spends k w str c u target db quiet
