-- ===== src/Notifications/Deliveries.antt =====
-- backend/app/modules/notifications/service.py: the transitions of a delivery.
use app_template.Prelude.{ℕ, ◌+◌, String, not, Option, none, some, str_eq, if◌then◌else◌}
use app_template.Models.Notifications.{
  NotificationDelivery, NotificationDeliveryStatus, is_delivery_terminal,
}
use app_template.Models.Audit.{delivery_failed}
use app_template.Models.Errors.{conflict, failure, Result, ok, raise_if, ◌>>=◌, ◌>>◌}
use app_template.Database.{Env, any}
use app_template.Database.App.{AppDb}
use app_template.Jobs.Policy.{JobOwnership}
use app_template.Notifications.Service.{
  acceptance_unknown, audited, delivery_error_codes, get_delivery_for_task, notification_event,
  put_delivery, verified,
}

-- The ownership and the row, before a transition.
unfoldable pub owned_delivery :
    (delivery_id : ℕ) → Option JobOwnership → AppDb → Result NotificationDelivery
unfolding verified get_delivery_for_task
owned_delivery k ownership db = do verified ownership db; get_delivery_for_task k db

abbrev pub write_delivery : NotificationDelivery → AppDb → AppDb
write_delivery d db = record db { deliveries = put_delivery d db.deliveries }

unfoldable pub mark_delivery_running :
    (delivery_id : ℕ) → Option JobOwnership → AppDb → Result (NotificationDelivery × AppDb)
unfolding owned_delivery
mark_delivery_running k ownership db = do
  d ← owned_delivery k ownership db
  raise_if (is_delivery_terminal d.status) (conflict "delivery_in_terminal_state")
  let row = record d {
    status = NotificationDeliveryStatus.running;
    attempt_count = d.attempt_count + 1;
  }
  ok (row, write_delivery row db)

unfoldable pub return_delivery_to_queue :
    (delivery_id : ℕ) → Option JobOwnership → AppDb → Result (NotificationDelivery × AppDb)
unfolding owned_delivery
return_delivery_to_queue k ownership db = do
  d ← owned_delivery k ownership db
  let row = record d { status = NotificationDeliveryStatus.queued }
  if is_delivery_terminal d.status then ok (d, db) else ok (row, write_delivery row db)

unfoldable pub mark_delivery_succeeded :
    Env
    → (delivery_id : ℕ) (provider_message_id : String) → Option JobOwnership
    → AppDb
    → Result (NotificationDelivery × AppDb)
unfolding owned_delivery
mark_delivery_succeeded env k message ownership db = do
  d ← owned_delivery k ownership db
  let row = record d {
    status = NotificationDeliveryStatus.succeeded;
    provider_message_id = some message;
    error_code = none;
    sent_at = some env.now;
  }
  ok (row, write_delivery row db)

-- A terminal failure of a delivery that is not terminal, with its audit row.
unfoldable pub settled_delivery :
    Env
    → NotificationDeliveryStatus
    → (action error_code : String) (organisation_id : ℕ) → NotificationDelivery
    → AppDb
    → NotificationDelivery × AppDb
settled_delivery env status action error_code o d db =
    let row = record d { status = status; error_code = some error_code } in
    if is_delivery_terminal d.status then (d, db) else (
      row,
      audited
          (notification_event env o none action d.notification_id
            (delivery_failed d.channel d.id error_code))
          (write_delivery row db),
    )

unfoldable pub mark_delivery_failed :
    Env
    → (delivery_id : ℕ) (error_code : String) (organisation_id : ℕ) → Option JobOwnership
    → AppDb
    → Result (NotificationDelivery × AppDb)
unfolding owned_delivery settled_delivery
mark_delivery_failed env k error_code o ownership db = do
  raise_if (not (any (λ c. str_eq c error_code) delivery_error_codes)) (failure "ValueError")
  d ← owned_delivery k ownership db
  ok (
      settled_delivery env NotificationDeliveryStatus.failed "notification.delivery_failed"
        error_code o d db)

unfoldable pub mark_delivery_attention_required :
    Env
    → (delivery_id organisation_id : ℕ) → Option JobOwnership
    → AppDb
    → Result (NotificationDelivery × AppDb)
unfolding owned_delivery settled_delivery
mark_delivery_attention_required env k o ownership db = do
  d ← owned_delivery k ownership db
  ok (
      settled_delivery env NotificationDeliveryStatus.attention_required
        "notification.delivery_attention_required" acceptance_unknown o d db)
