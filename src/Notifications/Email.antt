-- ===== src/Notifications/Email.antt =====
-- backend/app/modules/notifications/tasks.py: one attempt of the email of a notification.
use app_template.Prelude.{
  ℕ, String, Bool, true, false, ◌||◌, not, Option, none, some, ◌==◌, str_eq, if◌then◌else◌,
}
use app_template.Models.Jobs.{Job}
use app_template.Models.Notifications.{
  Notification, NotificationDelivery, NotificationDeliveryStatus, is_delivery_terminal, is_sending,
}
use app_template.Models.Errors.{Error, not_found, failure, Result, ok, err, ◌>>=◌}
use app_template.Database.{Env}
use app_template.Database.App.{AppDb, Outcome}
use app_template.Jobs.Lookup.{verify_ownership}
use app_template.Jobs.Settle.{fail, succeed}
use app_template.Jobs.Execution.{DurableJobContext, HandlerEnd, ownership}
use app_template.Notifications.Service.{
  commit, in_core, get_delivery_for_task, get_notification_for_task, job_type_notification_email,
}
use app_template.Notifications.Deliveries.{
  mark_delivery_running, return_delivery_to_queue, mark_delivery_succeeded, mark_delivery_failed,
  mark_delivery_attention_required,
}

-- What the provider answers to a request to send.
pub data SendAnswer : Type 0 where
  accepted : (provider_message_id : String) → SendAnswer
  -- `TransientEmailSendError`, `AcceptanceUnknownEmailSendError`, `PermanentEmailSendError` and any
  -- other `EmailSendError`
  transient unknown rejected unclassified : SendAnswer
  -- another exception, or the loss of the worker before it records an answer
  lost : Error → SendAnswer

-- How an attempt ends, the tables that it leaves, and whether it asked the provider to send.
pub record EmailAttempt : Type 0 where
  pub end : HandlerEnd
  pub db : AppDb
  pub has_sent : Bool

-- The clocks and identifiers of the transactions, the parser of identifiers, the provider's answer,
-- and what other processes commit: `meanwhile 0` after the attempt has read its rows and before it
-- writes, `meanwhile 1` between the transaction that marks the delivery and the check before the
-- provider is called, `meanwhile 2` while the answer is awaited.
pub record EmailWorld : Type 0 where
  pub env : Env
  pub parse : String → Option ℕ
  pub answer : SendAnswer
  pub meanwhile : ℕ → AppDb → AppDb

abbrev pub ends : HandlerEnd → Bool → AppDb → EmailAttempt
ends end sent db = record { end = end; db = db; has_sent = sent }

-- A transaction that raises ends the attempt.
unfoldable pub or_raises {ℓ} :
    {A : Type ℓ} → Bool → Outcome A → (A → AppDb → EmailAttempt) → EmailAttempt
or_raises sent (err e, db) rest = ends (HandlerEnd.raised e) sent db
or_raises sent (ok a, db) rest = rest a db

unfoldable pub fail_job :
    Env → DurableJobContext → (error_code error_message : String) → AppDb → Result (Job × AppDb)
fail_job env c code message = in_core (fail env c.job_id code message (some c.owner_token))

unfoldable pub fail_invalid_context : Env → DurableJobContext → AppDb → EmailAttempt
unfolding or_raises fail_job
fail_invalid_context env c db =
    or_raises false
      (commit db (
        fail_job env c "invalid_notification_job_context"
          "The notification job references inconsistent tenant data." db))
      λ _. ends (HandlerEnd.permanent "the notification job context is invalid") false

-- The delivery and the job are settled in one transaction.
unfoldable pub settle_acceptance_unknown :
    Env → DurableJobContext → (delivery_id : ℕ) → Bool → AppDb → EmailAttempt
unfolding or_raises fail_job
settle_acceptance_unknown env c k sent db =
    or_raises sent
      (commit db (
        mark_delivery_attention_required env k c.organisation_id (some (ownership c)) db >>= λ made.
        fail_job env c "email_delivery_acceptance_unknown"
          "The notification email acceptance could not be determined." made.1))
      λ _. ends (HandlerEnd.permanent "the notification email requires operator attention") sent

unfoldable pub settle_rejected :
    Env → DurableJobContext → (delivery_id : ℕ) (error_code : String) → AppDb → EmailAttempt
unfolding or_raises fail_job
settle_rejected env c k code db =
    or_raises true
      (commit db (
        mark_delivery_failed env k code c.organisation_id (some (ownership c)) db >>= λ made.
        fail_job env c "email_delivery_failed" "The notification email could not be sent." made.1))
      λ _. ends (HandlerEnd.permanent "the notification email could not be sent") true

-- What follows the provider's answer.
unfoldable pub after_answer :
    Env → DurableJobContext → (delivery_id : ℕ) → SendAnswer → AppDb → EmailAttempt
unfolding or_raises settle_acceptance_unknown settle_rejected
after_answer env c k (SendAnswer.accepted message) db =
    or_raises true
      (commit db (
        mark_delivery_succeeded env k message (some (ownership c)) db >>= λ made.
        in_core (succeed env c.job_id (some message) (some c.owner_token)) made.1))
      λ _. ends HandlerEnd.returned true
after_answer env c k SendAnswer.transient db =
    or_raises true (commit db (return_delivery_to_queue k (some (ownership c)) db))
      λ _. ends (HandlerEnd.raised (failure "TransientEmailSendError")) true
after_answer env c k SendAnswer.unknown db = settle_acceptance_unknown env c k true db
after_answer env c k SendAnswer.rejected db = settle_rejected env c k "permanently_rejected" db
after_answer env c k SendAnswer.unclassified db =
    settle_rejected env c k "unclassified_provider_error" db
after_answer env c k (SendAnswer.lost e) db = ends (HandlerEnd.raised e) true db

-- The row is running and the credential is still current when the provider is called. The check
-- takes no lock: it is a transaction of its own.
unfoldable pub send : EmailWorld → DurableJobContext → NotificationDelivery → AppDb → EmailAttempt
unfolding or_raises after_answer
send w c d db =
    or_raises false (commit db (mark_delivery_running d.id (some (ownership c)) db)) λ _ db₁.
      let seen = w.meanwhile 1 db₁ in
      or_raises false
        (commit seen (verify_ownership (ownership c) false seen.core >>= λ j. ok (j, seen)))
        λ _ db₂. after_answer w.env c d.id w.answer (w.meanwhile 2 db₂)

abbrev pub message_or : Option String → String → String
message_or none other = other
message_or (some m) other = if str_eq m "" then other else m

-- A recovered job follows its delivery. `str` writes the delivery's identity.
unfoldable pub settle_job_for_terminal_delivery :
    Env
    → (str : ℕ → String) → DurableJobContext
    → NotificationDelivery
    → NotificationDeliveryStatus
    → AppDb
    → EmailAttempt
unfolding or_raises fail_job
settle_job_for_terminal_delivery env str c d NotificationDeliveryStatus.succeeded db =
    or_raises false
      (commit db (
        in_core
          (succeed env c.job_id (some (message_or d.provider_message_id (str d.delivery_identity)))
            (some c.owner_token))
          db))
      λ _. ends HandlerEnd.returned false
settle_job_for_terminal_delivery env str c d NotificationDeliveryStatus.attention_required db =
    or_raises false
      (commit db (
        fail_job env c "email_delivery_acceptance_unknown"
          "The notification email requires operator attention." db))
      λ _. ends (HandlerEnd.permanent "the notification delivery is already terminal") false
settle_job_for_terminal_delivery env str c d _ db =
    or_raises false
      (commit db
        (fail_job env c "email_delivery_failed" "The notification email could not be sent." db))
      λ _. ends (HandlerEnd.permanent "the notification delivery is already terminal") false

-- An attempt on the two rows that the job refers to, as it read them, and on the tables of now.
unfoldable pub attempt_delivery :
    EmailWorld
    → (str : ℕ → String) → DurableJobContext
    → (recipient_user_id : ℕ) → NotificationDelivery
    → Notification
    → AppDb
    → EmailAttempt
unfolding fail_invalid_context settle_job_for_terminal_delivery settle_acceptance_unknown send
attempt_delivery w str c u d n db =
    if not (n.organisation_id == c.organisation_id) || not (n.user_id == u)
    then fail_invalid_context w.env c db
    else if is_delivery_terminal d.status
    then settle_job_for_terminal_delivery w.env str c d d.status db
    else if is_sending d.status
    then settle_acceptance_unknown w.env c d.id false db
    else send w c d db

abbrev pub with_rows :
    EmailWorld
    → DurableJobContext
    → AppDb
    → Result (NotificationDelivery × Notification)
    → (NotificationDelivery → Notification → EmailAttempt)
    → EmailAttempt
with_rows w c db (ok (d, n)) rest = rest d n
with_rows w c db (err (not_found m)) rest = fail_invalid_context w.env c (w.meanwhile 0 db)
with_rows w c db (err e) rest = ends (HandlerEnd.raised e) false db

-- An identifier that is no UUID raises `ValueError`.
abbrev pub with_id : AppDb → Option ℕ → (ℕ → EmailAttempt) → EmailAttempt
with_id db none rest = ends (HandlerEnd.raised (failure "ValueError")) false db
with_id db (some k) rest = rest k

abbrev pub with_recipient :
    EmailWorld → DurableJobContext → AppDb → Option ℕ → (ℕ → EmailAttempt) → EmailAttempt
with_recipient w c db none rest = fail_invalid_context w.env c db
with_recipient w c db (some u) rest = rest u

-- `_send_notification_email_attempt`
unfoldable pub send_notification_email_attempt :
    EmailWorld → (str : ℕ → String) → DurableJobContext → AppDb → EmailAttempt
unfolding fail_invalid_context attempt_delivery get_delivery_for_task get_notification_for_task
send_notification_email_attempt w str c db =
    if not (str_eq c.job_type job_type_notification_email)
    then fail_invalid_context w.env c db
    else with_recipient w c db c.created_by_user_id λ u. with_id db (w.parse c.input_reference) λ k.
      with_rows w c db
        (get_delivery_for_task k db >>= λ d.
          get_notification_for_task d.notification_id db >>= λ n. ok (d, n))
        λ d n. attempt_delivery w str c u d n (w.meanwhile 0 db)
