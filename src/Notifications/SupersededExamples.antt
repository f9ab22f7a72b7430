-- ===== src/Notifications/SupersededExamples.antt =====
-- An attempt at an email under the token 20, whose job has been claimed under the token 21.
use app_template.Prelude.{false, ◌≡◌, refl, arith}
use app_template.Database.App.{AppDb}
use app_template.Jobs.Execution.{DurableJobContext, ownership}
use app_template.Jobs.Ownership.{superseded_is_refused}
use app_template.Jobs.Samples.{at, waiting_db, running_db, first_claim, claiming_lem}
use app_template.Notifications.Email.{EmailWorld, SendAnswer, send_notification_email_attempt}
use app_template.Notifications.Superseded.{Refuses, superseded_attempt_is_not_sent}
use app_template.Notifications.Examples.{delivery_job, delivery_text, asking, noticed_db}

abbrev stalled : DurableJobContext
stalled = record delivery_job { owner_token = 20 }

-- The job is claimed between the marking of the delivery and the check.
abbrev overtaken : EmailWorld
overtaken = record (asking (SendAnswer.accepted "m1")) {
  meanwhile = λ n x. record x { core = running_db };
}

stalled-Refuses : (x : AppDb) → Refuses stalled (overtaken.meanwhile 1 x)
unfolding ownership
stalled-Refuses x lock j =
    superseded_is_refused (at 5 20) 7 waiting_db running_db first_claim (ownership stalled) lock j
      claiming_lem refl refl (ground arith)

superseded_attempt_is_not_sent_example :
    (send_notification_email_attempt overtaken delivery_text stalled noticed_db).has_sent ≡ false
superseded_attempt_is_not_sent_example =
    superseded_attempt_is_not_sent overtaken delivery_text stalled noticed_db 1 (omega arith)
      stalled-Refuses
