-- ===== src/Notifications/Examples.antt =====
-- Concrete runs of the delivery of one email.
use app_template.Prelude.{false, ℕ, ◌+◌, ◌≤◌, String, none, some, List, [], ◌∷◌, ◌≡◌, refl, arith}
use app_template.Models.Notifications.{Notification}
use app_template.Models.Errors.{ok}
use app_template.Database.{insert_job, insert_event}
use app_template.Database.App.{AppDb}
use app_template.Outbox.Contracts.{
  dispatch_payload, json_chars, entries_chars, value_chars, escaped_chars,
}
use app_template.Outbox.Service.{create_dispatch_event, check_payload_size, dispatch_event}
use app_template.Jobs.Claim.{schedule_job, queued_job}
use app_template.Jobs.Calls.{empty_db}
use app_template.Jobs.Samples.{at, running_db}
use app_template.Jobs.Execution.{DurableJobContext, ownership}
use app_template.Jobs.Lookup.{verify_ownership, read_job, get_job_locked, check_ownership}
use app_template.Jobs.Settle.{succeed}
use app_template.Notifications.Service.{
  Fresh, verified, new_notification, create_file_notification, create_unless, is_notice,
  add_with_email, insert_notification, insert_delivery, queued_delivery, get_delivery_for_task,
  get_notification_for_task,
}
use app_template.Notifications.Deliveries.{
  mark_delivery_running, return_delivery_to_queue, mark_delivery_succeeded, owned_delivery,
}
use app_template.Notifications.Email.{
  EmailWorld, SendAnswer, send_notification_email_attempt, attempt_delivery, send, after_answer,
  or_raises, fail_invalid_context, settle_job_for_terminal_delivery,
}
use app_template.Notifications.Notices.{file_notification_is_created_once}
use app_template.Notifications.Exhaustion.{
  exhausted_is_not_sent, on_notification_email_exhausted, fail_delivery_of, fail_delivery_at,
  exhaustion_code,
}
use app_template.Notifications.Service.{commit}
use app_template.Notifications.Deliveries.{mark_delivery_failed, settled_delivery}
use app_template.Models.Errors.{◌>>=◌}
use app_template.Models.Jobs.{Job}
use app_template.Database.{find_job}
use app_template.Notifications.Once.{
  EmailRun, requests_in, allowances_in, LeavesQueue, email_is_sent_once,
}

abbrev quiet_db : AppDb
quiet_db = record {
  core = empty_db;
  files = [];
  deleted_objects = [];
  notifications = [];
  deliveries = [];
  users = [];
}

abbrev drawn : Fresh
drawn = record { notification = 21; delivery = 22; identity = 23; job = 24 }

abbrev drawn_later : Fresh
drawn_later = record { notification = 31; delivery = 32; identity = 33; job = 34 }

abbrev pub delivery_text : ℕ → String
delivery_text k = "delivery:22"

abbrev ready_notice : Notification
ready_notice = record {
  id = 21;
  organisation_id = 1;
  user_id = 5;
  type = "file.ready";
  title = "Ready";
  body = "The file is ready.";
  resource_id = some 3;
  read_at = none;
}

-- The tables after the notice of the file 3 for the user 5.
abbrev pub noticed_db : AppDb
noticed_db =
    (create_file_notification (at 10 40) delivery_text drawn 1 5 "file.ready" "Ready"
      "The file is ready." 3 "user@example.org" (some 5) none quiet_db).1

first_notice :
    create_file_notification
      (at 10 40)
      delivery_text
      drawn
      1
      5
      "file.ready"
      "Ready"
      "The file is ready."
      3
      "user@example.org"
      (some 5)
      none
      quiet_db
    ≡ (ok ready_notice, noticed_db)
unfolding create_file_notification new_notification create_unless is_notice add_with_email
    insert_notification insert_delivery queued_delivery verified schedule_job queued_job insert_job
    insert_event create_dispatch_event check_payload_size dispatch_event dispatch_payload json_chars
    entries_chars value_chars escaped_chars
first_notice = refl

unowned : verified none noticed_db ≡ ok tt
unfolding verified
unowned = refl

file_notification_is_created_once_example :
    create_file_notification
      (at 20 50)
      delivery_text
      drawn_later
      1
      5
      "file.ready"
      "Again"
      ""
      3
      "other@example.org"
      (some 5)
      none
      noticed_db
    ≡ (ok ready_notice, noticed_db)
file_notification_is_created_once_example =
    file_notification_is_created_once (at 10 40) (at 20 50) delivery_text drawn drawn_later 1 5
      "file.ready" "Ready" "The file is ready." "Again" "" 3 "user@example.org" "other@example.org"
      (some 5) (some 5) none none quiet_db ready_notice noticed_db first_notice unowned

-- The job 7 of the samples as the job that sends the delivery 22.
abbrev pub delivery_job : DurableJobContext
delivery_job = record {
  job_id = 7;
  organisation_id = 1;
  job_type = "notification.email";
  input_reference = "delivery:22";
  created_by_user_id = some 5;
  dispatch_id = 10;
  owner_token = 21;
}

abbrev pub asking : SendAnswer → EmailWorld
asking answer = record {
  env = at 10 40;
  parse = λ s. some 22;
  answer = answer;
  meanwhile = λ n db. db;
}

-- The worker claims its job before the attempt.
abbrev claimed : AppDb → AppDb
claimed db = record db { core = running_db }

-- The provider refuses once, accepts, and is not asked again.
abbrev sending_runs : List EmailRun
sending_runs =
    record { context = delivery_job; world = asking SendAnswer.transient; before = claimed }
    ∷ record { context = delivery_job; world = asking (SendAnswer.accepted "m1"); before = claimed }
    ∷ record { context = delivery_job; world = asking (SendAnswer.accepted "m2"); before = claimed }
    ∷ []

sending_runs-LeavesQueue : LeavesQueue 22 sending_runs
unfolding LeavesQueue
sending_runs-LeavesQueue = (
  λ n x. omega arith,
  λ x. omega arith,
  (λ n x. omega arith, λ x. omega arith, (λ n x. omega arith, λ x. omega arith, tt)),
)

asked_twice : requests_in 22 delivery_text sending_runs noticed_db ≡ 2
unfolding requests_in send_notification_email_attempt attempt_delivery send after_answer or_raises
    fail_invalid_context get_delivery_for_task get_notification_for_task mark_delivery_running
    return_delivery_to_queue mark_delivery_succeeded owned_delivery verified verify_ownership
    read_job get_job_locked check_ownership ownership succeed settle_job_for_terminal_delivery
    create_file_notification new_notification create_unless is_notice add_with_email
    insert_notification insert_delivery queued_delivery schedule_job queued_job insert_job
    insert_event create_dispatch_event check_payload_size dispatch_event dispatch_payload json_chars
    entries_chars value_chars escaped_chars
asked_twice = refl

email_is_sent_once_example :
    requests_in 22 delivery_text sending_runs noticed_db ≤ 1 + allowances_in 22 sending_runs
email_is_sent_once_example =
    email_is_sent_once 22 delivery_text sending_runs noticed_db sending_runs-LeavesQueue

abbrev job_of_delivery : Job
job_of_delivery = queued_job (at 10 40) 1 "notification.email" "delivery:22" (some 5) 24

-- The tables after the job of the delivery has exhausted its attempts.
abbrev exhausted_db : AppDb
exhausted_db =
    (commit noticed_db (
      on_notification_email_exhausted (at 60 90) (λ s. some 22) 24 "job_retries_exhausted"
        noticed_db
      >>= λ db. ok (tt {0}, db))).1

job_of_delivery-found : find_job 24 noticed_db.core.jobs ≡ some job_of_delivery
unfolding create_file_notification new_notification create_unless is_notice add_with_email
    insert_notification insert_delivery queued_delivery verified schedule_job queued_job insert_job
    insert_event create_dispatch_event check_payload_size dispatch_event dispatch_payload json_chars
    entries_chars value_chars escaped_chars
job_of_delivery-found = refl

exhausting :
    on_notification_email_exhausted (at 60 90) (λ s. some 22) 24 "job_retries_exhausted" noticed_db
    ≡ ok exhausted_db
unfolding create_file_notification new_notification create_unless is_notice add_with_email
    insert_notification insert_delivery queued_delivery verified schedule_job queued_job insert_job
    insert_event create_dispatch_event check_payload_size dispatch_event dispatch_payload json_chars
    entries_chars value_chars escaped_chars on_notification_email_exhausted fail_delivery_of
    fail_delivery_at mark_delivery_failed owned_delivery get_delivery_for_task settled_delivery
    exhaustion_code
exhausting = refl

recipient_of_delivery : job_of_delivery.created_by_user_id ≡ some 5
unfolding queued_job
recipient_of_delivery = refl

exhausted_is_not_sent_example :
    (send_notification_email_attempt
      (asking SendAnswer.transient)
      delivery_text
      delivery_job
      exhausted_db).has_sent
    ≡ false
exhausted_is_not_sent_example =
    exhausted_is_not_sent (at 60 90) (λ s. some 22) 24 5 22 "job_retries_exhausted" job_of_delivery
      noticed_db exhausted_db (asking SendAnswer.transient) delivery_text delivery_job
      job_of_delivery-found recipient_of_delivery refl exhausting refl
