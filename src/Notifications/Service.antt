-- ===== src/Notifications/Service.antt =====
-- backend/app/modules/notifications/service.py: creating and reading notifications.
-- A transition returns the tables that its transaction would commit. The policies of the database
-- on these tables are not modelled: a read by identifier sees every row.
use app_template.Prelude.{
  ℕ, String, Bool, true, ◌&&◌, not, Option, none, some, List, [], ◌∷◌, ◌==◌, opt_eq, is_some,
  str_eq, find_first, update_first, map, keep, length, if◌then◌else◌,
}
use app_template.Models.Jobs.{Job}
use app_template.Models.Notifications.{
  Notification, NotificationDelivery, NotificationDeliveryStatus,
}
use app_template.Models.Audit.{AuditEvent, Metadata, notification_test}
use app_template.Models.Errors.{
  not_found, integrity, failure, Result, ok, err, raise_if, or_raise, ◌>>=◌, ◌>>◌,
}
use app_template.Database.{Db, Env, any}
use app_template.Database.App.{AppDb, Outcome}
use app_template.Jobs.Policy.{JobOwnership}
use app_template.Jobs.Lookup.{verify_ownership}
use app_template.Jobs.Claim.{schedule_job}

abbrev pub job_type_notification_email : String
job_type_notification_email = "notification.email"

abbrev pub acceptance_unknown : String
acceptance_unknown = "acceptance_unknown"

-- `DELIVERY_ERROR_CODES`
abbrev pub delivery_error_codes : List String
delivery_error_codes =
    "permanently_rejected" ∷ acceptance_unknown ∷ "unclassified_provider_error"
    ∷ "safe_retries_exhausted" ∷ "dispatch_failed" ∷ []

-- The end of a transaction: what raises commits nothing.
abbrev pub commit {ℓ} : {A : Type ℓ} → AppDb → Result (A × AppDb) → Outcome A
commit db (err e) = (err e, db)
commit db (ok (a, db')) = (ok a, db')

-- A call on the tables of durable delivery within a wider transaction.
abbrev pub in_core {ℓ} : {A : Type ℓ} → (Db → Result (A × Db)) → AppDb → Result (A × AppDb)
in_core call db = call db.core >>= λ made. ok (made.0, record db { core = made.1 })

abbrev pub find_delivery : ℕ → List NotificationDelivery → Option NotificationDelivery
find_delivery k = find_first (λ d. d.id == k)

abbrev pub put_delivery :
    NotificationDelivery → List NotificationDelivery → List NotificationDelivery
put_delivery d = update_first (λ r. r.id == d.id) (λ _. d)

abbrev pub put_notification : Notification → List Notification → List Notification
put_notification n = update_first (λ r. r.id == n.id) (λ _. n)

unfoldable pub get_delivery_for_task : (delivery_id : ℕ) → AppDb → Result NotificationDelivery
get_delivery_for_task k db =
    or_raise (find_delivery k db.deliveries) (not_found "delivery_not_found")

unfoldable pub get_notification_for_task : (notification_id : ℕ) → AppDb → Result Notification
get_notification_for_task k db =
    or_raise (find_first (λ n. n.id == k) db.notifications) (not_found "notification_not_found")

abbrev pub notification_event :
    Env
    → (organisation_id : ℕ) (actor_user_id : Option ℕ) (action : String) (id : ℕ) → Metadata
    → AuditEvent
notification_event env o actor action id metadata = record {
  organisation_id = some o;
  actor_user_id = actor;
  action = action;
  resource_type = "notification";
  resource_id = id;
  metadata = metadata;
  request_id = env.request_id;
}

abbrev pub audited : AuditEvent → AppDb → AppDb
audited e db = record db { core = record db.core { audit = e ∷ db.core.audit } }

abbrev pub audited_if : Option AuditEvent → AppDb → AppDb
audited_if none db = db
audited_if (some e) db = audited e db

unfoldable pub insert_notification : Notification → AppDb → Result AppDb
insert_notification n db = do
  raise_if (any (λ r. r.id == n.id) db.notifications) (integrity "pk_notifications")
  ok (record db { notifications = n ∷ db.notifications })

unfoldable pub insert_delivery : NotificationDelivery → AppDb → Result AppDb
insert_delivery d db = do
  raise_if (any (λ r. r.id == d.id) db.deliveries) (integrity "pk_notification_deliveries")
  raise_if (any (λ r. r.delivery_identity == d.delivery_identity) db.deliveries)
      (integrity "uq_notification_deliveries_delivery_identity")
  ok (record db { deliveries = d ∷ db.deliveries })

-- The identifiers that a call draws.
pub record Fresh : Type 0 where
  pub notification : ℕ
  pub delivery : ℕ
  pub identity : ℕ
  pub job : ℕ

unfoldable pub queued_delivery : Fresh → (recipient : String) → NotificationDelivery
queued_delivery fresh recipient = record {
  id = fresh.delivery;
  notification_id = fresh.notification;
  channel = "email";
  recipient = recipient;
  delivery_identity = fresh.identity;
  status = NotificationDeliveryStatus.queued;
  provider_message_id = none;
  error_code = none;
  attempt_count = 0;
  sent_at = none;
}

-- The notification, its delivery and the job that sends it. `str` writes an identifier as a text.
unfoldable pub add_with_email :
    Env
    → (str : ℕ → String) → Fresh
    → Notification
    → (recipient : String) (actor_user_id : Option ℕ) → Option AuditEvent
    → AppDb
    → Result (Job × AppDb)
unfolding queued_delivery
add_with_email env str fresh n recipient actor event db = do
  db₁ ← insert_notification n db
  db₂ ← insert_delivery (queued_delivery fresh recipient) db₁
  let db₃ = audited_if event db₂
  raise_if (not (opt_eq actor (some n.user_id))) (failure "ValueError")
  in_core
      (schedule_job env n.organisation_id job_type_notification_email (str fresh.delivery) actor
        none fresh.job)
      db₃

unfoldable pub new_notification :
    Fresh
    → (organisation_id user_id : ℕ) (type title body : String) (resource_id : Option ℕ)
    → Notification
new_notification fresh o u type title body resource_id = record {
  id = fresh.notification;
  organisation_id = o;
  user_id = u;
  type = type;
  title = title;
  body = body;
  resource_id = resource_id;
  read_at = none;
}

unfoldable pub send_test_notification :
    Env
    → (str : ℕ → String) → Fresh
    → (organisation_id user_id : ℕ) (recipient : String) (actor_user_id : Option ℕ) → AppDb
    → Outcome Job
unfolding new_notification add_with_email
send_test_notification env str fresh o u recipient actor db = commit db (
    add_with_email env str fresh
      (new_notification fresh o u "notification.test_sent" "Test notification"
        "This is a test notification. It verifies that in-app notifications and their email deliveries are wired correctly."
        none)
      recipient actor
      (some (
        notification_event env o actor "notification.test_sent" fresh.notification
          (notification_test "email" recipient)))
      db)

-- The notification of one type for one file and user.
unfoldable pub is_notice :
    (organisation_id user_id : ℕ) (type : String) (file_id : ℕ) → Notification → Bool
is_notice o u type k n =
    n.organisation_id == o
    && (n.user_id == u && (str_eq n.type type && opt_eq n.resource_id (some k)))

unfoldable pub create_unless :
    Option Notification
    → (Unit {0} → Result (Notification × AppDb))
    → AppDb
    → Result (Notification × AppDb)
create_unless (some n) create db = ok (n, db)
create_unless none create db = create tt

unfoldable pub verified : Option JobOwnership → AppDb → Result (Unit {0})
verified none db = ok tt
verified (some o) db = do _ ← verify_ownership o true db.core; ok tt

unfoldable pub create_file_notification :
    Env
    → (str : ℕ → String) → Fresh
    → (organisation_id user_id : ℕ) (type title body : String) (file_id : ℕ) (recipient : String)
      (actor_user_id : Option ℕ)
    → Option JobOwnership
    → AppDb
    → Outcome Notification
unfolding new_notification add_with_email is_notice create_unless verified
create_file_notification env str fresh o u type title body k recipient actor ownership db =
    commit db (do
      verified ownership db
      let n = new_notification fresh o u type title body (some k)
      create_unless (find_first (is_notice o u type k) db.notifications)
          (λ _. add_with_email env str fresh n recipient actor none db >>= λ made. ok (n, made.1))
          db)

-- `mark_read`: the row of the caller, marked once.
unfoldable pub mark_read :
    Env → (organisation_id user_id notification_id : ℕ) → AppDb → Outcome Notification
mark_read env o u k db = commit db (do
  n ←
      or_raise
        (find_first (λ r. r.id == k && (r.organisation_id == o && r.user_id == u)) db.notifications)
        (not_found "notification_not_found")
  let row = record n { read_at = some env.now }
  if is_some n.read_at
      then ok (n, db)
      else ok (row, record db { notifications = put_notification row db.notifications }))

abbrev pub is_unread : (organisation_id user_id : ℕ) → Notification → Bool
is_unread o u n = n.organisation_id == o && (n.user_id == u && not (is_some n.read_at))

-- `mark_all_read`: the rows of the caller that are unread, and their number.
unfoldable pub mark_all_read : Env → (organisation_id user_id : ℕ) → AppDb → Outcome ℕ
mark_all_read env o u db = (
  ok (length (keep (is_unread o u) db.notifications)),
  record db {
    notifications =
        map (λ n. if is_unread o u n then record n { read_at = some env.now } else n)
          db.notifications;
  },
)
