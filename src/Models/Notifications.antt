-- ===== src/Models/Notifications.antt =====
-- backend/app/modules/notifications/models.py: notifications and their deliveries; and the columns
-- of backend/app/modules/users/models.py that they need.
use app_template.Prelude.{ℕ, String, Bool, true, false, Option}

pub data NotificationDeliveryStatus : Type 0 where
  queued running succeeded failed attention_required : NotificationDeliveryStatus

pub record Notification : Type 0 where
  pub id : ℕ
  pub organisation_id : ℕ
  pub user_id : ℕ
  pub type : String
  pub title : String
  pub body : String
  -- `resource_type` is "file" and `resource_id` its identifier, or both are null
  pub resource_id : Option ℕ
  pub read_at : Option ℕ

pub record NotificationDelivery : Type 0 where
  pub id : ℕ
  pub notification_id : ℕ
  pub channel : String
  pub recipient : String
  pub delivery_identity : ℕ
  pub status : NotificationDeliveryStatus
  pub provider_message_id : Option String
  pub error_code : Option String
  pub attempt_count : ℕ
  pub sent_at : Option ℕ

pub record User : Type 0 where
  pub id : ℕ
  pub email : String

abbrev pub is_sending : NotificationDeliveryStatus → Bool
is_sending NotificationDeliveryStatus.running = true
is_sending _ = false

-- `is_delivery_terminal`
abbrev pub is_delivery_terminal : NotificationDeliveryStatus → Bool
is_delivery_terminal NotificationDeliveryStatus.succeeded = true
is_delivery_terminal NotificationDeliveryStatus.failed = true
is_delivery_terminal NotificationDeliveryStatus.attention_required = true
is_delivery_terminal _ = false
