-- ===== src/Models/Outbox.antt =====
-- backend/app/modules/outbox/models.py: the rows of `outbox_events`.
use app_template.Prelude.{ℕ, String, Bool, true, false, Option, List}

pub data OutboxEventStatus : Type 0 where
  pending publishing published dead : OutboxEventStatus

-- A JSON value of a payload. A string that `uuid.UUID` parses is the number that it parses to.
pub data Value : Type 0 where
  uuid : ℕ → Value
  text : String → Value
  number : ℕ → Value
  null : Value

abbrev pub Payload : Type 0
Payload = List (String × Value)

-- The f-strings that name deduplication keys, by their parts: the parts are separated by ":",
-- which no identifier, number or event type holds.
pub data DedupKey : Type 0 where
  dispatch : ℕ → DedupKey
  reconcile : ℕ → ℕ → DedupKey
  retry : ℕ → ℕ → DedupKey
  maintenance_retry : ℕ → ℕ → DedupKey
  maintenance_recover : ℕ → ℕ → DedupKey
  schedule : String → ℕ → DedupKey
  cleanup : ℕ → DedupKey

pub record OutboxEvent : Type 0 where
  pub id : ℕ
  pub organisation_id : Option ℕ
  pub event_type : String
  pub event_version : ℕ
  pub aggregate_type : Option String
  pub aggregate_id : Option ℕ
  pub payload : Payload
  pub deduplication_key : Option DedupKey
  pub status : OutboxEventStatus
  pub available_at : ℕ
  pub claimed_at : Option ℕ
  pub claim_token : Option ℕ
  pub processed_at : Option ℕ
  pub attempt_count : ℕ
  pub last_error : Option String
  pub created_at : ℕ

abbrev pub is_pending : OutboxEventStatus → Bool
is_pending OutboxEventStatus.pending = true
is_pending _ = false

abbrev pub is_publishing : OutboxEventStatus → Bool
is_publishing OutboxEventStatus.publishing = true
is_publishing _ = false

abbrev pub is_published : OutboxEventStatus → Bool
is_published OutboxEventStatus.published = true
is_published _ = false
