-- ===== src/Outbox/Service.antt =====
-- backend/app/modules/outbox/service.py: deduplication keys and the creation of events.
use app_template.Prelude.{ℕ, String, Option, none, some, [], ltb}
use app_template.Models.Outbox.{OutboxEvent, OutboxEventStatus, DedupKey, Payload}
use app_template.Models.Errors.{contract, Result, ok, raise_if, or_raise, ◌>>=◌, ◌>>◌}
use app_template.Database.{Db, insert_event}
use app_template.Outbox.Contracts.{
  event_type_job_dispatch, event_version_job_dispatch, aggregate_type_job, max_payload_chars,
  dispatch_payload, maintenance_payload, maintenance_event_version, validate_payload, json_chars,
}

abbrev pub deduplication_key_for_dispatch : ℕ → DedupKey
deduplication_key_for_dispatch job_id = DedupKey.dispatch job_id

abbrev pub reconciliation_dispatch_key : ℕ → ℕ → DedupKey
reconciliation_dispatch_key job_id cooldown_bucket = DedupKey.reconcile job_id cooldown_bucket

abbrev pub retry_dispatch_key : ℕ → ℕ → DedupKey
retry_dispatch_key job_id attempt_number = DedupKey.retry job_id attempt_number

abbrev pub maintenance_retry_key : ℕ → ℕ → DedupKey
maintenance_retry_key run_id attempt_number = DedupKey.maintenance_retry run_id attempt_number

abbrev pub maintenance_recovery_key : ℕ → ℕ → DedupKey
maintenance_recovery_key run_id cooldown_bucket =
    DedupKey.maintenance_recover run_id cooldown_bucket

unfoldable pub check_payload_size : Payload → Result (Unit {0})
unfolding json_chars
check_payload_size p =
    raise_if (ltb max_payload_chars (json_chars p)) (contract "payload too large")

abbrev or_default : Option DedupKey → DedupKey → DedupKey
or_default none k = k
or_default (some k) _ = k

-- The row that `create_dispatch_event` adds: `available_at` and `created_at` are the column
-- defaults, the clock of the application, unless the caller sets `available_at` before the flush.
unfoldable pub dispatch_event :
    (organisation_id job_id event_id : ℕ) → Option DedupKey → (at due : ℕ) → OutboxEvent
unfolding dispatch_payload
dispatch_event organisation_id job_id event_id key at due = record {
  id = event_id;
  organisation_id = some organisation_id;
  event_type = event_type_job_dispatch;
  event_version = event_version_job_dispatch;
  aggregate_type = some aggregate_type_job;
  aggregate_id = some job_id;
  payload = dispatch_payload job_id;
  deduplication_key = some (or_default key (deduplication_key_for_dispatch job_id));
  status = OutboxEventStatus.pending;
  available_at = due;
  claimed_at = none;
  claim_token = none;
  processed_at = none;
  attempt_count = 0;
  last_error = none;
  created_at = at;
}

unfoldable pub create_dispatch_event :
    (organisation_id job_id event_id : ℕ) → Option DedupKey → (at due : ℕ) → Db → Result Db
create_dispatch_event organisation_id job_id event_id key at due db = do
  check_payload_size (dispatch_payload job_id)
  insert_event (dispatch_event organisation_id job_id event_id key at due) db

abbrev pub payload_or_empty : Option Payload → Payload
payload_or_empty none = []
payload_or_empty (some p) = p

abbrev time_or : Option ℕ → ℕ → ℕ
time_or none at = at
time_or (some t) at = t

-- The row has no tenant; its payload is the canonical one.
unfoldable pub create_schedule_event :
    (event_type : String) (schedule_key : DedupKey) (payload : Option Payload) (event_version : ℕ)
    (available_at : Option ℕ) (event_id at : ℕ)
    → Db
    → Result (OutboxEvent × Db)
unfolding check_payload_size insert_event validate_payload
create_schedule_event event_type schedule_key payload event_version available_at event_id at db = do
  check_payload_size (payload_or_empty payload)
  canonical ← validate_payload event_type event_version (payload_or_empty payload)
  let event : OutboxEvent = record {
    id = event_id;
    organisation_id = none;
    event_type = event_type;
    event_version = event_version;
    aggregate_type = none;
    aggregate_id = none;
    payload = canonical;
    deduplication_key = some schedule_key;
    status = OutboxEventStatus.pending;
    available_at = time_or available_at at;
    claimed_at = none;
    claim_token = none;
    processed_at = none;
    attempt_count = 0;
    last_error = none;
    created_at = at;
  }
  db' ← insert_event event db
  ok (event, db')

unfoldable pub create_maintenance_event :
    (event_type : String) (maintenance_run_id : ℕ) (deduplication_key : DedupKey)
    (available_at : Option ℕ) (event_id at : ℕ)
    → Db
    → Result (OutboxEvent × Db)
unfolding create_schedule_event maintenance_event_version maintenance_payload
create_maintenance_event event_type run_id key available_at event_id at db = do
  version ←
      or_raise (maintenance_event_version event_type) (contract "unknown maintenance event type")
  create_schedule_event event_type key (some (maintenance_payload run_id)) version available_at
      event_id at db
