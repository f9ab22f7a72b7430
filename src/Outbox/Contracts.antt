-- ===== src/Outbox/Contracts.antt =====
-- backend/app/modules/outbox/contracts.py: the closed payload contracts.
use Prim.Native.Char.{code}
use app_template.Prelude.{
  ℕ, zero, suc, ◌+◌, ◌/◌, String, ◌&&◌, ◌||◌, Option, none, some, [], ◌∷◌, ltb, ◌==◌, str_eq,
  if◌then◌else◌,
}
use app_template.Models.Outbox.{Value, Payload}
use app_template.Models.Errors.{contract, Result, ok, err}

abbrev pub event_type_job_dispatch : String
event_type_job_dispatch = "job.dispatch_requested"

abbrev pub event_version_job_dispatch : ℕ
event_version_job_dispatch = 1

abbrev pub event_type_ai_retention : String
event_type_ai_retention = "ai.retention"

abbrev pub event_version_ai_retention : ℕ
event_version_ai_retention = 2

abbrev pub event_type_transfer_reconcile : String
event_type_transfer_reconcile = "ai.transfer_reconcile"

abbrev pub event_version_transfer_reconcile : ℕ
event_version_transfer_reconcile = 2

abbrev pub event_version_maintenance_legacy : ℕ
event_version_maintenance_legacy = 1

abbrev pub event_type_outbox_cleanup_completed : String
event_type_outbox_cleanup_completed = "outbox.cleanup_completed"

abbrev pub event_version_outbox_cleanup_completed : ℕ
event_version_outbox_cleanup_completed = 1

abbrev pub aggregate_type_job : String
aggregate_type_job = "job"

abbrev pub max_payload_chars : ℕ
max_payload_chars = 16384

-- `MAINTENANCE_EVENT_VERSIONS.get`
unfoldable pub maintenance_event_version : String → Option ℕ
maintenance_event_version t =
    if str_eq t event_type_ai_retention
    then some event_version_ai_retention
    else if str_eq t event_type_transfer_reconcile
    then some event_version_transfer_reconcile
    else none

-- The three pydantic models.
pub data Contract : Type 0 where
  job_dispatch_payload maintenance_payload_model maintenance_run_payload : Contract

-- `_PAYLOAD_CONTRACTS.get`
unfoldable pub payload_contract : String → ℕ → Option Contract
payload_contract t v =
    if str_eq t event_type_job_dispatch && v == event_version_job_dispatch
    then some Contract.job_dispatch_payload
    else if str_eq t event_type_ai_retention && v == event_version_ai_retention
    then some Contract.maintenance_run_payload
    else if str_eq t event_type_transfer_reconcile && v == event_version_transfer_reconcile
    then some Contract.maintenance_run_payload
    else if str_eq t event_type_ai_retention && v == event_version_maintenance_legacy
    then some Contract.maintenance_payload_model
    else if str_eq t event_type_transfer_reconcile && v == event_version_maintenance_legacy
    then some Contract.maintenance_payload_model
    else if str_eq t event_type_outbox_cleanup_completed
        && v == event_version_outbox_cleanup_completed
    then some Contract.maintenance_payload_model
    else none

unfoldable pub dispatch_payload : ℕ → Payload
dispatch_payload job_id = ("job_id", Value.uuid job_id) ∷ []

unfoldable pub maintenance_payload : ℕ → Payload
maintenance_payload run_id = ("maintenance_run_id", Value.uuid run_id) ∷ []

-- A model with one required UUID field and `extra="forbid"`, back as JSON.
unfoldable pub one_uuid_field : String → Payload → Option Payload
one_uuid_field name ((key, Value.uuid u) ∷ []) =
    if str_eq key name then some ((name, Value.uuid u) ∷ []) else none
one_uuid_field name _ = none

-- `contract.model_validate(payload).model_dump(mode="json")`
unfoldable pub model_validate : Contract → Payload → Option Payload
unfolding one_uuid_field
model_validate Contract.job_dispatch_payload p = one_uuid_field "job_id" p
model_validate Contract.maintenance_run_payload p = one_uuid_field "maintenance_run_id" p
model_validate Contract.maintenance_payload_model [] = some []
model_validate Contract.maintenance_payload_model (_ ∷ _) = none

abbrev or_contract_error : Option Payload → String → Result Payload
or_contract_error none message = err (contract message)
or_contract_error (some p) message = ok p

abbrev validate_with : Option Contract → Payload → Result Payload
validate_with none p = err (contract "unknown outbox event contract")
validate_with (some c) p = or_contract_error (model_validate c p) "invalid payload"

unfoldable pub validate_payload : String → ℕ → Payload → Result Payload
unfolding payload_contract model_validate
validate_payload event_type event_version p =
    validate_with (payload_contract event_type event_version) p

-- The length of `json.dumps` with its default escapes. A UUID string has 36 characters.
escaped : ℕ → ℕ
escaped c =
    if c == b'"' || c == b'\\' || c == 8 || c == 9 || c == 10 || c == 12 || c == 13
    then 2
    else if ltb c 32
    then 6
    else if ltb c 127
    then 1
    else if ltb c 65536
    then 6
    else 12

unfoldable pub escaped_chars : String → ℕ
unfolding escaped
escaped_chars String.[] = 0
escaped_chars (String.◌∷◌ c s) = escaped (code c) + escaped_chars s

decimal_chars : ℕ → ℕ → ℕ
decimal_chars zero n = 1
decimal_chars (suc fuel) n =
    let rest = decimal_chars fuel (n / 10) in if ltb n 10 then 1 else suc rest

unfoldable pub value_chars : Value → ℕ
unfolding decimal_chars escaped_chars
value_chars (Value.uuid _) = 38
value_chars (Value.text s) = 2 + escaped_chars s
value_chars (Value.number n) = decimal_chars n n
value_chars Value.null = 4

-- `"key": value`, and ", " before each entry but the first.
unfoldable pub entries_chars : Payload → ℕ
unfolding value_chars
entries_chars [] = 0
entries_chars ((key, v) ∷ []) = 4 + escaped_chars key + value_chars v
entries_chars ((key, v) ∷ rest) = 6 + escaped_chars key + value_chars v + entries_chars rest

unfoldable pub json_chars : Payload → ℕ
unfolding entries_chars
json_chars p = 2 + entries_chars p
