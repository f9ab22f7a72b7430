-- ===== src/Coordinator/Publication.antt =====
-- backend/app/job_coordinator/loop.py: publishing one claimed event outside any row lock.
pub mod Dispatch
pub mod Soundness
use app_template.Prelude.{
  ℕ, String, Bool, true, false, ◌&&◌, ◌||◌, not, Option, none, some, List, [], ◌∷◌, ◌==◌, opt_eq,
  str_eq, if◌then◌else◌,
}
use app_template.Models.Jobs.{Job}
use app_template.Models.Outbox.{OutboxEvent, Payload, Value}
use app_template.Models.Maintenance.{MaintenanceRun, task_type_value}
use app_template.Models.Errors.{
  Error, contract, registry, failure, Result, ok, err, raise_if, or_raise, ◌>>=◌, ◌>>◌,
}
use app_template.Database.{Db, find_job, find_run}
use app_template.Outbox.Contracts.{
  event_type_job_dispatch, event_version_maintenance_legacy, validate_payload,
}
use app_template.Coordinator.Registry.{
  DispatchRegistry, Message, lookup, publish_job_dispatch, publish_maintenance,
}

pub data PublishOutcome : Type 0 where
  published dead transient : PublishOutcome

-- `uuid.UUID(raw)`: a number has no attribute `replace`, which no clause of the caller expects.
unfoldable pub parse_uuid : Value → Result ℕ
parse_uuid (Value.uuid u) = ok u
parse_uuid (Value.text s) = err (contract "invalid id")
parse_uuid (Value.number n) = err (failure "AttributeError")
parse_uuid Value.null = err (contract "no id")

unfoldable pub resolve_job_for_dispatch : OutboxEvent → Payload → Db → Result Job
unfolding parse_uuid
resolve_job_for_dispatch event payload db = do
  raw ← or_raise (lookup "job_id" payload) (contract "no id")
  job_id ← parse_uuid raw
  job ← or_raise (find_job job_id db.jobs) (contract "missing job")
  raise_if
      (not (opt_eq event.aggregate_id (some job.id))
        || not (opt_eq event.organisation_id (some job.organisation_id)))
      (contract "event does not match its job")
  ok job

resolve_run : OutboxEvent → Db → Value → Result (Option ℕ)
unfolding parse_uuid
resolve_run event db raw = do
  run_id ← parse_uuid raw
  run ← or_raise (find_run run_id db.runs) (contract "missing maintenance run")
  raise_if (not (str_eq (task_type_value run.task_type) event.event_type))
      (contract "event does not match its run")
  ok (some run_id)

-- No run: only a row of the previous release has none.
resolve_legacy : OutboxEvent → Result (Option ℕ)
resolve_legacy event =
    if event.event_version == event_version_maintenance_legacy
    then ok none
    else err (contract "no maintenance_run_id")

resolve_raw : OutboxEvent → Db → Option Value → Result (Option ℕ)
unfolding resolve_run resolve_legacy
resolve_raw event db none = resolve_legacy event
resolve_raw event db (some Value.null) = resolve_legacy event
resolve_raw event db (some raw) = resolve_run event db raw

unfoldable pub resolve_maintenance_run_for_dispatch : OutboxEvent → Payload → Db → Result (Option ℕ)
unfolding resolve_raw
resolve_maintenance_run_for_dispatch event payload db =
    resolve_raw event db (lookup "maintenance_run_id" payload)

-- The body of the `try`: the message that was sent. `is_reachable` tells whether the database
-- answers, and `accepts` what the broker takes.
unfoldable pub try_publish :
    (is_reachable : Bool) (accepts : Message → Bool)
    → DispatchRegistry
    → OutboxEvent
    → Db
    → Result Message
try_publish is_reachable accepts targets event db = do
  payload ← validate_payload event.event_type event.event_version event.payload
  if str_eq event.event_type event_type_job_dispatch
      then (do
        raise_if (not is_reachable) (failure "database")
        job ← resolve_job_for_dispatch event payload db
        publish_job_dispatch accepts targets job.job_type job.id)
      else (do
        raise_if (not is_reachable) (failure "database")
        run_id ← resolve_maintenance_run_for_dispatch event payload db
        publish_maintenance accepts targets event.event_type run_id)

unfoldable pub bounded_error : Error → String
bounded_error (contract _) = "invalid_outbox_contract"
bounded_error (registry _ _) = "invalid_dispatch_target"
bounded_error _ = "transient_infrastructure_failure"

-- The `except` clauses: the outcome, the error to persist, and the message that was sent.
unfoldable pub classify : Result Message → PublishOutcome × Option String × Option Message
unfolding bounded_error
classify (ok m) = (PublishOutcome.published, none, some m)
classify (err (contract message)) =
    (PublishOutcome.dead, some (bounded_error (contract message)), none)
classify (err (registry kind name)) =
    (PublishOutcome.dead, some (bounded_error (registry kind name)), none)
classify (err _) = (PublishOutcome.transient, none, none)

unfoldable pub publish_event :
    (is_reachable : Bool) (accepts : Message → Bool)
    → DispatchRegistry
    → OutboxEvent
    → Db
    → PublishOutcome × Option String × Option Message
publish_event is_reachable accepts targets event db =
    classify (try_publish is_reachable accepts targets event db)
