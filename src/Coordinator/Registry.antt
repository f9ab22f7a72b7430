-- ===== src/Coordinator/Registry.antt =====
-- backend/app/job_coordinator/registry.py: the allow-list of dispatch targets.
use app_template.Prelude.{
  ℕ, String, Bool, true, false, ◌&&◌, not, Option, none, some, List, [], ◌∷◌, str_eq, if◌then◌else◌,
}
use app_template.Models.Errors.{registry, failure, Result, ok, raise_if, or_raise, ◌>>=◌, ◌>>◌}
use app_template.Database.{any}
use app_template.Outbox.Contracts.{event_type_ai_retention, event_type_transfer_reconcile}

-- A Dramatiq actor: its name, and its option `on_retry_exhausted`.
pub record Actor : Type 0 where
  pub name : String
  pub on_retry_exhausted : Option String

-- A broker message: the actor that receives it and its keyword arguments.
pub record Message : Type 0 where
  pub actor : String
  pub arguments : List (String × ℕ)

pub record DispatchRegistry : Type 0 where
  pub job_actors : List (String × Actor)
  pub maintenance_actors : List (String × Actor)

-- `d.get(name)`
abbrev pub lookup {ℓ} : {A : Type ℓ} → String → List (String × A) → Option A
lookup name [] = none
lookup name ((key, a) ∷ rest) = if str_eq key name then some a else lookup name rest

abbrev durable_job_types : List String
durable_job_types = "file.processing" ∷ "notification.email" ∷ "ai.execute" ∷ []

abbrev maintenance_event_types : List String
maintenance_event_types = event_type_ai_retention ∷ event_type_transfer_reconcile ∷ []

unfoldable pub actor_for_job_type : DispatchRegistry → String → Result Actor
actor_for_job_type r job_type =
    or_raise (lookup job_type r.job_actors) (registry "job_type" job_type)

unfoldable pub actor_for_maintenance_event : DispatchRegistry → String → Result Actor
actor_for_maintenance_event r event_type =
    or_raise (lookup event_type r.maintenance_actors) (registry "maintenance event" event_type)

-- `actor.send`: the broker accepts the message or raises.
abbrev pub send : (accepts : Message → Bool) → Message → Result Message
send accepts m = raise_if (not (accepts m)) (failure "broker") >> ok m

unfoldable pub publish_job_dispatch :
    (accepts : Message → Bool)
    → DispatchRegistry
    → (job_type : String) (job_id : ℕ) → Result Message
publish_job_dispatch accepts r job_type job_id = do
  actor ← actor_for_job_type r job_type
  send accepts (record { actor = actor.name; arguments = ("job_id", job_id) ∷ [] })

abbrev run_argument : Option ℕ → List (String × ℕ)
run_argument none = []
run_argument (some run_id) = ("maintenance_run_id", run_id) ∷ []

unfoldable pub publish_maintenance :
    (accepts : Message → Bool)
    → DispatchRegistry
    → (event_type : String) (run_id : Option ℕ) → Result Message
publish_maintenance accepts r event_type run_id = do
  actor ← actor_for_maintenance_event r event_type
  send accepts (record { actor = actor.name; arguments = run_argument run_id })

abbrev pub finalizer : String
finalizer = "mark_job_failed_after_retries"

-- `set(xs) <= set(keys)`
abbrev pub all_known : (List String) → List String → Bool
all_known [] keys = true
all_known (x ∷ xs) keys = any (λ k. str_eq k x) keys && all_known xs keys

abbrev keys_of : List (String × Actor) → List String
keys_of [] = []
keys_of ((key, _) ∷ rest) = key ∷ keys_of rest

abbrev is_finalizer : Option String → Bool
is_finalizer none = false
is_finalizer (some name) = str_eq name finalizer

abbrev all_durable : List (String × Actor) → Bool
all_durable [] = true
all_durable ((_, a) ∷ rest) = is_finalizer a.on_retry_exhausted && all_durable rest

-- The start-up check: true where `validate` does not raise.
unfoldable pub validate : DispatchRegistry → Bool
validate r =
    all_known durable_job_types (keys_of r.job_actors)
    && (all_known (keys_of r.job_actors) durable_job_types
        && (all_known maintenance_event_types (keys_of r.maintenance_actors)
            && (all_known (keys_of r.maintenance_actors) maintenance_event_types
                && all_durable r.job_actors)))
