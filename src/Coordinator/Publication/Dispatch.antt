-- ===== src/Coordinator/Publication/Dispatch.antt =====
-- From a scheduled job to the message of its dispatch, and back from a message to its job.
use app_template.Prelude.{
  ℕ, String, Bool, true, Option, none, some, [], ◌∷◌, ◌==◌, ◌≡◌, refl, sym, ◌∙◌, ap, subst, arith,
  ==_refl, if◌then◌else◌,
}
use app_template.Models.Jobs.{Job}
use app_template.Models.Outbox.{OutboxEvent, DedupKey}
use app_template.Models.Errors.{ok, bind-ok}
use app_template.Database.{Db, Env, find_job, find_event, insert_job, insert_job-ok}
use app_template.Outbox.Contracts.{
  event_type_job_dispatch, validate_payload, payload_contract, model_validate, one_uuid_field,
  dispatch_payload,
}
use app_template.Outbox.Service.{dispatch_event, create_dispatch_event}
use app_template.Outbox.Insertion.{create_dispatch_event-ok}
use app_template.Jobs.Claim.{schedule_job, queued_job, id_or}
use app_template.Coordinator.Registry.{
  DispatchRegistry, Message, Actor, lookup, publish_job_dispatch, actor_for_job_type,
}
use app_template.Coordinator.Queries.{is_due}
use app_template.Coordinator.Claims.{claimed_event}
use app_template.Coordinator.Publication.{
  PublishOutcome, publish_event, try_publish, classify, resolve_job_for_dispatch, parse_uuid,
}

-- The reference-only message of a job's dispatch.
abbrev pub dispatch_message : Actor → ℕ → Message
dispatch_message actor job_id = record { actor = actor.name; arguments = ("job_id", job_id) ∷ [] }

validate_dispatch :
    (k : ℕ)
    → validate_payload event_type_job_dispatch 1 (dispatch_payload k) ≡ ok (dispatch_payload k)
unfolding validate_payload payload_contract model_validate one_uuid_field dispatch_payload
validate_dispatch k = refl

resolve_dispatched :
    (e : OutboxEvent) (k : ℕ) (db : Db) (j : Job)
    → find_job k db.jobs ≡ some j
    → e.aggregate_id ≡ some j.id
    → e.organisation_id ≡ some j.organisation_id
    → resolve_job_for_dispatch e (dispatch_payload k) db ≡ ok j
unfolding resolve_job_for_dispatch parse_uuid dispatch_payload
resolve_dispatched e k db j found named org = rw found (ground (arith, named, org))

send_dispatched :
    (accepts : Message → Bool) (targets : DispatchRegistry) (job_type : String) (k : ℕ) (a : Actor)
    → lookup job_type targets.job_actors ≡ some a
    → accepts (dispatch_message a k) ≡ true
    → publish_job_dispatch accepts targets job_type k ≡ ok (dispatch_message a k)
unfolding publish_job_dispatch actor_for_job_type
send_dispatched accepts targets job_type k a actor ready = rw actor (rw ready refl)

-- The dispatch of a job that is in the table.
pub dispatch_is_published :
    (accepts : Message → Bool) (targets : DispatchRegistry) (now t i : ℕ) (key : Option DedupKey)
    (at due : ℕ) (db : Db) (j : Job) (a : Actor)
    → find_job j.id db.jobs ≡ some j
    → lookup j.job_type targets.job_actors ≡ some a
    → accepts (dispatch_message a j.id) ≡ true
    → publish_event true accepts targets
        (claimed_event now t (dispatch_event j.organisation_id j.id i key at due))
        db
      ≡ (PublishOutcome.published, none, some (dispatch_message a j.id))
unfolding publish_event try_publish claimed_event dispatch_event classify
dispatch_is_published accepts targets now t i key at due db j a found actor ready =
    rw (validate_dispatch j.id) (
      rw
        (resolve_dispatched
          (claimed_event now t (dispatch_event j.organisation_id j.id i key at due)) j.id db j found
          refl refl)
        (rw (send_dispatched accepts targets j.job_type j.id a actor ready) refl))

event_of_dispatch :
    (o k i : ℕ) (key : Option DedupKey) (at due : ℕ) → (dispatch_event o k i key at due).id ≡ i
unfolding dispatch_event
event_of_dispatch o k i key at due = refl

scheduled_tables :
    (o i at : ℕ) (job : Job) (db db₁ db₂ : Db)
    → insert_job job db ≡ ok db₁
    → create_dispatch_event o job.id i none at at db₁ ≡ ok db₂
    → (find_job job.id db₂.jobs ≡ some job)
      × (find_event i db₂.events ≡ some (dispatch_event o job.id i none at at))
scheduled_tables o i at job db db₁ db₂ inserted created =
    rw (create_dispatch_event-ok o job.id i none at at db₁ db₂ created) (
      rw (insert_job-ok job db db₁ inserted) (
        rw (==_refl job.id) refl,
        ap (λ b. if b then some (dispatch_event o job.id i none at at) else find_event i db.events)
            (ap (λ x. x == i) (event_of_dispatch o job.id i none at at) ∙ ==_refl i),
      ))

schedule_job-ok :
    (env : Env) (o : ℕ) (job_type reference : String) (actor_id job_id : Option ℕ) (fresh : ℕ)
    (db db' : Db) (j : Job)
    → schedule_job env o job_type reference actor_id job_id fresh db ≡ ok (j, db')
    → (j.job_type ≡ job_type)
      × (find_job j.id db'.jobs ≡ some j)
      × (find_event env.new_dispatch db'.events
          ≡ some (dispatch_event j.organisation_id j.id env.new_dispatch none env.now env.now))
unfolding schedule_job
schedule_job-ok env o job_type reference actor_id job_id fresh db db' j h =
    let job = queued_job env o job_type reference actor_id (id_or job_id fresh) in
    let (db₁, inserted, rest) = bind-ok (insert_job job db) _ h in
    let (db₂, created, same) =
      bind-ok (create_dispatch_event o job.id env.new_dispatch none env.now env.now db₁) _ rest in
    let (row, event) =
      scheduled_tables o env.new_dispatch env.now job db db₁ db₂ inserted created in
    let same_job : job ≡ j = (let equal = same in cc) in
    let same_db : db₂ ≡ db' = (let equal = same in cc) in
    subst
      (λ (d : Db).
        (j.job_type ≡ job_type)
        × (find_job j.id d.jobs ≡ some j)
        × (find_event env.new_dispatch d.events
            ≡ some (dispatch_event j.organisation_id j.id env.new_dispatch none env.now env.now)))
      same_db
      (subst
        (λ (x : Job).
          (x.job_type ≡ job_type)
          × (find_job x.id db₂.jobs ≡ some x)
          × (find_event env.new_dispatch db₂.events
              ≡ some (dispatch_event x.organisation_id x.id env.new_dispatch none env.now env.now)))
        same_job (unfold queued_job in (refl, row, event)))

-- From the producer to the broker: once `schedule_job` returns, its event is in the outbox and due
-- at once, and a coordinator that claims it, with a target for the job's type and a broker that
-- takes the message, publishes exactly the reference to that job.
pub scheduled_is_published :
    (env : Env) (o : ℕ) (job_type reference : String) (actor_id job_id : Option ℕ) (fresh : ℕ)
    (db db' : Db) (j : Job) (accepts : Message → Bool) (targets : DispatchRegistry) (a : Actor)
    (now t : ℕ)
    → schedule_job env o job_type reference actor_id job_id fresh db ≡ ok (j, db')
    → lookup job_type targets.job_actors ≡ some a
    → accepts (dispatch_message a j.id) ≡ true
    → (e : OutboxEvent) × (find_event env.new_dispatch db'.events ≡ some e)
      × (is_due env.now e ≡ true)
      × (publish_event true accepts targets (claimed_event now t e) db'
          ≡ (PublishOutcome.published, none, some (dispatch_message a j.id)))
scheduled_is_published env o job_type reference actor_id job_id fresh db db' j accepts targets a now
      t h actor ready =
    let (type, row, event) =
      schedule_job-ok env o job_type reference actor_id job_id fresh db db' j h in
    (
      dispatch_event j.organisation_id j.id env.new_dispatch none env.now env.now,
      event,
      unfold dispatch_event in (ground arith),
      dispatch_is_published accepts targets now t env.new_dispatch none env.now env.now db' j a row
          (subst (λ x. lookup x targets.job_actors ≡ some a) (sym type) actor) ready,
    )
