-- ===== src/Coordinator/Publication/Soundness.antt =====
-- What a published dispatch message says of the tables.
use app_template.Prelude.{
  ℕ, String, Bool, true, false, ◌||◌, not, Option, some, ◌≡◌, refl, sym, ◌∙◌, ap, subst, arith,
  opt_eq, str_eq, if◌then◌else◌, inl, inr, Bool-cases,
}
use app_template.Models.Jobs.{Job}
use app_template.Models.Outbox.{OutboxEvent, Payload}
use app_template.Models.Errors.{
  Error, contract, failure, Result, ok, err, raise_if, or_raise, or_raise-ok, bind-ok, ◌>>◌,
}
use app_template.Database.{Db, find_job, find_job-id}
use app_template.Outbox.Contracts.{event_type_job_dispatch, validate_payload}
use app_template.Coordinator.Registry.{
  DispatchRegistry, Message, Actor, lookup, send, publish_job_dispatch, actor_for_job_type,
}
use app_template.Coordinator.Publication.{
  PublishOutcome, publish_event, try_publish, classify, resolve_job_for_dispatch, parse_uuid,
}
use app_template.Coordinator.Publication.Dispatch.{dispatch_message}

classify-published :
    (r : Result Message) (e : Option String) (m : Option Message)
    → classify r ≡ (PublishOutcome.published, e, m)
    → (x : Message) × (r ≡ ok x) × (m ≡ some x)
unfolding classify
classify-published (ok x) e m h = (x, refl, cc)
classify-published (err x) e m h = ground arith

check-ok :
    (b : Bool) (e : Error) (job j : Job) → (raise_if b e >> ok job) ≡ ok j → (b ≡ false) × (job ≡ j)
check-ok true e job j h = cc
check-ok false e job j h = (refl, cc)

tenant_check :
    (e : OutboxEvent) (j : Job)
    → (not (opt_eq e.aggregate_id (some j.id))
        || not (opt_eq e.organisation_id (some j.organisation_id)))
      ≡ false
    → (e.aggregate_id ≡ some j.id) × (e.organisation_id ≡ some j.organisation_id)
tenant_check e j h = ground arith

resolve-ok :
    (e : OutboxEvent) (p : Payload) (db : Db) (j : Job)
    → resolve_job_for_dispatch e p db ≡ ok j
    → (find_job j.id db.jobs ≡ some j)
      × (e.aggregate_id ≡ some j.id)
      × (e.organisation_id ≡ some j.organisation_id)
unfolding resolve_job_for_dispatch
resolve-ok e p db j h =
    let (raw, _, h₁) = bind-ok (or_raise (lookup "job_id" p) (contract "no id")) _ h in
    let (k, _, h₂) = bind-ok (parse_uuid raw) _ h₁ in
    let (job, row, h₃) = bind-ok (or_raise (find_job k db.jobs) (contract "missing job")) _ h₂ in
    let (passed, same) = check-ok _ _ job j h₃ in
    let found = or_raise-ok _ _ row in
    let here : find_job job.id db.jobs ≡ some job =
      subst (λ i. find_job i db.jobs ≡ some job) (sym (find_job-id k job db.jobs found)) found in
    let (aggregate, organisation) = tenant_check e job passed in
    subst
      (λ (x : Job).
        (find_job x.id db.jobs ≡ some x)
        × (e.aggregate_id ≡ some x.id)
        × (e.organisation_id ≡ some x.organisation_id))
      same (here, aggregate, organisation)

send-ok :
    (accepts : Message → Bool) (m x : Message)
    → send accepts m ≡ ok x
    → (accepts m ≡ true) × (m ≡ x)
send-ok accepts m x h = elim (Bool-cases (accepts m)) [
  | inl y ↦ (y, (let sent : send accepts m ≡ ok m = rw y refl in cc))
  | inr n ↦ absurd (let refused : send accepts m ≡ err (failure "broker") = rw n refl in cc)
]

publish_job_dispatch-ok :
    (accepts : Message → Bool) (targets : DispatchRegistry) (job_type : String) (k : ℕ)
    (m : Message)
    → publish_job_dispatch accepts targets job_type k ≡ ok m
    → (a : Actor) × (lookup job_type targets.job_actors ≡ some a)
      × (m ≡ dispatch_message a k)
      × (accepts m ≡ true)
unfolding publish_job_dispatch actor_for_job_type
publish_job_dispatch-ok accepts targets job_type k m h =
    let (a, found, sent) = bind-ok (actor_for_job_type targets job_type) _ h in
    let (ready, same) = send-ok accepts (dispatch_message a k) m sent in
    (a, or_raise-ok _ _ found, sym same, subst (λ x. accepts x ≡ true) same ready)

taken {ℓ} : {A : Type ℓ} → (b : Bool) (x y z : A) → b ≡ true → (if b then x else y) ≡ z → x ≡ z
taken true x y z h e = e
taken false x y z h e = cc

-- A dispatch that is published refers to a job that exists, that the event names as its aggregate
-- and whose tenant is the event's; the message goes to the allow-listed actor of the job's type,
-- with the job's identifier as its only argument. A persisted row can cause no other message.
pub published_dispatch_lem :
    (is_reachable : Bool) (accepts : Message → Bool) (targets : DispatchRegistry) (e : OutboxEvent)
    (db : Db) (error : Option String) (m : Option Message)
    → e.event_type ≡ event_type_job_dispatch
    → publish_event is_reachable accepts targets e db ≡ (PublishOutcome.published, error, m)
    → (j : Job) × (a : Actor) × (find_job j.id db.jobs ≡ some j)
      × (e.aggregate_id ≡ some j.id)
      × (e.organisation_id ≡ some j.organisation_id)
      × (lookup j.job_type targets.job_actors ≡ some a)
      × (m ≡ some (dispatch_message a j.id))
unfolding publish_event try_publish
published_dispatch_lem is_reachable accepts targets e db error m type h =
    let (x, tried, same) = classify-published _ error m h in
    let (p, _, h₁) = bind-ok (validate_payload e.event_type e.event_version e.payload) _ tried in
    let is_dispatch : str_eq e.event_type event_type_job_dispatch ≡ true =
      subst (λ s. str_eq s event_type_job_dispatch ≡ true) (sym type) refl in
    let (_, _, h₂) =
      bind-ok (raise_if (not is_reachable) (failure "database")) _ (taken _ _ _ _ is_dispatch h₁) in
    let (j, resolved, h₃) = bind-ok (resolve_job_for_dispatch e p db) _ h₂ in
    let (a, actor, message, _) = publish_job_dispatch-ok accepts targets j.job_type j.id x h₃ in
    let (row, aggregate, organisation) = resolve-ok e p db j resolved in
    (j, a, row, aggregate, organisation, actor, same ∙ ap some message)
