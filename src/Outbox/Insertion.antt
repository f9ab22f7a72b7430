-- ===== src/Outbox/Insertion.antt =====
-- What the creation of an event leaves alone.
use app_template.Prelude.{some, String, ap, ℕ, Option, ◌≡◌, refl, sym, ◌∙◌, arith, ◌∷◌}
use app_template.Models.Outbox.{Payload, DedupKey, OutboxEvent}
use app_template.Models.Errors.{bind-ok, ◌>>=◌, or_raise, contract, Result, ok}
use app_template.Database.{Db, insert_event}
use app_template.Outbox.Contracts.{
  maintenance_payload, maintenance_event_version, validate_payload, dispatch_payload,
}
use app_template.Outbox.Service.{
  payload_or_empty, create_schedule_event, create_maintenance_event, create_dispatch_event,
  check_payload_size, dispatch_event,
}

-- An insert adds the row and touches no other table.
pub insert_event-ok :
    (e : OutboxEvent) (db db' : Db)
    → insert_event e db ≡ ok db'
    → db' ≡ record db { events = e ∷ db.events }
unfolding insert_event
insert_event-ok e db db' h = ground arith

-- The payload of a dispatch is always within the bound.
pub create_dispatch_event_lem :
    (o k event_id : ℕ) (key : Option DedupKey) (at due : ℕ) (db : Db)
    → create_dispatch_event o k event_id key at due db
      ≡ insert_event (dispatch_event o k event_id key at due) db
unfolding create_dispatch_event check_payload_size dispatch_payload
create_dispatch_event_lem o k event_id key at due db = refl

pub create_dispatch_event-ok :
    (o k event_id : ℕ) (key : Option DedupKey) (at due : ℕ) (db db' : Db)
    → create_dispatch_event o k event_id key at due db ≡ ok db'
    → db' ≡ record db { events = dispatch_event o k event_id key at due ∷ db.events }
create_dispatch_event-ok o k event_id key at due db db' h =
    insert_event-ok _ db db' (sym (create_dispatch_event_lem o k event_id key at due db) ∙ h)

pair-ok :
    (x e : OutboxEvent) (d db' : Db)
    → ◌≡◌ {A = Result (OutboxEvent × Db)} (ok (x, d)) (ok (e, db'))
    → (x ≡ e) × (d ≡ db')
pair-ok x e d db' h = (cc, cc)

insert_pair-ok :
    (x e : OutboxEvent) (db db' : Db)
    → ◌>>=◌ {B = OutboxEvent × Db} (insert_event x db) (λ d. ok (x, d)) ≡ ok (e, db')
    → db' ≡ record db { events = e ∷ db.events }
insert_pair-ok x e db db' h =
    let (d, inserted, same) = bind-ok (insert_event x db) (λ d. ok (x, d)) h in
    let (row, tables) = pair-ok x e d db' same in
    sym tables
    ∙ (insert_event-ok x db d inserted ∙ ap (λ r. record db { events = r ∷ db.events }) row)

pub create_schedule_event-ok :
    (event_type : String) (key : DedupKey) (p : Option Payload) (version : ℕ) (due : Option ℕ)
    (i at : ℕ) (e : OutboxEvent) (db db' : Db)
    → create_schedule_event event_type key p version due i at db ≡ ok (e, db')
    → db' ≡ record db { events = e ∷ db.events }
unfolding create_schedule_event
create_schedule_event-ok event_type key p version due i at e db db' h =
    let (_, _, h₁) = bind-ok (check_payload_size (payload_or_empty p)) _ h in
    let (canonical, _, h₂) =
      bind-ok (validate_payload event_type version (payload_or_empty p)) _ h₁ in
    insert_pair-ok _ e db db' h₂

-- A maintenance event is one more row of the outbox.
pub create_maintenance_event-ok :
    (event_type : String) (run_id : ℕ) (key : DedupKey) (due : Option ℕ) (i at : ℕ)
    (e : OutboxEvent) (db db' : Db)
    → create_maintenance_event event_type run_id key due i at db ≡ ok (e, db')
    → db' ≡ record db { events = e ∷ db.events }
unfolding create_maintenance_event
create_maintenance_event-ok event_type run_id key due i at e db db' h =
    let (version, _, h₁) =
      bind-ok
        (or_raise (maintenance_event_version event_type)
          (contract "unknown maintenance event type"))
        _ h in
    create_schedule_event-ok event_type key (some (maintenance_payload run_id)) version due i at e
      db db' h₁
