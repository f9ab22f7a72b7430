-- ===== src/Coordinator/Settlement.antt =====
-- backend/app/job_coordinator/loop.py: the three owner-checked settlements of a claimed event.
-- Each returns whether this coordinator still owned the row. `now` is the database's clock.
use app_template.Prelude.{
  ℕ, suc, zero, ◌+◌, String, Bool, true, false, ◌&&◌, ◌||◌, not, Option, none, some, ◌==◌, opt_eq,
  str_eq, update_first, if◌then◌else◌,
}
use app_template.Models.Outbox.{OutboxEvent, OutboxEventStatus, is_publishing}
use app_template.Database.{Db, Env, any, find_event, put_event}
use app_template.Outbox.Contracts.{event_type_job_dispatch}
use app_template.Jobs.Settle.{settle_dead_initial_dispatch}

abbrev pub max_error_chars : ℕ
max_error_chars = 500

-- `error[:n]`
abbrev pub first_chars : ℕ → String → String
first_chars zero s = ""
first_chars (suc n) String.[] = String.[]
first_chars (suc n) (String.◌∷◌ c s) = String.◌∷◌ c (first_chars n s)

-- The ownership predicate of the conditional updates.
unfoldable pub is_owned : (event_id claim_token : ℕ) → OutboxEvent → Bool
is_owned event_id claim_token e =
    e.id == event_id && (is_publishing e.status && opt_eq e.claim_token (some claim_token))

unfoldable pub published_event : (now : ℕ) → OutboxEvent → OutboxEvent
published_event now e = record e {
  status = OutboxEventStatus.published;
  processed_at = some now;
  claimed_at = none;
  claim_token = none;
}

-- One `UPDATE`: the identifier is the primary key, so it affects one row at most.
unfoldable pub settle_published : (now event_id claim_token : ℕ) → Db → Bool × Db
settle_published now event_id claim_token db = (
  any (is_owned event_id claim_token) db.events,
  record db {
    events = update_first (is_owned event_id claim_token) (published_event now) db.events;
  },
)

unfoldable pub released_event : (due : ℕ) → OutboxEvent → OutboxEvent
released_event due e = record e {
  status = OutboxEventStatus.pending;
  available_at = due;
  claimed_at = none;
  claim_token = none;
}

unfoldable pub release_claim : (now event_id claim_token retry_after_delay : ℕ) → Db → Bool × Db
release_claim now event_id claim_token delay db = (
  any (is_owned event_id claim_token) db.events,
  record db {
    events = update_first (is_owned event_id claim_token) (released_event (now + delay)) db.events;
  },
)

unfoldable pub dead_event : (now : ℕ) (error : String) → OutboxEvent → OutboxEvent
dead_event now error e = record e {
  status = OutboxEventStatus.dead;
  last_error = some (first_chars max_error_chars error);
  processed_at = some now;
  claimed_at = none;
  claim_token = none;
}

-- The dead event and, for a job dispatch, the never-claimed job behind it, in one transaction.
unfoldable pub bury : Env → (error : String) → OutboxEvent → Db → Db
bury env error e db =
    let buried = record db { events = put_event (dead_event env.now error e) db.events } in
    if str_eq e.event_type event_type_job_dispatch
    then (settle_dead_initial_dispatch env e.id e.aggregate_id e.organisation_id buried).1
    else buried

abbrev bury_owned : Env → (claim_token : ℕ) (error : String) → Option OutboxEvent → Db → Bool × Db
bury_owned env claim_token error none db = (false, db)
bury_owned env claim_token error (some e) db =
    if not (is_publishing e.status) || not (opt_eq e.claim_token (some claim_token))
    then (false, db)
    else (true, bury env error e db)

unfoldable pub settle_dead : Env → (event_id claim_token : ℕ) (error : String) → Db → Bool × Db
settle_dead env event_id claim_token error db =
    bury_owned env claim_token error (find_event event_id db.events) db
