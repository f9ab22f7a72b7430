-- ===== src/Coordinator/Cycle/Validity.antt =====
-- The publication of a cycle keeps every job in agreement with its attempt ledger.
use app_template.Prelude.{
  ℕ, suc, ◌-◌, String, Bool, true, false, ◌&&◌, ◌||◌, not, Option, some, List, [], ◌∷◌, ◌==◌, inl,
  inr, Bool-cases, str_eq, if◌then◌else◌, opt_eq, Option-cases,
}
use app_template.Models.Outbox.{OutboxEvent, is_publishing}
use app_template.Database.{Db, Env, put_event, find_event}
use app_template.Outbox.Contracts.{event_type_job_dispatch}
use app_template.Jobs.Invariant.{IsValid}
use app_template.Jobs.Invariant.Settling.{settle_dead_initial_dispatch-IsValid}
use app_template.Coordinator.Claims.{
  ClaimedEvent, claim_rows, claim_due_events, reclaim_stale_claims, claimed_event, reclaimed_event,
}
use app_template.Coordinator.Queries.{due_outbox_events, stale_claim_events}
use app_template.Coordinator.Settlement.{
  settle_published, release_claim, settle_dead, bury, dead_event,
}
use app_template.Coordinator.Publication.{PublishOutcome, publish_event}
use app_template.Coordinator.Cycle.{
  Cycle, World, Settings, settle_outcome, handle_claimed, handle_all, stale_phase, fresh_phase,
  publication,
}

bury-IsValid :
    (env : Env) (error : String) (e : OutboxEvent) (db : Db)
    → IsValid db
    → IsValid (bury env error e db)
unfolding bury
bury-IsValid env error e db v = elim (Bool-cases (str_eq e.event_type event_type_job_dispatch)) [
  | inl y ↦ rw y (
      settle_dead_initial_dispatch-IsValid env e.id e.aggregate_id e.organisation_id
        (record db { events = put_event (dead_event env.now error e) db.events }) v)
  | inr n ↦ rw n v
]

settle_dead-IsValid :
    (env : Env) (k t : ℕ) (error : String) (db : Db)
    → IsValid db
    → IsValid (settle_dead env k t error db).1
unfolding settle_dead
settle_dead-IsValid env k t error db v = elim (Option-cases (find_event k db.events)) [
  | inl e ↦ rw e v
  | inr (x, e) ↦
      elim (Bool-cases (not (is_publishing x.status) || not (opt_eq x.claim_token (some t)))) [
        | inl y ↦ rw e (rw y v)
        | inr n ↦ rw e (rw n (bury-IsValid env error x db v))
      ]
]

claim_rows-IsValid :
    (change : ℕ → OutboxEvent → OutboxEvent) (draw : ℕ → ℕ) (n : ℕ) (rows : List OutboxEvent)
    (db : Db)
    → IsValid db
    → IsValid (claim_rows change draw n rows db).1
unfolding claim_rows
claim_rows-IsValid change draw n [] db v = v
claim_rows-IsValid change draw n (e ∷ rows) db v =
    claim_rows-IsValid change draw (suc n) rows
      (record db { events = put_event (change (draw n) e) db.events }) v

claim_due_events-IsValid :
    (is_locked : ℕ → Bool) (draw : ℕ → ℕ) (limit now : ℕ) (db : Db)
    → IsValid db
    → IsValid (claim_due_events is_locked draw limit now db).1
unfolding claim_due_events
claim_due_events-IsValid is_locked draw limit now db v =
    claim_rows-IsValid (claimed_event now) draw 0 (due_outbox_events is_locked now limit db.events)
      db v

reclaim_stale_claims-IsValid :
    (is_locked : ℕ → Bool) (draw : ℕ → ℕ) (claimed_before limit now : ℕ) (db : Db)
    → IsValid db
    → IsValid (reclaim_stale_claims is_locked draw claimed_before limit now db).1
unfolding reclaim_stale_claims
reclaim_stale_claims-IsValid is_locked draw claimed_before limit now db v =
    claim_rows-IsValid (reclaimed_event now) draw 0
      (stale_claim_events is_locked claimed_before limit db.events) db v

settle_outcome-IsValid :
    (w : World) (cfg : Settings) (n : ℕ) (c : ClaimedEvent) (o : PublishOutcome)
    (error : Option String) (db : Db)
    → IsValid db
    → IsValid (settle_outcome w cfg n c o error db).1
unfolding settle_outcome settle_published release_claim
settle_outcome-IsValid w cfg n c PublishOutcome.published error db v = v
settle_outcome-IsValid w cfg n c PublishOutcome.dead error db v =
    settle_dead-IsValid (w.settling n) c.event.id c.claim_token _ db v
settle_outcome-IsValid w cfg n c PublishOutcome.transient error db v = v

module _ (w : World) (cfg : Settings)
    (before_keeps : (n : ℕ) (db : Db) → IsValid db → IsValid (w.before n db))
    (meanwhile_keeps : (n : ℕ) (db : Db) → IsValid db → IsValid (w.meanwhile n db)) where
  handle_claimed-IsValid :
      (n : ℕ) (c : ClaimedEvent) (s : Cycle)
      → IsValid s.db
      → IsValid (handle_claimed w cfg n c s).db
  unfolding handle_claimed
  handle_claimed-IsValid n c s v =
      let out =
        publish_event (w.is_reachable n) (w.accepts n) w.targets c.event (w.before n s.db) in
      settle_outcome-IsValid w cfg n c out.0 out.1 (w.meanwhile n (w.before n s.db))
        (meanwhile_keeps n (w.before n s.db) (before_keeps n s.db v))

  if_keeps :
      (b : Bool) (x y : Cycle) → IsValid x.db → IsValid y.db → IsValid (if b then x else y).db
  if_keeps true x y p q = p
  if_keeps false x y p q = q

  handle_all-IsValid :
      (n : ℕ) (cs : List ClaimedEvent) (s : Cycle)
      → IsValid s.db
      → IsValid (handle_all w cfg n cs s).db
  unfolding handle_all
  handle_all-IsValid n [] s v = v
  handle_all-IsValid n (c ∷ cs) s v =
      if_keeps (w.shutdown n) s (handle_all w cfg (suc n) cs (handle_claimed w cfg n c s)) v (
        handle_all-IsValid (suc n) cs (handle_claimed w cfg n c s) (handle_claimed-IsValid n c s v))

  stale_phase-IsValid : (db : Db) → IsValid db → IsValid (stale_phase w cfg db).1.db
  unfolding stale_phase
  stale_phase-IsValid db v = handle_all-IsValid 0 _ _ (reclaim_stale_claims-IsValid _ _ _ _ _ db v)

  fresh_phase-IsValid : (k : ℕ) (s : Cycle) → IsValid s.db → IsValid (fresh_phase w cfg k s).db
  unfolding fresh_phase
  fresh_phase-IsValid k s v =
      if_keeps (not (cfg.batch_size - k == 0) && not w.stop_before_claim) _ s
        (handle_all-IsValid k _ _ (claim_due_events-IsValid _ _ _ _ s.db v)) v

-- A cycle publishes, settles and releases without ever leaving a job at odds with its ledger, the
-- jobs that it fails behind dead events included, if the other processes keep that too.
pub publication-IsValid :
    (w : World) (cfg : Settings) (db : Db)
    → ((n : ℕ) (d : Db) → IsValid d → IsValid (w.before n d))
    → ((n : ℕ) (d : Db) → IsValid d → IsValid (w.meanwhile n d))
    → IsValid db
    → IsValid (publication w cfg db).db
unfolding publication
publication-IsValid w cfg db before meanwhile v =
    if_keeps w cfg before meanwhile w.stop_at_start _ _ v (
      fresh_phase-IsValid w cfg before meanwhile (stale_phase w cfg db).0 (stale_phase w cfg db).1
        (stale_phase-IsValid w cfg before meanwhile db v))
