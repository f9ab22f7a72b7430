-- ===== src/Coordinator/Fencing.antt =====
-- The settlements of a claimed event under one name, and what the claim token protects.
use app_template.Prelude.{
  ℕ, ◌+◌, String, Bool, true, false, ◌&&◌, Option, none, some, ◌≡◌, ◌≢◌, ◌↔◌, refl, sym, ◌∙◌, ap,
  subst, arith, inl, inr, ◌⊎◌, opt_eq, Bool-cases, Option-cases, ==_refl,
}
use app_template.Models.Outbox.{OutboxEvent, OutboxEventStatus, is_publishing}
use app_template.Database.{Db, Env, any, find_event}
use app_template.Database.Keys.{AreKeyed, AreKeyed-update, AreKeyed-put, update_first-none}
use app_template.Coordinator.Settlement.{
  is_owned, settle_published, release_claim, settle_dead, bury, published_event, released_event,
  dead_event,
}
use app_template.Coordinator.OwnedRows.{
  any_owned, owned_first, owned_update, bury-events, put_event-effect, not_found-none_has,
}

-- What a coordinator decides about an event that it claimed.
pub data Settlement : Type 0 where
  publishes releases : (now : ℕ) → Settlement
  kills : (env : Env) (error : String) → Settlement

abbrev pub settle : Settlement → (delay event_id claim_token : ℕ) → Db → Bool × Db
settle (Settlement.publishes now) delay k t db = settle_published now k t db
settle (Settlement.releases now) delay k t db = release_claim now k t delay db
settle (Settlement.kills env error) delay k t db = settle_dead env k t error db

-- The row after the settlement.
abbrev pub settled : Settlement → (delay : ℕ) → OutboxEvent → OutboxEvent
settled (Settlement.publishes now) delay e = published_event now e
settled (Settlement.releases now) delay e = released_event (now + delay) e
settled (Settlement.kills env error) delay e = dead_event env.now error e

-- The coordinator that holds the token still owns the row.
abbrev pub Owns : (event_id claim_token : ℕ) → OutboxEvent → Db → Type 0
Owns k t e db =
    (find_event k db.events ≡ some e)
    × (e.status ≡ OutboxEventStatus.publishing)
    × (e.claim_token ≡ some t)

settle-unowned_row :
    (s : Settlement) (delay k t : ℕ) (db : Db) (o : Option OutboxEvent)
    → find_event k db.events ≡ o
    → any (is_owned k t) db.events ≡ false
    → ((e : OutboxEvent)
        → o ≡ some e
        → (is_publishing e.status && opt_eq e.claim_token (some t)) ≡ false)
    → settle s delay k t db ≡ (false, db)
unfolding settle_published release_claim settle_dead
settle-unowned_row (Settlement.publishes now) delay k t db o eq none_owned h =
    rw (none_owned, update_first-none (is_owned k t) (published_event now) db.events none_owned)
      refl
settle-unowned_row (Settlement.releases now) delay k t db o eq none_owned h =
    rw
      (
        none_owned,
        update_first-none (is_owned k t) (released_event (now + delay)) db.events none_owned,
      )
      refl
settle-unowned_row (Settlement.kills env error) delay k t db none eq none_owned h = rw eq refl
settle-unowned_row (Settlement.kills env error) delay k t db (some e) eq none_owned h =
    rw eq (ground (arith, h e refl))

owned_test :
    (t : ℕ) (e : OutboxEvent)
    → (is_publishing e.status && opt_eq e.claim_token (some t)) ≡ true
    → (e.status ≡ OutboxEventStatus.publishing) × (e.claim_token ≡ some t)
owned_test t e h = ground arith

owner_test :
    (t : ℕ) (e : OutboxEvent)
    → e.status ≡ OutboxEventStatus.publishing
    → e.claim_token ≡ some t
    → (is_publishing e.status && opt_eq e.claim_token (some t)) ≡ true
owner_test t e active own = ground arith

settle_dead-owned :
    (env : Env) (k t : ℕ) (error : String) (e : OutboxEvent) (db : Db)
    → Owns k t e db
    → settle_dead env k t error db ≡ (true, bury env error e db)
unfolding settle_dead
settle_dead-owned env k t error e db (found, active, own) =
    rw found (ground (arith, active, own, ==_refl t))

owner_or_none :
    (k t : ℕ) (db : Db)
    → ((e : OutboxEvent) × Owns k t e db) ⊎ ((e : OutboxEvent) → ¬ Owns k t e db)
owner_or_none k t db = elim (Option-cases (find_event k db.events)) [
  | inl missing ↦ inr (λ e own. absurd (let there = own.0 in cc))
  | inr (e, found) ↦ elim (Bool-cases (is_publishing e.status && opt_eq e.claim_token (some t))) [
    | inl mine ↦ let (active, own) = owned_test t e mine in inl (e, (found, active, own))
    | inr lost ↦ inr (λ e' own.
        let same : e ≡ e' = (let there = own.0 in cc) in
        let test : (is_publishing e.status && opt_eq e.claim_token (some t)) ≡ true =
          subst
            (λ (r : OutboxEvent). (is_publishing r.status && opt_eq r.claim_token (some t)) ≡ true)
            (sym same) (owner_test t e' own.1 own.2) in
        cc)
  ]
]

not_owned-test :
    (k t : ℕ) (e : OutboxEvent) (db : Db)
    → find_event k db.events ≡ some e
    → ((r : OutboxEvent) → ¬ Owns k t r db)
    → (is_publishing e.status && opt_eq e.claim_token (some t)) ≡ false
not_owned-test k t e db found other =
    elim (Bool-cases (is_publishing e.status && opt_eq e.claim_token (some t))) [
      | inl mine ↦ let (active, own) = owned_test t e mine in absurd (other e (found, active, own))
      | inr lost ↦ lost
    ]

-- A settlement whose token the row no longer holds.
pub settle-unowned :
    (s : Settlement) (delay k t : ℕ) (db : Db)
    → AreKeyed db.events
    → ((e : OutboxEvent) → ¬ Owns k t e db)
    → settle s delay k t db ≡ (false, db)
settle-unowned s delay k t db keyed other = elim (Option-cases (find_event k db.events)) [
  | inl missing ↦
      settle-unowned_row s delay k t db none missing
        (any_owned k t db.events (not_found-none_has k db.events missing)) (λ e h. absurd cc)
  | inr (e, found) ↦
      settle-unowned_row s delay k t db (some e) found
        (owned_first k t db.events e keyed found ∙ not_owned-test k t e db found other)
        (λ e' h. not_owned-test k t e' db (found ∙ h) other)
]

-- A settlement by the owner.
pub settle-owned :
    (s : Settlement) (delay k t : ℕ) (e : OutboxEvent) (db : Db)
    → AreKeyed db.events
    → Owns k t e db
    → ((settle s delay k t db).0 ≡ true)
      × (find_event k (settle s delay k t db).1.events ≡ some (settled s delay e))
      × ((i : ℕ) → i ≢ k → find_event i (settle s delay k t db).1.events ≡ find_event i db.events)
unfolding settle_published release_claim settle_dead published_event released_event dead_event
settle-owned (Settlement.publishes now) delay k t e db keyed (found, active, own) =
    let test = owner_test t e active own in
    let (self, others) =
      owned_update k t (published_event now) (λ _. refl) db.events e found test in
    (owned_first k t db.events e keyed found ∙ test, self, others)
settle-owned (Settlement.releases now) delay k t e db keyed (found, active, own) =
    let test = owner_test t e active own in
    let (self, others) =
      owned_update k t (released_event (now + delay)) (λ _. refl) db.events e found test in
    (owned_first k t db.events e keyed found ∙ test, self, others)
settle-owned (Settlement.kills env error) delay k t e db keyed owns =
    let (self, others) = put_event-effect k e (dead_event env.now error e) db.events owns.0 refl in
    rw (settle_dead-owned env k t error e db owns)
      (rw (bury-events env error e db) (refl, self, others))

-- A claimed event is settled by the coordinator that still owns it and by no other: each of the
-- three settlements returns true exactly when the row is `publishing` under that claim token, and
-- where it returns false the tables are unchanged, a job behind the event included.
pub settle_iff :
    (s : Settlement) (delay k t : ℕ) (db : Db)
    → AreKeyed db.events
    → (((settle s delay k t db).0 ≡ true) ↔ ((e : OutboxEvent) × Owns k t e db))
      × (((settle s delay k t db).0 ≡ false) → (settle s delay k t db).1 ≡ db)
settle_iff s delay k t db keyed = elim (owner_or_none k t db) [
  | inl (e, owns) ↦
      let done : (settle s delay k t db).0 ≡ true = (settle-owned s delay k t e db keyed owns).0 in
      ((λ _. (e, owns), λ _. done), λ h. absurd (let both = done in cc))
  | inr other ↦
      let refused : settle s delay k t db ≡ (false, db) =
        settle-unowned s delay k t db keyed other in
      rw refused ((λ h. absurd cc, λ h. absurd (other h.0 h.1)), λ _. refl)
]

settled_token :
    (s : Settlement) (delay : ℕ) (e : OutboxEvent) → (settled s delay e).claim_token ≡ none
unfolding published_event released_event dead_event
settled_token (Settlement.publishes now) delay e = refl
settled_token (Settlement.releases now) delay e = refl
settled_token (Settlement.kills env error) delay e = refl

settle-AreKeyed :
    (s : Settlement) (delay k t : ℕ) (e : OutboxEvent) (db : Db)
    → AreKeyed db.events
    → Owns k t e db
    → AreKeyed (settle s delay k t db).1.events
unfolding settle_published release_claim published_event released_event dead_event
settle-AreKeyed (Settlement.publishes now) delay k t e db keyed owns =
    AreKeyed-update (is_owned k t) (published_event now) (λ _ _. refl) db.events keyed
settle-AreKeyed (Settlement.releases now) delay k t e db keyed owns =
    AreKeyed-update (is_owned k t) (released_event (now + delay)) (λ _ _. refl) db.events keyed
settle-AreKeyed (Settlement.kills env error) delay k t e db keyed owns =
    rw (settle_dead-owned env k t error e db owns)
      (rw (bury-events env error e db) (AreKeyed-put (dead_event env.now error e) db.events keyed))

-- A claim token settles once: after a settlement that returned true, no settlement of that event
-- under the same token does anything, whatever it decides.
pub settles_once :
    (s s' : Settlement) (delay delay' k t : ℕ) (db : Db)
    → AreKeyed db.events
    → (settle s delay k t db).0 ≡ true
    → settle s' delay' k t (settle s delay k t db).1 ≡ (false, (settle s delay k t db).1)
settles_once s s' delay delay' k t db keyed done =
    let (e, owns) = (settle_iff s delay k t db keyed).0.0 done in
    let row = (settle-owned s delay k t e db keyed owns).1 in
    settle-unowned s' delay' k t (settle s delay k t db).1
      (settle-AreKeyed s delay k t e db keyed owns)
      λ r own.
        let same : settled s delay e ≡ r = (let there = own.0 in let first = row in cc) in
        let token : (settled s delay e).claim_token ≡ some t =
          ap (λ (x : OutboxEvent). x.claim_token) same ∙ own.2 in
        let free = settled_token s delay e in absurd cc
