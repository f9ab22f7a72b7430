-- ===== src/Coordinator/OwnedRows.antt =====
-- What the ownership predicate of the conditional updates selects, and what the updates change.
use app_template.Prelude.{
  ℕ, String, true, false, ◌&&◌, Option, none, some, List, [], ◌∷◌, ◌==◌, ◌≡◌, ◌≢◌, refl, sym, ◌∙◌,
  ap, subst, arith, inl, inr, opt_eq, Bool-cases, ==→eq, str_eq, update_first, if◌then◌else◌,
}
use app_template.Models.Jobs.{Job}
use app_template.Models.Outbox.{OutboxEvent, is_publishing}
use app_template.Database.{
  Db, Env, any, find_job, find_event, put_event, find_event-put, find_event-id,
}
use app_template.Database.Keys.{AreKeyed, has_id}
use app_template.Outbox.Contracts.{event_type_job_dispatch}
use app_template.Jobs.Failure.{fail_locked, run_exhaustion_hook}
use app_template.Jobs.Settle.{settle_dead_initial_dispatch, fail_undelivered}
use app_template.Coordinator.Settlement.{is_owned, bury, dead_event}

module _ (k t : ℕ) where
  pub any_owned :
      (es : List OutboxEvent) → any (has_id k) es ≡ false → any (is_owned k t) es ≡ false
  unfolding is_owned
  any_owned [] h = refl
  any_owned (e ∷ es) h = ground (arith, any_owned es)

  found_first :
      (x e : OutboxEvent) (es : List OutboxEvent)
      → (x.id == k) ≡ true
      → find_event k (x ∷ es) ≡ some e
      → x ≡ e
  found_first x e es y found = ground arith

  found_later :
      (x e : OutboxEvent) (es : List OutboxEvent)
      → (x.id == k) ≡ false
      → find_event k (x ∷ es) ≡ some e
      → find_event k es ≡ some e
  found_later x e es n found = ground arith

  is_owned_self :
      (x : OutboxEvent)
      → (x.id == k) ≡ true
      → is_owned k t x ≡ (is_publishing x.status && opt_eq x.claim_token (some t))
  unfolding is_owned
  is_owned_self x y = rw y refl

  is_owned_other : (x : OutboxEvent) → (x.id == k) ≡ false → is_owned k t x ≡ false
  unfolding is_owned
  is_owned_other x n = rw n refl

  pub owned_first :
      (es : List OutboxEvent) (e : OutboxEvent)
      → AreKeyed es
      → find_event k es ≡ some e
      → any (is_owned k t) es ≡ (is_publishing e.status && opt_eq e.claim_token (some t))
  owned_first [] e h found = cc
  owned_first (x ∷ es) e (h, rest) found = elim (Bool-cases (x.id == k)) [
    | inl y ↦
        let none_else = any_owned es (subst (λ i. any (has_id i) es ≡ false) (==→eq x.id k y) h) in
        subst
          (λ r.
            any (is_owned k t) (x ∷ es) ≡ (is_publishing r.status && opt_eq r.claim_token (some t)))
          (found_first x e es y found) (ground (arith, none_else, is_owned_self x y))
    | inr n ↦ rw (is_owned_other x n) (owned_first es e rest (found_later x e es n found))
  ]

  pub owned_update :
      (f : OutboxEvent → OutboxEvent) (keeps : (x : OutboxEvent) → (f x).id ≡ x.id)
      (es : List OutboxEvent) (e : OutboxEvent)
      → find_event k es ≡ some e
      → (is_publishing e.status && opt_eq e.claim_token (some t)) ≡ true
      → (find_event k (update_first (is_owned k t) f es) ≡ some (f e))
        × ((i : ℕ) → i ≢ k → find_event i (update_first (is_owned k t) f es) ≡ find_event i es)
  owned_update f keeps [] e found own = cc
  owned_update f keeps (x ∷ es) e found own = elim (Bool-cases (x.id == k)) [
    | inl y ↦
        let same = found_first x e es y found in
        let mine : is_owned k t x ≡ true =
          is_owned_self x y
          ∙ subst (λ r. (is_publishing r.status && opt_eq r.claim_token (some t)) ≡ true) (sym same)
              own in
        rw mine (
          ap (λ b. if b then some (f x) else find_event k es) (ap (λ i. i == k) (keeps x) ∙ y)
              ∙ ap (λ r. some (f r)) same,
          λ i n. ground (arith, keeps x, ==→eq x.id k y),
        )
    | inr n ↦
        let (self, others) = owned_update f keeps es e (found_later x e es n found) own in
        rw (is_owned_other x n) (rw n self, λ i other. ground (arith, others i other))
  ]

-- What a buried event does to the outbox: nothing beyond its own row.
fail_undelivered-events :
    (env : Env) (i o : ℕ) (row : Option Job) (db : Db)
    → (fail_undelivered env i o row db).1.events ≡ db.events
unfolding fail_undelivered fail_locked run_exhaustion_hook
fail_undelivered-events env i o none db = refl
fail_undelivered-events env i o (some job) db = ground (arith)

settle_dead_initial_dispatch-events :
    (env : Env) (i : ℕ) (a o : Option ℕ) (db : Db)
    → (settle_dead_initial_dispatch env i a o db).1.events ≡ db.events
unfolding settle_dead_initial_dispatch
settle_dead_initial_dispatch-events env i none o db = refl
settle_dead_initial_dispatch-events env i (some k) none db = refl
settle_dead_initial_dispatch-events env i (some k) (some n) db =
    fail_undelivered-events env i n (find_job k db.jobs) db

pub bury-events :
    (env : Env) (error : String) (e : OutboxEvent) (db : Db)
    → (bury env error e db).events ≡ put_event (dead_event env.now error e) db.events
unfolding bury
bury-events env error e db = elim (Bool-cases (str_eq e.event_type event_type_job_dispatch)) [
  | inl y ↦ rw y (
      settle_dead_initial_dispatch-events env e.id e.aggregate_id e.organisation_id
        (record db { events = put_event (dead_event env.now error e) db.events }))
  | inr n ↦ rw n refl
]

pub put_event-effect :
    (k : ℕ) (e e' : OutboxEvent) (es : List OutboxEvent)
    → find_event k es ≡ some e
    → e'.id ≡ e.id
    → (find_event k (put_event e' es) ≡ some e')
      × ((i : ℕ) → i ≢ k → find_event i (put_event e' es) ≡ find_event i es)
put_event-effect k e e' es found same =
    let named = find_event-id k e es found in
    (ground (arith, find_event-put k e' es), λ i n. ground (arith, find_event-put i e' es))

pub not_found-none_has :
    (k : ℕ) (es : List OutboxEvent) → find_event k es ≡ none → any (has_id k) es ≡ false
not_found-none_has k [] h = refl
not_found-none_has k (e ∷ es) h = ground (arith, not_found-none_has k es)
