-- ===== src/Coordinator/Claiming.antt =====
-- The two claims of a cycle: which rows they take, under which tokens, and what becomes of the
-- tokens that they replace.
use app_template.Prelude.{
  ℕ, ◌+◌, ◌≤◌, Bool, true, false, not, some, List, ◌≡◌, ◌≢◌, refl, ◌∙◌, ap, subst, arith, length,
  length-take, keep, sort_by, min, ltb,
}
use app_template.Prelude.All.{All, All-imp, All-Mem}
use mathlib.Core.List.{Memᴰ}
use app_template.Models.Outbox.{OutboxEvent, OutboxEventStatus}
use app_template.Database.{Db, find_event}
use app_template.Database.Keys.{AreKeyed}
use app_template.Coordinator.Queries.{
  due_outbox_events, stale_claim_events, is_due, is_stale_claim, later, time_or_zero,
}
use app_template.Coordinator.Claims.{
  ClaimedEvent, claim_rows, claimed_event, reclaimed_event, claim_due_events, reclaim_stale_claims,
}
use app_template.Coordinator.Fencing.{Settlement, settle, settle-unowned}
use app_template.Coordinator.Selection.{
  IsCandidate, selected, selected-All, selected-length, selected-AreKeyed, claim_rows-All,
  claim_rows-length, claim_rows-AreKeyed,
}

claimed_id : (now t : ℕ) (e : OutboxEvent) → (claimed_event now t e).id ≡ e.id
unfolding claimed_event
claimed_id now t e = refl

reclaimed_id : (now t : ℕ) (e : OutboxEvent) → (reclaimed_event now t e).id ≡ e.id
unfolding reclaimed_event
reclaimed_id now t e = refl

-- A claim takes as many rows as its limit at most.
pub claim_due_events-length :
    (is_locked : ℕ → Bool) (draw : ℕ → ℕ) (limit now : ℕ) (db : Db)
    → length (claim_due_events is_locked draw limit now db).0 ≤ limit
unfolding claim_due_events due_outbox_events
claim_due_events-length is_locked draw limit now db = omega (
  arith,
  claim_rows-length (claimed_event now) draw (claimed_id now) 0
      (due_outbox_events is_locked now limit db.events) db,
  length-take limit (
      keep (λ e. not (is_locked e.id))
        (sort_by (λ a b. later (a.available_at, a.id) (b.available_at, b.id))
          (keep (is_due now) db.events))),
)

pub reclaim_stale_claims-length :
    (is_locked : ℕ → Bool) (draw : ℕ → ℕ) (claimed_before limit now : ℕ) (db : Db)
    → length (reclaim_stale_claims is_locked draw claimed_before limit now db).0 ≤ limit
unfolding reclaim_stale_claims stale_claim_events
reclaim_stale_claims-length is_locked draw claimed_before limit now db = omega (
  arith,
  claim_rows-length (reclaimed_event now) draw (reclaimed_id now) 0
      (stale_claim_events is_locked claimed_before limit db.events) db,
  length-take limit (
      keep (λ e. not (is_locked e.id))
        (sort_by (λ a b. ltb (time_or_zero b.claimed_at) (time_or_zero a.claimed_at))
          (keep (is_stale_claim claimed_before) db.events))),
)

-- What a claim at `now` makes of row `e`: it is `publishing` under the returned token since then,
-- with one attempt more, and all else in it stays.
abbrev pub IsTaken : (now : ℕ) → OutboxEvent → ClaimedEvent → Type 0
IsTaken now e c = c.event ≡ record e {
  status = OutboxEventStatus.publishing;
  claimed_at = some now;
  claim_token = some c.claim_token;
  attempt_count = e.attempt_count + 1;
}

-- What a claim at `now` of the rows that meet `test` guarantees.
pub record Claims (now : ℕ) (test : OutboxEvent → Bool) (is_locked : ℕ → Bool) (limit : ℕ)
    (before after : Db) (claimed : List ClaimedEvent) : Type 0 where
  pub rows :
      All
        (λ c.
          (e : OutboxEvent) × IsCandidate test is_locked before.events e
          × IsTaken now e c
          × (find_event c.event.id after.events ≡ some c.event))
        claimed
  pub count :
      length claimed
      ≡ min limit (length (keep (λ e. not (is_locked e.id)) (keep test before.events)))
  pub keyed : AreKeyed after.events

due_after : OutboxEvent → OutboxEvent → Bool
due_after a b = later (a.available_at, a.id) (b.available_at, b.id)

stale_after : OutboxEvent → OutboxEvent → Bool
stale_after a b = ltb (time_or_zero b.claimed_at) (time_or_zero a.claimed_at)

-- The claim of a selection.
module _ (change : ℕ → OutboxEvent → OutboxEvent)
    (keeps : (t : ℕ) (e : OutboxEvent) → (change t e).id ≡ e.id) (test : OutboxEvent → Bool)
    (after : OutboxEvent → OutboxEvent → Bool) (is_locked : ℕ → Bool) (draw : ℕ → ℕ) (limit now : ℕ)
    (db : Db) (keyed : AreKeyed db.events)
    (takes : (t : ℕ) (e : OutboxEvent)
      → test e ≡ true
      → IsTaken now e (record { event = change t e; claim_token = t })) where
  rows : List OutboxEvent
  rows = selected test after is_locked limit db.events keyed

  selection-Claims :
      Claims now test is_locked limit db
        (claim_rows change draw 0 rows db).1
        (claim_rows change draw 0 rows db).0
  unfolding rows
  selection-Claims = record {
    rows =
        All-imp (λ c h. (h.0, h.1, h.2 ∙ takes c.claim_token h.0 h.1.1, h.3)) _
          (claim_rows-All change draw keeps (IsCandidate test is_locked db.events) 0 rows db
            (selected-AreKeyed test after is_locked limit db.events keyed)
            (All-imp (λ e h. (h.0, h)) rows
              (selected-All test after is_locked limit db.events keyed)));
    count =
        claim_rows-length change draw keeps 0 rows db
        ∙ selected-length test after is_locked limit db.events keyed;
    keyed = claim_rows-AreKeyed change draw keeps 0 rows db keyed;
  }

claimed_event-IsTaken :
    (now t : ℕ) (e : OutboxEvent)
    → is_due now e ≡ true
    → IsTaken now e (record { event = claimed_event now t e; claim_token = t })
unfolding claimed_event
claimed_event-IsTaken now t e due = refl

stale_status :
    (before : ℕ) (e : OutboxEvent)
    → is_stale_claim before e ≡ true
    → e.status ≡ OutboxEventStatus.publishing
stale_status before e h = ground arith

reclaimed_event-IsTaken :
    (before now t : ℕ) (e : OutboxEvent)
    → is_stale_claim before e ≡ true
    → IsTaken now e (record { event = reclaimed_event now t e; claim_token = t })
unfolding reclaimed_event
reclaimed_event-IsTaken before now t e stale =
    ap
      (λ s. record e {
        status = s;
        claimed_at = some now;
        claim_token = some t;
        attempt_count = e.attempt_count + 1;
      })
      (stale_status before e stale)

claim_due_events-Claims :
    (is_locked : ℕ → Bool) (draw : ℕ → ℕ) (limit now : ℕ) (db : Db)
    → AreKeyed db.events
    → Claims now
        (is_due now)
        is_locked
        limit
        db
        (claim_due_events is_locked draw limit now db).1
        (claim_due_events is_locked draw limit now db).0
unfolding claim_due_events due_outbox_events selected rows due_after
claim_due_events-Claims is_locked draw limit now db keyed =
    selection-Claims (claimed_event now) (claimed_id now) (is_due now) due_after is_locked draw
      limit now db keyed (claimed_event-IsTaken now)

reclaim_stale_claims-Claims :
    (is_locked : ℕ → Bool) (draw : ℕ → ℕ) (claimed_before limit now : ℕ) (db : Db)
    → AreKeyed db.events
    → Claims now
        (is_stale_claim claimed_before)
        is_locked
        limit
        db
        (reclaim_stale_claims is_locked draw claimed_before limit now db).1
        (reclaim_stale_claims is_locked draw claimed_before limit now db).0
unfolding reclaim_stale_claims stale_claim_events selected rows stale_after
reclaim_stale_claims-Claims is_locked draw claimed_before limit now db keyed =
    selection-Claims (reclaimed_event now) (reclaimed_id now) (is_stale_claim claimed_before)
      stale_after is_locked draw limit now db keyed (reclaimed_event-IsTaken claimed_before now)

-- The two claims of a cycle. The claim of due events takes only rows that are pending, due and not
-- locked by another coordinator; the reclaim takes only `publishing` rows whose claim is older than
-- the bound and which no other coordinator has locked. Each takes as many of those as its batch has
-- room for. A row that is taken comes back, and stands in the table, `publishing` under the token
-- that is returned with it, claimed at this time, with one attempt more and all else as it was; the
-- identifiers of the table stay distinct.
pub batches_are_taken :
    (is_locked : ℕ → Bool) (draw draw₂ : ℕ → ℕ) (claimed_before limit now : ℕ) (due stale : Db)
    → AreKeyed due.events
    → AreKeyed stale.events
    → Claims now
        (is_due now)
        is_locked
        limit
        due
        (claim_due_events is_locked draw limit now due).1
        (claim_due_events is_locked draw limit now due).0
      × Claims now
          (is_stale_claim claimed_before)
          is_locked
          limit
          stale
          (reclaim_stale_claims is_locked draw₂ claimed_before limit now stale).1
          (reclaim_stale_claims is_locked draw₂ claimed_before limit now stale).0
batches_are_taken is_locked draw draw₂ claimed_before limit now due stale keyed keyed₂ = (
  claim_due_events-Claims is_locked draw limit now due keyed,
  reclaim_stale_claims-Claims is_locked draw₂ claimed_before limit now stale keyed₂,
)

-- After a reclaim, the coordinator that claimed the row before cannot settle it: no settlement
-- under another token than the one drawn for the row does anything.
pub reclaimed_is_superseded :
    (is_locked : ℕ → Bool) (draw : ℕ → ℕ) (claimed_before limit now : ℕ) (db : Db)
    (c : ClaimedEvent) (s : Settlement) (delay t : ℕ)
    → AreKeyed db.events
    → Memᴰ c (reclaim_stale_claims is_locked draw claimed_before limit now db).0
    → t ≢ c.claim_token
    → settle s delay c.event.id t
        (reclaim_stale_claims is_locked draw claimed_before limit now db).1
      ≡ (false, (reclaim_stale_claims is_locked draw claimed_before limit now db).1)
reclaimed_is_superseded is_locked draw claimed_before limit now db c s delay t keyed here other =
    let claims = reclaim_stale_claims-Claims is_locked draw claimed_before limit now db keyed in
    let (e, candidate, changed, found) = All-Mem _ here claims.rows in
    let token = ap (λ (r : OutboxEvent). r.claim_token) changed in
    settle-unowned s delay c.event.id t _ claims.keyed λ r own.
      let same : c.event ≡ r = (let first = found in let second = own.0 in cc) in
      other (
        let again : r.claim_token ≡ some c.claim_token =
          subst (λ (x : OutboxEvent). x.claim_token ≡ some c.claim_token) same token in
        let mine = own.2 in cc)
