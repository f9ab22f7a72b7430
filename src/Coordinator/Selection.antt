-- ===== src/Coordinator/Selection.antt =====
-- What the candidate queries select, and what a claim of the selected rows leaves.
use app_template.Prelude.{
  ℕ, suc, Bool, true, false, not, some, List, [], ◌∷◌, ◌==◌, ◌≡◌, refl, sym, ◌∙◌, ap, subst, arith,
  length, length-take-min, length-keep-sort_by, min, take, keep, sort_by,
}
use app_template.Prelude.All.{All, All-zip, All-keep, All-take, All-sort_by}
use app_template.Models.Outbox.{OutboxEvent}
use app_template.Database.{Db, any, find_event, put_event, find_event-put}
use app_template.Database.Keys.{
  AreKeyed, AreKeyed-keep, AreKeyed-take, AreKeyed-sort_by, AreKeyed-put, has_id, rows_are_found,
  none_has,
}
use app_template.Coordinator.Claims.{ClaimedEvent, claim_rows}
use app_template.Coordinator.OwnedRows.{put_event-effect}

-- A row of the table that meets the query's test and that no other transaction holds.
abbrev pub IsCandidate :
    (OutboxEvent → Bool) → (is_locked : ℕ → Bool) → List OutboxEvent → OutboxEvent → Type 0
IsCandidate test is_locked events e =
    (find_event e.id events ≡ some e) × (test e ≡ true) × (is_locked e.id ≡ false)

module _ (test : OutboxEvent → Bool) (after : OutboxEvent → OutboxEvent → Bool)
    (is_locked : ℕ → Bool) (limit : ℕ) (events : List OutboxEvent) (keyed : AreKeyed events) where
  unfoldable pub selected : List OutboxEvent
  selected = take limit (keep (λ e. not (is_locked e.id)) (sort_by after (keep test events)))

  pub selected-All : All (IsCandidate test is_locked events) selected
  unfolding selected
  selected-All = All-take (IsCandidate test is_locked events) limit _ (
      All-keep (λ e. not (is_locked e.id)) (λ e h n. (h.0, h.1, ground (arith, n))) _
        (All-sort_by (λ e. (find_event e.id events ≡ some e) × (test e ≡ true)) after _
          (All-keep test (λ e h y. (h, y)) events (rows_are_found events keyed))))

  pub selected-length :
      length selected ≡ min limit (length (keep (λ e. not (is_locked e.id)) (keep test events)))
  unfolding selected
  selected-length =
      length-take-min limit _
      ∙ ap (min limit) (length-keep-sort_by (λ e. not (is_locked e.id)) after (keep test events))

  pub selected-AreKeyed : AreKeyed selected
  unfolding selected
  selected-AreKeyed = AreKeyed-take limit _ (
      AreKeyed-keep (λ e. not (is_locked e.id)) _
        (AreKeyed-sort_by after _ (AreKeyed-keep test events keyed)))

module _ (change : ℕ → OutboxEvent → OutboxEvent) (draw : ℕ → ℕ)
    (keeps : (t : ℕ) (e : OutboxEvent) → (change t e).id ≡ e.id) where
  written_other :
      (n k : ℕ) (e : OutboxEvent) (es : List OutboxEvent)
      → (e.id == k) ≡ false
      → find_event k (put_event (change n e) es) ≡ find_event k es
  written_other n k e es h = ground (arith, find_event-put k (change n e) es, keeps n e)

  written_self :
      (n : ℕ) (e : OutboxEvent) (es : List OutboxEvent)
      → find_event e.id es ≡ some e
      → find_event (change n e).id (put_event (change n e) es) ≡ some (change n e)
  written_self n e es found =
      subst (λ i. find_event i (put_event (change n e) es) ≡ some (change n e)) (sym (keeps n e))
        (put_event-effect e.id e (change n e) es found (keeps n e)).0

  claim_rows-other :
      (n k : ℕ) (rows : List OutboxEvent) (db : Db)
      → any (has_id k) rows ≡ false
      → find_event k (claim_rows change draw n rows db).1.events ≡ find_event k db.events
  unfolding claim_rows
  claim_rows-other n k [] db h = refl
  claim_rows-other n k (e ∷ rows) db h =
      claim_rows-other (suc n) k rows
        (record db { events = put_event (change (draw n) e) db.events }) (ground arith)
      ∙ written_other (draw n) k e db.events (ground arith)

  pub claim_rows-length :
      (n : ℕ) (rows : List OutboxEvent) (db : Db)
      → length (claim_rows change draw n rows db).0 ≡ length rows
  unfolding claim_rows
  claim_rows-length n [] db = refl
  claim_rows-length n (e ∷ rows) db = ap suc (
      claim_rows-length (suc n) rows
        (record db { events = put_event (change (draw n) e) db.events }))

  pub claim_rows-AreKeyed :
      (n : ℕ) (rows : List OutboxEvent) (db : Db)
      → AreKeyed db.events
      → AreKeyed (claim_rows change draw n rows db).1.events
  unfolding claim_rows
  claim_rows-AreKeyed n [] db h = h
  claim_rows-AreKeyed n (e ∷ rows) db h =
      claim_rows-AreKeyed (suc n) rows
        (record db { events = put_event (change (draw n) e) db.events })
        (AreKeyed-put (change (draw n) e) db.events h)

  module _ (P : OutboxEvent → Type 0) where
    -- A claimed row is the changed row of a selected one, under the token that comes with it.
    abbrev pub IsClaim : Db → ClaimedEvent → Type 0
    IsClaim after c =
        (e : OutboxEvent) × P e
        × (c.event ≡ change c.claim_token e)
        × (find_event c.event.id after.events ≡ some c.event)

    pub claim_rows-All :
        (n : ℕ) (rows : List OutboxEvent) (db : Db)
        → AreKeyed rows
        → All (λ e. (find_event e.id db.events ≡ some e) × P e) rows
        → All (IsClaim (claim_rows change draw n rows db).1) (claim_rows change draw n rows db).0
    unfolding claim_rows
    claim_rows-All n [] db k h = tt
    claim_rows-All n (e ∷ rows) db (new, k) ((found, p), h) =
        let db' : Db = record db { events = put_event (change (draw n) e) db.events } in
        let same = keeps (draw n) e in
        (
          (
            e,
            p,
            refl,
            claim_rows-other (suc n) (change (draw n) e).id rows db'
                  (subst (λ i. any (has_id i) rows ≡ false) (sym same) new)
                ∙ written_self (draw n) e db.events found,
          ),
          claim_rows-All (suc n) rows db' k (
              All-zip
                (λ r away rest. (written_other (draw n) r.id e db.events away ∙ rest.0, rest.1))
                rows (none_has e.id rows new) h),
        )
