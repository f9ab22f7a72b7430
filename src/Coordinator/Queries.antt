-- ===== src/Coordinator/Queries.antt =====
-- backend/app/modules/outbox/queries.py: the candidate queries of the coordinator. `is_locked`
-- tells the rows that another transaction holds, which `SKIP LOCKED` passes over; where SQL leaves
-- the order of equal rows open, the order of the table decides.
use app_template.Prelude.{
  ℕ, Bool, false, ◌&&◌, ◌||◌, not, Option, none, some, List, ltb, leb, ◌==◌, take, keep, sort_by,
}
use app_template.Models.Outbox.{OutboxEvent, is_pending, is_publishing, is_published}

-- A comparison with a nullable column is not met by NULL.
abbrev pub some_before : Option ℕ → ℕ → Bool
some_before none bound = false
some_before (some t) bound = ltb t bound

abbrev pub some_until : Option ℕ → ℕ → Bool
some_until none bound = false
some_until (some t) bound = leb t bound

abbrev pub later : (ℕ × ℕ) → (ℕ × ℕ) → Bool
later (a, i) (b, j) = ltb b a || (a == b && ltb j i)

abbrev pub time_or_zero : Option ℕ → ℕ
time_or_zero none = 0
time_or_zero (some t) = t

abbrev pub is_due : ℕ → OutboxEvent → Bool
is_due at e = is_pending e.status && leb e.available_at at

unfoldable pub due_outbox_events :
    (is_locked : ℕ → Bool) (at_or_before limit : ℕ) → List OutboxEvent → List OutboxEvent
due_outbox_events is_locked at limit events = take limit (
    keep (λ e. not (is_locked e.id))
      (sort_by (λ a b. later (a.available_at, a.id) (b.available_at, b.id))
        (keep (is_due at) events)))

abbrev pub is_stale_claim : ℕ → OutboxEvent → Bool
is_stale_claim claimed_before e = is_publishing e.status && some_before e.claimed_at claimed_before

unfoldable pub stale_claim_events :
    (is_locked : ℕ → Bool) (claimed_before limit : ℕ) → List OutboxEvent → List OutboxEvent
stale_claim_events is_locked claimed_before limit events = take limit (
    keep (λ e. not (is_locked e.id))
      (sort_by (λ a b. ltb (time_or_zero b.claimed_at) (time_or_zero a.claimed_at))
        (keep (is_stale_claim claimed_before) events)))

abbrev pub is_past_retention : ℕ → OutboxEvent → Bool
is_past_retention created_before e = is_published e.status && ltb e.created_at created_before

unfoldable pub published_events_retention :
    (is_locked : ℕ → Bool) (created_before limit : ℕ) → List OutboxEvent → List OutboxEvent
published_events_retention is_locked created_before limit events = take limit (
    keep (λ e. not (is_locked e.id))
      (sort_by (λ a b. ltb b.created_at a.created_at)
        (keep (is_past_retention created_before) events)))
