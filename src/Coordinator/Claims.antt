-- ===== src/Coordinator/Claims.antt =====
-- backend/app/job_coordinator/loop.py: claiming due events and reclaiming stale claims.
use app_template.Prelude.{ℕ, suc, ◌+◌, Bool, some, List, [], ◌∷◌}
use app_template.Models.Outbox.{OutboxEvent, OutboxEventStatus}
use app_template.Database.{Db, put_event}
use app_template.Coordinator.Queries.{due_outbox_events, stale_claim_events}

pub record ClaimedEvent : Type 0 where
  pub event : OutboxEvent
  pub claim_token : ℕ

-- The row of a fresh claim.
unfoldable pub claimed_event : (now token : ℕ) → OutboxEvent → OutboxEvent
claimed_event now token e = record e {
  status = OutboxEventStatus.publishing;
  claimed_at = some now;
  claim_token = some token;
  attempt_count = e.attempt_count + 1;
}

-- A reclaimed row stays `publishing`.
unfoldable pub reclaimed_event : (now token : ℕ) → OutboxEvent → OutboxEvent
reclaimed_event now token e = record e {
  claimed_at = some now;
  claim_token = some token;
  attempt_count = e.attempt_count + 1;
}

-- The loop over the selected rows: `draw n` is the n-th token that `_new_claim_token` returns.
unfoldable pub claim_rows :
    (change : ℕ → OutboxEvent → OutboxEvent) (draw : ℕ → ℕ) (n : ℕ)
    → List OutboxEvent
    → Db
    → List ClaimedEvent × Db
claim_rows change draw n [] db = ([], db)
claim_rows change draw n (e ∷ rows) db =
    let row = change (draw n) e in
    let (claimed, db') =
      claim_rows change draw (suc n) rows (record db { events = put_event row db.events }) in
    (record { event = row; claim_token = draw n } ∷ claimed, db')

unfoldable pub claim_due_events :
    (is_locked : ℕ → Bool) (draw : ℕ → ℕ) (limit now : ℕ) → Db → List ClaimedEvent × Db
unfolding claim_rows
claim_due_events is_locked draw limit now db =
    claim_rows (claimed_event now) draw 0 (due_outbox_events is_locked now limit db.events) db

unfoldable pub reclaim_stale_claims :
    (is_locked : ℕ → Bool) (draw : ℕ → ℕ) (claimed_before limit now : ℕ)
    → Db
    → List ClaimedEvent × Db
unfolding claim_rows
reclaim_stale_claims is_locked draw claimed_before limit now db =
    claim_rows (reclaimed_event now) draw 0
      (stale_claim_events is_locked claimed_before limit db.events) db
