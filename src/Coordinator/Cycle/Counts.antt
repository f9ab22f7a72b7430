-- ===== src/Coordinator/Cycle/Counts.antt =====
-- The statistics of a cycle: what is counted and how much a batch admits.
use app_template.Prelude.{
  ℕ, suc, ◌+◌, ◌-◌, ◌*◌, ◌≤◌, Bool, true, false, ◌&&◌, not, List, [], ◌∷◌, ◌==◌, ◌≡◌, refl, ap, ◌∙◌,
  arith, length, inl, inr, Bool-cases, if◌then◌else◌,
}
use app_template.Database.{Db}
use app_template.Coordinator.Registry.{Message}
use app_template.Coordinator.Claims.{ClaimedEvent, claim_due_events, reclaim_stale_claims}
use app_template.Coordinator.Claiming.{claim_due_events-length, reclaim_stale_claims-length}
use app_template.Coordinator.Publication.{PublishOutcome, publish_event, classify, try_publish}
use app_template.Models.Errors.{Result, ok, err}
use app_template.Coordinator.Cycle.{
  CycleStats, Cycle, World, Settings, tally, settle_outcome, handle_claimed, handle_all,
  stale_phase, fresh_phase, publication, empty_stats, append_some,
}

-- The events that a cycle handled.
abbrev pub handled : CycleStats → ℕ
handled s = s.published + s.dead + s.released + s.settled_stale

-- The events that it took.
abbrev pub taken : CycleStats → ℕ
taken s = s.stale_reclaimed + s.claimed

-- Handling adds a count, or counts with messages, for each event.
record Counted (s t : Cycle) (n : ℕ) : Type 0 where
  handled_by : handled t.stats ≡ handled s.stats + n
  claimed_kept : t.stats.claimed ≡ s.stats.claimed
  stale_kept : t.stats.stale_reclaimed ≡ s.stats.stale_reclaimed
  published_sent : t.stats.published + length s.sent ≤ s.stats.published + length t.sent
  sent_bound : length t.sent ≤ length s.sent + n

tally_counts :
    (o : PublishOutcome) (b : Bool) (s : CycleStats)
    → (handled (tally o b s) ≡ handled s + 1)
      × ((tally o b s).claimed ≡ s.claimed)
      × ((tally o b s).stale_reclaimed ≡ s.stale_reclaimed)
unfolding tally
tally_counts PublishOutcome.published true s = (omega arith, refl, refl)
tally_counts PublishOutcome.dead true s = (omega arith, refl, refl)
tally_counts PublishOutcome.transient true s = (omega arith, refl, refl)
tally_counts o false s = (omega arith, refl, refl)

-- Nothing is sent without being counted as published, unless the settlement came too late.
message_counts :
    (r : Result Message) (b : Bool) (s : CycleStats) (sent : List Message)
    → ((tally (classify r).0 b s).published + length sent
        ≤ s.published + length (append_some (classify r).2 sent))
      × (length (append_some (classify r).2 sent) ≤ length sent + 1)
unfolding tally classify
message_counts (ok m) true s sent = (omega arith, omega arith)
message_counts (ok m) false s sent = (omega arith, omega arith)
message_counts (err e) b s sent = ground arith

handle_claimed-Counted :
    (w : World) (cfg : Settings) (n : ℕ) (c : ClaimedEvent) (s : Cycle)
    → Counted s (handle_claimed w cfg n c s) 1
unfolding handle_claimed publish_event
handle_claimed-Counted w cfg n c s =
    let r = try_publish (w.is_reachable n) (w.accepts n) w.targets c.event (w.before n s.db) in
    let settled =
      settle_outcome w cfg n c (classify r).0 (classify r).1 (w.meanwhile n (w.before n s.db)) in
    let (counted, claimed, stale) = tally_counts (classify r).0 settled.0 s.stats in
    let (published, sent) = message_counts r settled.0 s.stats s.sent in
    record {
      handled_by = counted;
      claimed_kept = claimed;
      stale_kept = stale;
      published_sent = published;
      sent_bound = sent;
    }

Counted-refl : (s : Cycle) → Counted s s 0
Counted-refl s = record {
  handled_by = omega arith;
  claimed_kept = refl;
  stale_kept = refl;
  published_sent = omega arith;
  sent_bound = omega arith;
}

Counted-suc : (s t u : Cycle) (n : ℕ) → Counted s t 1 → Counted t u n → Counted s u (suc n)
Counted-suc s t u n a b = record {
  handled_by = omega (arith, a.handled_by, b.handled_by);
  claimed_kept = b.claimed_kept ∙ a.claimed_kept;
  stale_kept = b.stale_kept ∙ a.stale_kept;
  published_sent = omega (arith, a.published_sent, b.published_sent);
  sent_bound = omega (arith, a.sent_bound, b.sent_bound);
}

-- The loop handles no more events than it is given, and all of them unless shutdown arrives.
handle_all-Counted :
    (w : World) (cfg : Settings) (n : ℕ) (cs : List ClaimedEvent) (s : Cycle)
    → (m : ℕ) × (m ≤ length cs)
      × (((i : ℕ) → w.shutdown i ≡ false) → m ≡ length cs)
      × Counted s (handle_all w cfg n cs s) m
unfolding handle_all
handle_all-Counted w cfg n [] s = (0, omega arith, λ _. refl, Counted-refl s)
handle_all-Counted w cfg n (c ∷ cs) s = elim (Bool-cases (w.shutdown n)) [
  | inl stop ↦ rw stop (0, omega arith, λ never. absurd (let no = never n in cc), Counted-refl s)
  | inr go ↦
      let (m, le, all, rest) = handle_all-Counted w cfg (suc n) cs (handle_claimed w cfg n c s) in
      rw go (
        suc m,
        omega (arith, le),
        λ never. ap suc (all never),
        Counted-suc s (handle_claimed w cfg n c s) _ m (handle_claimed-Counted w cfg n c s) rest,
      )
]

-- What a part of the cycle guarantees of the counts and the messages.
pub record IsBounded (w : World) (batch : ℕ) (s : Cycle) : Type 0 where
  pub handled_taken : handled s.stats ≤ taken s.stats
  pub all_handled : ((i : ℕ) → w.shutdown i ≡ false) → handled s.stats ≡ taken s.stats
  pub taken_batch : taken s.stats ≤ batch
  pub published_sent : s.stats.published ≤ length s.sent
  pub sent_handled : length s.sent ≤ handled s.stats

stale_phase-IsBounded :
    (w : World) (cfg : Settings) (db : Db)
    → IsBounded w cfg.batch_size (stale_phase w cfg db).1
      × ((stale_phase w cfg db).1.stats.claimed ≡ 0)
      × ((stale_phase w cfg db).1.stats.stale_reclaimed ≡ (stale_phase w cfg db).0)
unfolding stale_phase
stale_phase-IsBounded w cfg db =
    let claim =
      reclaim_stale_claims (w.is_locked true) (w.draw true)
        (w.now - cfg.publication_lease_seconds * 1000) cfg.batch_size w.now db in
    let le =
      reclaim_stale_claims-length (w.is_locked true) (w.draw true)
        (w.now - cfg.publication_lease_seconds * 1000) cfg.batch_size w.now db in
    let (m, few, all, c) = handle_all-Counted w cfg 0 claim.0 (record {
      stats = record empty_stats { stale_reclaimed = length claim.0 };
      sent = [];
      db = claim.1;
    }) in
    (
      record {
        handled_taken = omega (arith, c.handled_by, c.claimed_kept, c.stale_kept, few);
        all_handled = λ never. omega (arith, c.handled_by, c.claimed_kept, c.stale_kept, all never);
        taken_batch = omega (arith, c.claimed_kept, c.stale_kept, le);
        published_sent = omega (arith, c.published_sent);
        sent_handled = omega (arith, c.handled_by, c.sent_bound);
      },
      c.claimed_kept,
      c.stale_kept,
    )

fresh_phase-IsBounded :
    (w : World) (cfg : Settings) (k : ℕ) (s : Cycle)
    → IsBounded w cfg.batch_size s
    → s.stats.claimed ≡ 0
    → s.stats.stale_reclaimed ≡ k
    → IsBounded w cfg.batch_size (fresh_phase w cfg k s)
unfolding fresh_phase
fresh_phase-IsBounded w cfg k s b none_claimed stale =
    elim (Bool-cases (not (cfg.batch_size - k == 0) && not w.stop_before_claim)) [
      | inl go ↦
          let claim =
            claim_due_events (w.is_locked false) (w.draw false) (cfg.batch_size - k) w.now s.db in
          let le =
            claim_due_events-length (w.is_locked false) (w.draw false) (cfg.batch_size - k) w.now
              s.db in
          let (m, few, all, c) = handle_all-Counted w cfg k claim.0 (record {
            stats = record s.stats { claimed = length claim.0 };
            sent = s.sent;
            db = claim.1;
          }) in
          rw go (record {
            handled_taken = omega (
              arith, c.handled_by, c.claimed_kept, c.stale_kept, few, b.handled_taken, none_claimed,
            );
            all_handled = λ never. omega (
              arith,
              c.handled_by,
              c.claimed_kept,
              c.stale_kept,
              all never,
              b.all_handled never,
              none_claimed,
            );
            taken_batch =
                omega (arith, c.claimed_kept, c.stale_kept, le, b.taken_batch, stale, none_claimed);
            published_sent = omega (arith, c.published_sent, b.published_sent);
            sent_handled = omega (arith, c.handled_by, c.sent_bound, b.sent_handled);
          })
      | inr stop ↦ rw stop b
    ]

either {ℓ} : (P : Cycle → Type ℓ) (b : Bool) (x y : Cycle) → P x → P y → P (if b then x else y)
either P true x y p q = p
either P false x y p q = q

-- Whatever other processes, the broker and the database do between its transactions, a cycle takes
-- a batch at most, stale claims and fresh ones together; it counts each event that it handled once,
-- as published, dead, released or settled by another, and handles every event that it took unless
-- shutdown arrives; it sends no more messages than it handled events, and at least one for each
-- event that it counts as published.
pub publication-IsBounded :
    (w : World) (cfg : Settings) (db : Db) → IsBounded w cfg.batch_size (publication w cfg db)
unfolding publication
publication-IsBounded w cfg db =
    let (b, none_claimed, stale) = stale_phase-IsBounded w cfg db in
    either (IsBounded w cfg.batch_size) w.stop_at_start _ _
      (record {
        handled_taken = omega arith;
        all_handled = λ _. refl;
        taken_batch = omega arith;
        published_sent = omega arith;
        sent_handled = omega arith;
      })
      (fresh_phase-IsBounded w cfg (stale_phase w cfg db).0 (stale_phase w cfg db).1 b none_claimed
        stale)
