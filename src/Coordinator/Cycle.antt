-- ===== src/Coordinator/Cycle.antt =====
-- backend/app/job_coordinator/loop.py: one cycle of the coordinator, and when it is logged.
pub mod Counts
pub mod Validity
use app_template.Prelude.{
  ℕ, suc, ◌+◌, ◌-◌, ◌*◌, ◌<◌, max, String, Bool, true, false, ◌&&◌, ◌||◌, not, Option, none, some,
  List, [], ◌∷◌, ltb, leb, ◌==◌, length, is_some, if◌then◌else◌,
}
use app_template.Models.Errors.{Error, Result, ok, err}
use app_template.Database.{Db, Env}
use app_template.Coordinator.Registry.{DispatchRegistry, Message}
use app_template.Coordinator.Claims.{ClaimedEvent, claim_due_events, reclaim_stale_claims}
use app_template.Coordinator.Settlement.{settle_published, settle_dead, release_claim}
use app_template.Coordinator.Publication.{PublishOutcome, publish_event}
use app_template.Coordinator.Backoff.{backoff_delay}
use app_template.Coordinator.Pass.{Policy, Surroundings, ReconciliationStats, run_maintenance_pass}

pub record CycleStats : Type 0 where
  pub claimed : ℕ
  pub stale_reclaimed : ℕ
  pub published : ℕ
  pub dead : ℕ
  pub released : ℕ
  pub settled_stale : ℕ
  pub reconciled_jobs : ℕ
  pub recovered_running_jobs : ℕ
  pub scheduled_events : ℕ
  pub cleaned_events : ℕ

abbrev pub empty_stats : CycleStats
empty_stats = record {
  claimed = 0;
  stale_reclaimed = 0;
  published = 0;
  dead = 0;
  released = 0;
  settled_stale = 0;
  reconciled_jobs = 0;
  recovered_running_jobs = 0;
  scheduled_events = 0;
  cleaned_events = 0;
}

unfoldable pub is_transient : CycleStats → Bool
is_transient s = ltb 0 s.released

unfoldable pub is_active : CycleStats → Bool
is_active s =
    not (s.claimed == 0)
    || (not (s.stale_reclaimed == 0)
        || (not (s.published == 0)
            || (not (s.dead == 0)
                || (not (s.released == 0)
                    || (not (s.settled_stale == 0)
                        || (not (s.reconciled_jobs == 0)
                            || (not (s.recovered_running_jobs == 0)
                                || (not (s.scheduled_events == 0)
                                    || not (s.cleaned_events == 0)))))))))

heartbeat_due : ℕ → Option ℕ → ℕ → Bool
heartbeat_due now none heartbeat = true
heartbeat_due now (some last) heartbeat = leb heartbeat (now - last)

-- The monotonic clock is never behind `last_log_at`.
unfoldable pub cycle_log_due :
    CycleStats → (now : ℕ) → (last_log_at : Option ℕ) → (heartbeat : ℕ) → Bool
unfolding is_active heartbeat_due
cycle_log_due stats now last_log_at heartbeat =
    is_active stats || heartbeat_due now last_log_at heartbeat

-- What a cycle meets. The n-th claimed event that it handles is published while the database
-- answers or not (`is_reachable`) and the broker accepts or not (`accepts`); it is settled in the
-- surroundings `settling n`, whose clock is the database's, with the jitter `jitter n`. Other
-- processes commit `meanwhile n` before that settlement and `before n` before its publication.
-- `shutdown n` is the shutdown event at its n-th test between events.
pub record World : Type 0 where
  pub targets : DispatchRegistry
  pub now : ℕ
  pub stop_at_start : Bool
  pub stop_before_claim : Bool
  pub stop_before_upkeep : Bool
  pub shutdown : ℕ → Bool
  pub is_reachable : ℕ → Bool
  pub accepts : ℕ → Message → Bool
  pub before : ℕ → Db → Db
  pub meanwhile : ℕ → Db → Db
  pub settling : ℕ → Env
  pub jitter : ℕ → ℕ → ℕ
  pub is_locked : Bool → ℕ → Bool
  pub draw : Bool → ℕ → ℕ
  pub surroundings : Surroundings

pub record Settings : Type 0 where
  pub batch_size : ℕ
  pub publication_lease_seconds : ℕ
  pub backoff_initial_seconds : ℕ
  pub backoff_max_seconds : ℕ
  -- the seven settings of the upkeep, where all are given
  pub upkeep : Option Policy

-- The counts, the messages that reached the broker (the newest first) and the tables.
pub record Cycle : Type 0 where
  pub stats : CycleStats
  pub sent : List Message
  pub db : Db

abbrev pub append_some {ℓ} : {A : Type ℓ} → Option A → List A → List A
append_some none xs = xs
append_some (some x) xs = x ∷ xs

-- The count that a settlement adds: its own where it took effect, `settled_stale` where not.
unfoldable pub tally : PublishOutcome → Bool → CycleStats → CycleStats
tally outcome false s = record s { settled_stale = s.settled_stale + 1 }
tally PublishOutcome.published true s = record s { published = s.published + 1 }
tally PublishOutcome.dead true s = record s { dead = s.dead + 1 }
tally PublishOutcome.transient true s = record s { released = s.released + 1 }

error_or_none : Option String → String
error_or_none none = ""
error_or_none (some e) = e

-- The settlement that the outcome of the publication asks for.
unfoldable pub settle_outcome :
    World → Settings → (n : ℕ) → ClaimedEvent → PublishOutcome → Option String → Db → Bool × Db
unfolding error_or_none
settle_outcome w cfg n c PublishOutcome.published error db =
    settle_published (w.settling n).now c.event.id c.claim_token db
settle_outcome w cfg n c PublishOutcome.dead error db =
    settle_dead (w.settling n) c.event.id c.claim_token (error_or_none error) db
settle_outcome w cfg n c PublishOutcome.transient error db =
    release_claim (w.settling n).now c.event.id c.claim_token
      (backoff_delay (w.jitter n) c.event.attempt_count cfg.backoff_initial_seconds
        cfg.backoff_max_seconds)
      db

unfoldable pub handle_claimed : World → Settings → (n : ℕ) → ClaimedEvent → Cycle → Cycle
unfolding tally settle_outcome
handle_claimed w cfg n c s =
    let seen = w.before n s.db in
    let (outcome, error, message) =
      publish_event (w.is_reachable n) (w.accepts n) w.targets c.event seen in
    let (is_owner, db') = settle_outcome w cfg n c outcome error (w.meanwhile n seen) in
    record { stats = tally outcome is_owner s.stats; sent = append_some message s.sent; db = db' }

-- The loop over claimed events: the shutdown event is tested before each.
unfoldable pub handle_all : World → Settings → (n : ℕ) → List ClaimedEvent → Cycle → Cycle
handle_all w cfg n [] s = s
handle_all w cfg n (c ∷ cs) s =
    let rest = handle_all w cfg (suc n) cs (handle_claimed w cfg n c s) in
    if w.shutdown n then s else rest

-- Stale claims come first, a batch of them at most.
unfoldable pub stale_phase : World → Settings → Db → ℕ × Cycle
unfolding handle_all
stale_phase w cfg db =
    let (stale, db') =
      reclaim_stale_claims (w.is_locked true) (w.draw true)
        (w.now - cfg.publication_lease_seconds * 1000) cfg.batch_size w.now db in
    (
      length stale,
      handle_all w cfg 0 stale (record {
        stats = record empty_stats { stale_reclaimed = length stale };
        sent = [];
        db = db';
      }),
    )

-- Fresh work takes the slots that are left.
unfoldable pub fresh_phase : World → Settings → (stale_count : ℕ) → Cycle → Cycle
unfolding handle_all
fresh_phase w cfg stale_count s =
    let remaining = cfg.batch_size - stale_count in
    let (due, db') = claim_due_events (w.is_locked false) (w.draw false) remaining w.now s.db in
    if not (remaining == 0) && not w.stop_before_claim
    then handle_all w cfg stale_count due
        (record { stats = record s.stats { claimed = length due }; sent = s.sent; db = db' })
    else s

with_upkeep : Cycle → Result ReconciliationStats × Db → Result CycleStats × Cycle
with_upkeep s (ok r, db) =
    let stats = record s.stats {
      reconciled_jobs = r.reconciled_jobs;
      recovered_running_jobs = r.recovered_running_jobs;
      scheduled_events = r.scheduled_events;
      cleaned_events = r.cleaned_events;
    } in
    (ok stats, record s { stats = stats; db = db })
with_upkeep s (err e, db) = (err e, record s { db = db })

upkeep_phase : World → Settings → Option Policy → Cycle → Result CycleStats × Cycle
unfolding with_upkeep
upkeep_phase w cfg none s = (ok s.stats, s)
upkeep_phase w cfg (some p) s =
    if w.stop_before_upkeep
    then (ok s.stats, s)
    else with_upkeep s (run_maintenance_pass w.surroundings p w.now cfg.batch_size s.db)

-- The publication part of a cycle.
unfoldable pub publication : World → Settings → Db → Cycle
unfolding stale_phase fresh_phase
publication w cfg db =
    if w.stop_at_start
    then record { stats = empty_stats; sent = []; db = db }
    else (let (stale_count, s) = stale_phase w cfg db in fresh_phase w cfg stale_count s)

-- The statistics or the exception of the upkeep, with what the cycle did before it.
unfoldable pub run_cycle : World → Settings → Db → Result CycleStats × Cycle
unfolding upkeep_phase
run_cycle w cfg db =
    if w.stop_at_start
    then (ok empty_stats, record { stats = empty_stats; sent = []; db = db })
    else upkeep_phase w cfg cfg.upkeep (publication w cfg db)
