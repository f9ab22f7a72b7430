-- ===== src/Coordinator/ClaimExamples.antt =====
-- Concrete runs of the claims and settlements of the coordinator on the sample job.
use app_template.Prelude.{ℕ, ◌+◌, Bool, true, false, none, some, [], ◌∷◌, ◌≡◌, ◌↔◌, refl, arith}
use mathlib.Core.List.{Memᴰ}
use app_template.Models.Jobs.{Job}
use app_template.Models.Outbox.{OutboxEvent}
use app_template.Database.{Db, find_job, find_event}
use app_template.Database.Keys.{AreKeyed}
use app_template.Outbox.Contracts.{event_type_job_dispatch}
use app_template.Outbox.Service.{dispatch_event}
use app_template.Jobs.Calls.{empty_db}
use app_template.Jobs.Samples.{at, waiting_job, waiting_db, scheduled_job}
use app_template.Coordinator.Registry.{Actor, DispatchRegistry, Message, lookup}
use app_template.Coordinator.Queries.{is_due, is_stale_claim, stale_claim_events}
use app_template.Coordinator.Claims.{
  ClaimedEvent, claimed_event, reclaimed_event, claim_due_events, reclaim_stale_claims, claim_rows,
}
use app_template.Coordinator.Settlement.{settle_published, is_owned}
use app_template.Coordinator.Publication.{PublishOutcome, publish_event}
use app_template.Coordinator.Publication.Dispatch.{
  scheduled_is_published, dispatch_is_published, dispatch_message,
}
use app_template.Coordinator.Publication.Soundness.{published_dispatch_lem}
use app_template.Coordinator.Fencing.{Settlement, settle, settle_iff, settles_once, Owns}
use app_template.Coordinator.Claiming.{Claims, batches_are_taken, reclaimed_is_superseded}

abbrev process_file : Actor
process_file = record {
  name = "process_file";
  on_retry_exhausted = some "mark_job_failed_after_retries";
}

abbrev pub targets : DispatchRegistry
targets = record { job_actors = ("file.processing", process_file) ∷ []; maintenance_actors = [] }

-- The event of the waiting job, claimed at 100 ms with the token 71.
abbrev pub on_its_way : OutboxEvent
on_its_way = claimed_event 100 71 (dispatch_event 1 7 10 none 0 0)

abbrev publishing_db : Db
publishing_db = record waiting_db { events = on_its_way ∷ [] }

publishing_db-AreKeyed : AreKeyed publishing_db.events
publishing_db-AreKeyed = (refl, tt)

settle_iff_example :
    (((settle (Settlement.publishes 120) 0 10 71 publishing_db).0 ≡ true)
      ↔ ((e : OutboxEvent) × Owns 10 71 e publishing_db))
    × (((settle (Settlement.publishes 120) 0 10 71 publishing_db).0 ≡ false)
        → (settle (Settlement.publishes 120) 0 10 71 publishing_db).1 ≡ publishing_db)
settle_iff_example =
    settle_iff (Settlement.publishes 120) 0 10 71 publishing_db publishing_db-AreKeyed

published_first : (settle (Settlement.publishes 120) 0 10 71 publishing_db).0 ≡ true
unfolding claimed_event dispatch_event settle_published is_owned
published_first = refl

-- A late kill of an event that is published.
settles_once_example :
    settle
      (Settlement.kills (at 130 50) "invalid_dispatch_target")
      0
      10
      71
      (settle (Settlement.publishes 120) 0 10 71 publishing_db).1
    ≡ (false, (settle (Settlement.publishes 120) 0 10 71 publishing_db).1)
settles_once_example =
    settles_once (Settlement.publishes 120) (Settlement.kills (at 130 50) "invalid_dispatch_target")
      0 0 10 71 publishing_db publishing_db-AreKeyed published_first

abbrev pub no_lock : ℕ → Bool
no_lock k = false

abbrev pub tokens : ℕ → ℕ
tokens n = 80 + n

waiting_db-AreKeyed : AreKeyed waiting_db.events
waiting_db-AreKeyed = (refl, tt)

batches_are_taken_example :
    Claims 9000
      (is_due 9000)
      no_lock
      5
      waiting_db
      (claim_due_events no_lock tokens 5 9000 waiting_db).1
      (claim_due_events no_lock tokens 5 9000 waiting_db).0
    × Claims 9000
        (is_stale_claim 8000)
        no_lock
        5
        publishing_db
        (reclaim_stale_claims no_lock tokens 8000 5 9000 publishing_db).1
        (reclaim_stale_claims no_lock tokens 8000 5 9000 publishing_db).0
batches_are_taken_example =
    batches_are_taken no_lock tokens tokens 8000 5 9000 waiting_db publishing_db waiting_db-AreKeyed
      publishing_db-AreKeyed

abbrev reclaimed : ClaimedEvent
reclaimed = record { event = reclaimed_event 9000 80 on_its_way; claim_token = 80 }

reclaimed_first : Memᴰ reclaimed (reclaim_stale_claims no_lock tokens 8000 5 9000 publishing_db).0
unfolding reclaim_stale_claims stale_claim_events claim_rows claimed_event dispatch_event
    reclaimed_event
reclaimed_first = Memᴰ.head refl

-- The first coordinator comes back with its token 71.
reclaimed_is_superseded_example :
    settle
      (Settlement.publishes 9100)
      0
      reclaimed.event.id
      71
      (reclaim_stale_claims no_lock tokens 8000 5 9000 publishing_db).1
    ≡ (false, (reclaim_stale_claims no_lock tokens 8000 5 9000 publishing_db).1)
reclaimed_is_superseded_example =
    reclaimed_is_superseded no_lock tokens 8000 5 9000 publishing_db reclaimed
      (Settlement.publishes 9100) 0 71 publishing_db-AreKeyed reclaimed_first (ground arith)

abbrev pub broker_up : Message → Bool
broker_up m = true

scheduled_is_published_example :
    (e : OutboxEvent) × (find_event 10 waiting_db.events ≡ some e)
    × (is_due 0 e ≡ true)
    × (publish_event true broker_up targets (claimed_event 100 71 e) waiting_db
        ≡ (PublishOutcome.published, none, some (dispatch_message process_file 7)))
scheduled_is_published_example =
    scheduled_is_published (at 0 10) 1 "file.processing" "file:1" none (some 7) 0 empty_db
      waiting_db waiting_job broker_up targets process_file 100 71 scheduled_job refl refl

published_now :
    publish_event true broker_up targets on_its_way publishing_db
    ≡ (PublishOutcome.published, none, some (dispatch_message process_file 7))
published_now =
    dispatch_is_published broker_up targets 100 71 10 none 0 0 publishing_db waiting_job
      process_file refl refl refl

dispatch_type : on_its_way.event_type ≡ event_type_job_dispatch
unfolding claimed_event dispatch_event
dispatch_type = refl

published_dispatch_lem_example :
    (j : Job) × (a : Actor) × (find_job j.id publishing_db.jobs ≡ some j)
    × (on_its_way.aggregate_id ≡ some j.id)
    × (on_its_way.organisation_id ≡ some j.organisation_id)
    × (lookup j.job_type targets.job_actors ≡ some a)
    × (some (dispatch_message process_file 7) ≡ some (dispatch_message a j.id))
published_dispatch_lem_example =
    published_dispatch_lem true broker_up targets on_its_way publishing_db none
      (some (dispatch_message process_file 7)) dispatch_type published_now
