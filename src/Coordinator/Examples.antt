-- ===== src/Coordinator/Examples.antt =====
-- Concrete runs of the coordinator on the sample job.
use app_template.Prelude.{
  ◌*◌, ◌^◌, ◌<◌, ◌≤◌, min, true, false, none, some, [], ◌∷◌, ◌≡◌, ◌≢◌, refl, arith,
}
use app_template.Models.Jobs.{JobStatus}
use app_template.Models.Outbox.{OutboxEvent, OutboxEventStatus}
use app_template.Models.Errors.{ok}
use app_template.Database.{Db, find_job, insert_event}
use app_template.Outbox.Contracts.{
  dispatch_payload, json_chars, entries_chars, value_chars, escaped_chars,
}
use app_template.Outbox.Service.{dispatch_event, create_dispatch_event, check_payload_size}
use app_template.Jobs.Policy.{max_attempts}
use app_template.Jobs.Lookup.{verify_ownership}
use app_template.Jobs.Failure.{enforce_attempt_ceiling_locked}
use app_template.Jobs.Invariant.{IsValid, after}
use app_template.Jobs.Samples.{
  at, waiting_db, running_job, running_db, waiting_db-IsValid, running_db-IsValid,
}
use app_template.Coordinator.Queries.{some_until}
use app_template.Coordinator.Reconciliation.{
  reconcile_running, reconcile_running_jobs, recovered_row, recover,
  close_running_attempt_abandoned,
}
use app_template.Coordinator.Reconciliation.Recovery.{
  reconcile_running_jobs-IsValid, recovered_is_superseded,
}
use app_template.Coordinator.Backoff.{backoff_cap, backoff_delay}
use app_template.Coordinator.Backoff.Clamp.{backoff_delay_lem}
use app_template.Coordinator.Cycle.{World, Settings, publication}
use app_template.Coordinator.Cycle.Counts.{IsBounded, publication-IsBounded}
use app_template.Coordinator.Cycle.Validity.{publication-IsValid}
use app_template.Coordinator.Pass.{Surroundings}
use app_template.Coordinator.Upkeep.{cleanup_marker, schedule_bucket}
use app_template.Coordinator.ClaimExamples.{broker_up, no_lock, on_its_way, targets, tokens}

backoff_delay_lem_example :
    (backoff_cap 4 1000 300000 ≡ min (1000 * 2 ^ 3) 300000)
    × (backoff_delay (λ cap. cap) 4 1000 300000 ≤ min (1000 * 2 ^ 3) 300000)
backoff_delay_lem_example =
    backoff_delay_lem (λ cap. cap) 3 1000 300000 (λ cap. omega arith) (omega arith)

abbrev quiet : Surroundings
quiet = record { envs = λ m n. at 0 0; is_locked = λ m k. false; others = λ m d. d }

abbrev world : World
world = record {
  targets = targets;
  now = 100;
  stop_at_start = false;
  stop_before_claim = false;
  stop_before_upkeep = false;
  shutdown = λ n. false;
  is_reachable = λ n. true;
  accepts = λ n. broker_up;
  before = λ n d. d;
  meanwhile = λ n d. d;
  settling = λ n. at 120 50;
  jitter = λ n cap. cap;
  is_locked = λ stale k. false;
  draw = λ stale. tokens;
  surroundings = quiet;
}

abbrev settings : Settings
settings = record {
  batch_size = 5;
  publication_lease_seconds = 60;
  backoff_initial_seconds = 1000;
  backoff_max_seconds = 300000;
  upkeep = none;
}

publication-IsBounded_example : IsBounded world 5 (publication world settings waiting_db)
publication-IsBounded_example = publication-IsBounded world settings waiting_db

publication-IsValid_example : IsValid (publication world settings waiting_db).db
publication-IsValid_example =
    publication-IsValid world settings waiting_db (λ n d v. v) (λ n d v. v) waiting_db-IsValid

reconcile_running_jobs-IsValid_example : IsValid (
    after running_db
      (reconcile_running_jobs (λ n. at 2000000 60) no_lock 2000000 900 900 5 running_db))
reconcile_running_jobs-IsValid_example =
    reconcile_running_jobs-IsValid (λ n. at 2000000 60) no_lock 2000000 900 900 5 running_db
      running_db-IsValid

abbrev recovered_db : Db
recovered_db =
    (after running_db (reconcile_running (at 2000000 60) 2 2000000 (some running_job) running_db))

recovers :
    reconcile_running (at 2000000 60) 2 2000000 (some running_job) running_db
    ≡ ok (some 7, recovered_db)
unfolding reconcile_running enforce_attempt_ceiling_locked recover close_running_attempt_abandoned
    create_dispatch_event check_payload_size json_chars entries_chars value_chars escaped_chars
    dispatch_payload insert_event dispatch_event
recovers = refl

recovered_is_superseded_example :
    (running_job.status ≡ JobStatus.running)
    × (some_until running_job.execution_lease_expires_at 2000000 ≡ true)
    × (running_job.attempt_count < max_attempts)
    × (find_job 7 recovered_db.jobs ≡ some (recovered_row (at 2000000 60) running_job))
    × (verify_ownership
          (record { job_id = 7; owner_token = 21; organisation_id = 1 })
          true
          recovered_db
        ≢ ok running_job)
recovered_is_superseded_example =
    recovered_is_superseded (at 2000000 60) 2 2000000 7 running_job running_job running_db
      recovered_db (record { job_id = 7; owner_token = 21; organisation_id = 1 }) true refl recovers
      refl

-- An event that was published a month ago, beside one that is still on its way.
abbrev long_gone : OutboxEvent
long_gone = record on_its_way { id = 11; status = OutboxEventStatus.published }

abbrev month_old_db : Db
month_old_db = record waiting_db { events = long_gone ∷ on_its_way ∷ [] }

abbrev cleaned_db : Db
cleaned_db = record waiting_db {
  events = cleanup_marker 99 (schedule_bucket 2700000000 24) 2700000000 ∷ on_its_way ∷ [];
}
