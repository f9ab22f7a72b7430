-- ===== src/Coordinator/Candidates.antt =====
-- backend/app/modules/outbox/queries.py: the jobs that reconciliation may recover.
use app_template.Prelude.{
  ℕ, String, Bool, false, ◌&&◌, ◌||◌, not, Option, none, some, List, [], ◌∷◌, ◌++◌, ltb, opt_eq,
  str_eq, map, take, keep, sort_by,
}
use app_template.Models.Jobs.{Job, is_queued, is_running}
use app_template.Models.Outbox.{OutboxEvent, is_pending, is_publishing, is_published}
use app_template.Database.{any}
use app_template.Coordinator.Queries.{some_until, later, time_or_zero}

is_job_type : Option String → Bool
is_job_type none = false
is_job_type (some t) = str_eq t "job"

-- An event of the job.
unfoldable pub names_job : Job → OutboxEvent → Bool
unfolding is_job_type
names_job job e = is_job_type e.aggregate_type && opt_eq e.aggregate_id (some job.id)

-- Replacement work that waits or is on its way.
unfoldable pub is_active_for : Job → OutboxEvent → Bool
is_active_for job e = names_job job e && (is_pending e.status || is_publishing e.status)

published_after : Option ℕ → Option ℕ → Bool
published_after none bound = false
published_after (some t) none = false
published_after (some t) (some b) = ltb b t

-- The join's condition and the `WHERE` clause of the queued scan for a job and its event `latest`.
unfoldable pub is_stranded : (published_before : ℕ) → List OutboxEvent → Job → OutboxEvent → Bool
unfolding published_after
is_stranded published_before events job latest =
    (names_job job latest && is_published latest.status)
    && (is_queued job.status
        && (some_until latest.processed_at published_before
            && (not (
                  any
                    (λ e.
                      names_job job e
                      && (is_published e.status
                          && published_after e.processed_at latest.processed_at))
                    events)
                && not (any (is_active_for job) events))))

-- The same of the running scan.
unfoldable pub is_abandoned :
    (lease_expired_before published_before : ℕ) → List OutboxEvent → Job → OutboxEvent → Bool
is_abandoned lease_expired_before published_before events job latest =
    (opt_eq job.dispatch_id (some latest.id)
      && (names_job job latest && is_published latest.status))
    && (is_running job.status
        && (some_until job.execution_lease_expires_at lease_expired_before
            && (some_until latest.processed_at published_before
                && not (any (is_active_for job) events))))

-- The rows of the join: each job with each of its events that meet the condition.
join : (Job → OutboxEvent → Bool) → List OutboxEvent → List Job → List (Job × OutboxEvent)
join p events [] = []
join p events (j ∷ js) = map (λ e. (j, e)) (keep (p j) events) ++ join p events js

unlocked : (is_locked : ℕ → Bool) → List (Job × OutboxEvent) → List (Job × OutboxEvent)
unlocked is_locked = keep (λ r. not (is_locked r.0.id))

-- The selected jobs, by identifier: the row of a selected job is the one of the session.
unfoldable pub queued_jobs_for_reconciliation :
    (is_locked : ℕ → Bool) (published_before limit : ℕ) → List OutboxEvent → List Job → List ℕ
unfolding join unlocked
queued_jobs_for_reconciliation is_locked published_before limit events jobs =
    map (λ r. r.0.id)
      (take limit (
        unlocked is_locked (
          sort_by
            (λ a b.
              later (time_or_zero a.1.processed_at, a.0.id) (time_or_zero b.1.processed_at, b.0.id))
            (join (is_stranded published_before events) events jobs))))

unfoldable pub running_jobs_for_reconciliation :
    (is_locked : ℕ → Bool) (lease_expired_before published_before limit : ℕ)
    → List OutboxEvent
    → List Job
    → List ℕ
unfolding join unlocked
running_jobs_for_reconciliation is_locked lease_expired_before published_before limit events jobs =
    map (λ r. r.0.id)
      (take limit (
        unlocked is_locked (
          sort_by
            (λ a b.
              later (time_or_zero a.0.execution_lease_expires_at, a.0.id)
                (time_or_zero b.0.execution_lease_expires_at, b.0.id))
            (join (is_abandoned lease_expired_before published_before events) events jobs))))
