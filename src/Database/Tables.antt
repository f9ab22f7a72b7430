-- ===== src/Database/Tables.antt =====
-- Reads and writes of single rows, with the unique constraints that PostgreSQL checks.
use app_template.Prelude.{
  ℕ, String, Bool, false, ◌&&◌, Option, some, List, [], ◌∷◌, ◌==◌, ◌||◌, find_first, update_first,
  keep, str_eq,
}
use app_template.Models.Jobs.{Job, JobAttempt, is_open}
use app_template.Models.Outbox.{OutboxEvent, DedupKey}
use app_template.Models.Audit.{AuditEvent}
use app_template.Models.Maintenance.{MaintenanceRun}
use app_template.Models.Errors.{integrity, Result, ok, raise_if, ◌>>◌}

pub record Db : Type 0 where
  pub jobs : List Job
  pub attempts : List JobAttempt
  pub events : List OutboxEvent
  pub runs : List MaintenanceRun
  pub audit : List AuditEvent
  -- the calls of exhaustion hooks: the job and the failure code
  pub hook_calls : List (ℕ × String)

-- What a call reads of its surroundings: two readings of the clock (the call's own and the one
-- that `_fail_locked` makes), the identifiers that `uuid7()` returns, the settings, and the
-- registered exhaustion hooks.
pub record Env : Type 0 where
  pub now : ℕ
  pub failed_at : ℕ
  pub new_dispatch : ℕ
  pub new_owner : ℕ
  pub lease_seconds : ℕ
  pub hooks : List String
  pub request_id : Option String

-- `select(Job).where(Job.id == job_id)`
abbrev pub find_job : ℕ → List Job → Option Job
find_job k = find_first (λ r. r.id == k)

-- `maintenance_run_by_id_statement`
abbrev pub find_run : ℕ → List MaintenanceRun → Option MaintenanceRun
find_run k = find_first (λ r. r.id == k)

abbrev pub put_run : MaintenanceRun → List MaintenanceRun → List MaintenanceRun
put_run r = update_first (λ x. x.id == r.id) (λ _. r)

-- The flush of a changed row.
abbrev pub put_job : Job → List Job → List Job
put_job j = update_first (λ r. r.id == j.id) (λ _. j)

-- `running_attempt_statement`
abbrev pub is_held_by : ℕ → ℕ → JobAttempt → Bool
is_held_by job_id token a = a.job_id == job_id && (a.owner_token == token && is_open a.status)

abbrev pub find_event : ℕ → List OutboxEvent → Option OutboxEvent
find_event k = find_first (λ e. e.id == k)

abbrev pub put_event : OutboxEvent → List OutboxEvent → List OutboxEvent
put_event e = update_first (λ r. r.id == e.id) (λ _. e)

abbrev pub key_eq : DedupKey → DedupKey → Bool
key_eq (DedupKey.dispatch a) (DedupKey.dispatch b) = a == b
key_eq (DedupKey.reconcile a m) (DedupKey.reconcile b n) = a == b && m == n
key_eq (DedupKey.retry a m) (DedupKey.retry b n) = a == b && m == n
key_eq (DedupKey.maintenance_retry a m) (DedupKey.maintenance_retry b n) = a == b && m == n
key_eq (DedupKey.maintenance_recover a m) (DedupKey.maintenance_recover b n) = a == b && m == n
key_eq (DedupKey.schedule s m) (DedupKey.schedule t n) = str_eq s t && m == n
key_eq (DedupKey.cleanup m) (DedupKey.cleanup n) = m == n
key_eq _ _ = false

abbrev pub opt_key_eq : Option DedupKey → Option DedupKey → Bool
opt_key_eq (some a) (some b) = key_eq a b
opt_key_eq _ _ = false

abbrev pub any {ℓ} : {A : Type ℓ} → (A → Bool) → List A → Bool
any p [] = false
any p (x ∷ xs) = p x || any p xs

-- All attempts of one job.
abbrev pub rows_of : ℕ → List JobAttempt → List JobAttempt
rows_of k = keep (λ a. a.job_id == k)

-- `session.add` and the flush, with the primary keys and unique constraints of the tables.
unfoldable pub insert_job : Job → Db → Result Db
insert_job j db = do
  raise_if (any (λ r. r.id == j.id) db.jobs) (integrity "pk_jobs")
  ok (record db { jobs = j ∷ db.jobs })

unfoldable pub insert_attempt : JobAttempt → Db → Result Db
insert_attempt a db = do
  raise_if (any (λ r. r.job_id == a.job_id && r.attempt_number == a.attempt_number) db.attempts)
      (integrity "uq_job_attempts_job_number")
  raise_if (any (λ r. r.owner_token == a.owner_token) db.attempts)
      (integrity "uq_job_attempts_owner_token")
  raise_if (is_open a.status && any (λ r. r.job_id == a.job_id && is_open r.status) db.attempts)
      (integrity "uq_job_attempts_one_running_per_job")
  ok (record db { attempts = a ∷ db.attempts })

unfoldable pub insert_event : OutboxEvent → Db → Result Db
insert_event e db = do
  raise_if (any (λ r. r.id == e.id) db.events) (integrity "pk_outbox_events")
  raise_if (any (λ r. opt_key_eq r.deduplication_key e.deduplication_key) db.events)
      (integrity "uq_outbox_events_deduplication_key")
  ok (record db { events = e ∷ db.events })
