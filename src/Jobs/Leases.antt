-- ===== src/Jobs/Leases.antt =====
-- A live lease: only the holder of its token can write to the job.
use app_template.Prelude.{ℕ, ◌<◌, true, false, Option, none, some, String, ◌≡◌, ◌≢◌, arith}
use app_template.Prelude.Int.{ℤ}
use app_template.Models.Jobs.{Job, JobStatus}
use app_template.Models.Errors.{stale_dispatch, ok, err}
use app_template.Database.{Db, Env, find_job}
use app_template.Jobs.Policy.{is_terminal, deferred_result}
use app_template.Jobs.Lookup.{verify_owner}
use app_template.Jobs.Claim.{claim_dispatch, claim_locked, live_lease, defer_or}
use app_template.Jobs.Settle.{
  settle_retryable_failure, update_progress, succeed, fail, settle_after_retries_exhausted,
  fail_undelivered, is_undelivered, in_range,
}
use app_template.Jobs.Invariant.{get_job_locked_lem}

-- The running job is leased to the holder of `t` until `until`.
pub record IsLeased (j : Job) (t until : ℕ) : Type 0 where
  pub is_active : j.status ≡ JobStatus.running
  pub owner : j.owner_token ≡ some t
  pub lease : j.execution_lease_expires_at ≡ some until

module _ (k : ℕ) (j : Job) (db : Db) (found : find_job k db.jobs ≡ some j) (env : Env) (t until : ℕ)
    (held : IsLeased j t until) where
  verify_owner-stale :
      (other : Option ℕ)
      → other ≢ some t
      → verify_owner j other ≡ err (stale_dispatch j.id (some t) other)
  unfolding verify_owner
  verify_owner-stale none h = rw held.owner
  verify_owner-stale (some x) h = rw held.owner (ground arith)

  not_over : is_terminal j.status ≡ false
  unfolding is_terminal
  not_over = rw held.is_active

  pub settle_retryable_failure-stale :
      (x : ℕ)
      → some x ≢ some t
      → settle_retryable_failure env k x db ≡ err (stale_dispatch j.id (some t) (some x))
  unfolding settle_retryable_failure
  settle_retryable_failure-stale x h =
      rw (get_job_locked_lem k db) (rw found (rw (verify_owner-stale (some x) h)))

  pub update_progress-stale :
      (p : ℤ) (x : Option ℕ)
      → x ≢ some t
      → in_range p ≡ true
      → update_progress env k p x db ≡ err (stale_dispatch j.id (some t) x)
  unfolding update_progress
  update_progress-stale p x h ranged =
      rw ranged
        (rw (get_job_locked_lem k db) (rw found (rw not_over (rw (verify_owner-stale x h)))))

  pub succeed-stale :
      (r : Option String) (x : Option ℕ)
      → x ≢ some t
      → succeed env k r x db ≡ err (stale_dispatch j.id (some t) x)
  unfolding succeed
  succeed-stale r x h =
      rw (get_job_locked_lem k db) (rw found (rw held.is_active (rw (verify_owner-stale x h))))

  pub fail-stale :
      (c m : String) (x : Option ℕ)
      → x ≢ some t
      → fail env k c m x db ≡ err (stale_dispatch j.id (some t) x)
  unfolding fail
  fail-stale c m x h =
      rw (get_job_locked_lem k db) (rw found (rw held.is_active (rw (verify_owner-stale x h))))

  module _ (live : env.now < until) where
    live_lease-held : live_lease env.now j ≡ some until
    unfolding live_lease
    live_lease-held = rw held.is_active (rw held.lease (ground arith))

    pub claim_dispatch-deferred : claim_dispatch env k db ≡ ok (deferred_result j until, db)
    unfolding claim_dispatch claim_locked defer_or
    claim_dispatch-deferred =
        rw (get_job_locked_lem k db) (rw found (rw not_over (rw live_lease-held)))

    pub settle_after_retries_exhausted-live :
        (d x : Option ℕ) → settle_after_retries_exhausted env k d x db ≡ ok (none, db)
    unfolding settle_after_retries_exhausted
    settle_after_retries_exhausted-live d x =
        rw (get_job_locked_lem k db) (rw found (rw not_over (rw live_lease-held (ground arith))))

  pub fail_undelivered-running : (e o : ℕ) → fail_undelivered env e o (some j) db ≡ (none, db)
  unfolding fail_undelivered is_undelivered
  fail_undelivered-running e o = rw held.is_active (ground arith)
