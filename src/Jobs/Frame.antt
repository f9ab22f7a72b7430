-- ===== src/Jobs/Frame.antt =====
-- A call writes to the row of the job that it names and to no other.
use app_template.Prelude.{
  ℕ, Option, none, some, String, ◌∷◌, ◌≡◌, ◌≢◌, refl, ◌∙◌, inl, inr, Bool-cases, is_some, leb, not,
  str_eq,
}
use app_template.Prelude.Int.{ℤ}
use app_template.Models.Jobs.{Job, JobAttemptStatus, is_running, is_failed, is_succeeded}
use app_template.Models.Errors.{Result, raise_if, ◌>>=◌, or_raise}
use app_template.Database.{
  Db, Env, find_job, put_job, any, find_job-id, find_job-cons_new, insert_attempt,
  insert_attempt-ok, insert_job, insert_job-ok, insert_job-new,
}
use app_template.Outbox.Insertion.{create_dispatch_event-ok}
use app_template.Outbox.Service.{create_dispatch_event}
use app_template.Jobs.Policy.{is_terminal, max_attempts, ClaimResult}
use app_template.Jobs.Lookup.{verify_owner, get_job_locked, job_not_found}
use app_template.Jobs.Failure.{fail_locked, failed_row, run_exhaustion_hook, exhaust}
use app_template.Jobs.Claim.{
  claim_dispatch, claim_locked, take_claim, claimed_row, new_attempt, live_lease, not_yet_due,
  defer_or, schedule_job, queued_job, id_or,
}
use app_template.Jobs.Settle.{
  settle_retryable_failure, schedule_retry, retry_row, update_progress, progress_row, magnitude,
  succeed, succeeded_row, fail, settle_after_retries_exhausted, fail_undelivered, is_undelivered,
  in_range, names_current_attempt,
}
use app_template.Jobs.Invariant.{after, after_bind, after_if, get_job_locked_lem, find-put_other}

-- The row of job `k` is what it was in `old`.
abbrev pub Same : ℕ → Db → Db → Type 0
Same k old db = find_job k db.jobs ≡ find_job k old.jobs

module _ (k : ℕ) (old : Db) where
  put-Same :
      (j j' : Job) (db : Db)
      → j'.id ≡ j.id
      → k ≢ j.id
      → Same k old db
      → find_job k (put_job j' db.jobs) ≡ find_job k old.jobs
  put-Same j j' db same away h = find-put_other j j' db.jobs k same away ∙ h

  fail_locked-Same :
      (env : Env) (j : Job) (code message : String) (status : JobAttemptStatus) (db : Db)
      → k ≢ j.id
      → Same k old db
      → Same k old (fail_locked env j code message status db)
  unfolding fail_locked failed_row
  fail_locked-Same env j code message status db away h =
      put-Same j (failed_row env j code message) db refl away h

  hook-Same :
      (env : Env) (j : Job) (code : String) (db : Db)
      → Same k old db
      → Same k old (run_exhaustion_hook env j code db)
  unfolding run_exhaustion_hook
  hook-Same env j code db h = elim (Bool-cases (any (λ t. str_eq t j.job_type) env.hooks)) [
    | inl e ↦ rw e h
    | inr e ↦ rw e h
  ]

  exhaust-Same :
      (env : Env) (j : Job) (db : Db) → k ≢ j.id → Same k old db → Same k old (exhaust env j db)
  unfolding exhaust
  exhaust-Same env j db away h =
      hook-Same env j _ _ (fail_locked-Same env j _ _ JobAttemptStatus.exhausted db away h)

  -- The locked read returns the job that was asked for.
  named :
      {A : Type 0} (i : ℕ) (db : Db) (rest : Job → Result (A × Db))
      → k ≢ i
      → Same k old db
      → ((j : Job) → k ≢ j.id → Same k old (after db (rest j)))
      → Same k old (after db (get_job_locked i db >>= rest))
  named i db rest away h each = rw (get_job_locked_lem i db) (by_row (find_job i db.jobs) refl)
    where
      by_row :
          (o : Option Job)
          → find_job i db.jobs ≡ o
          → Same k old (after db (or_raise o job_not_found >>= rest))
      by_row none e = h
      by_row (some j) e = each j (λ same. away (same ∙ find_job-id i j db.jobs e))

module _ (k : ℕ) (env : Env) (i : ℕ) (db : Db) (away : k ≢ i) where
  pub fail-Same :
      (code message : String) (token : Option ℕ)
      → Same k db (after db (fail env i code message token db))
  unfolding fail
  fail-Same code message token = named k db i db _ away refl λ j other.
      after_if (Same k db) db refl (is_failed j.status) _ _ (λ _. refl)
        λ _. after_bind (Same k db) db refl (verify_owner j token) _ λ _ _.
          after_bind (Same k db) db refl (raise_if (is_terminal j.status) _) _
            λ _ _. fail_locked-Same k db env j code message JobAttemptStatus.failed db other refl

  pub succeed-Same :
      (reference : Option String) (token : Option ℕ)
      → Same k db (after db (succeed env i reference token db))
  unfolding succeed
  succeed-Same reference token = named k db i db _ away refl λ j other.
      after_if (Same k db) db refl (is_succeeded j.status) _ _ (λ _. refl)
        λ _. after_bind (Same k db) db refl (verify_owner j token) _ λ _ _.
          after_bind (Same k db) db refl (raise_if (is_terminal j.status) _) _ λ _ _.
            put-Same k db j (succeeded_row env j reference) db (unfold succeeded_row in refl) other
              refl

  pub update_progress-Same :
      (p : ℤ) (token : Option ℕ) → Same k db (after db (update_progress env i p token db))
  unfolding update_progress
  update_progress-Same p token =
      after_bind (Same k db) db refl (raise_if (not (in_range p)) _) _ λ _ _.
        named k db i db _ away refl λ j other.
          after_if (Same k db) db refl (is_terminal j.status) _ _
            (λ _. after_bind (Same k db) db refl (verify_owner j token) _ λ _ _. refl)
            λ _. after_bind (Same k db) db refl (verify_owner j token) _ λ _ _.
              after_bind (Same k db) db refl (raise_if (not (is_running j.status)) _) _ λ _ _.
                put-Same k db j (progress_row env j (magnitude p)) db (unfold progress_row in refl)
                  other refl

  pub settle_retryable_failure-Same :
      (token : ℕ) → Same k db (after db (settle_retryable_failure env i token db))
  unfolding settle_retryable_failure schedule_retry
  settle_retryable_failure-Same token = named k db i db _ away refl λ j other.
      after_bind (Same k db) db refl (verify_owner j (some token)) _ λ _ _.
        after_if (Same k db) db refl (is_terminal j.status) _ _ (λ _. refl)
          λ _.
            after_if (Same k db) db refl (not (is_running j.status)) _ _ (λ _. refl)
              λ _.
                after_if (Same k db) db refl (leb max_attempts j.attempt_count) _ _
                  (λ _. exhaust-Same k db env j db other refl)
                  λ _. after_bind (Same k db) db refl (schedule_retry env j db) _ λ db' e.
                    rw (create_dispatch_event-ok _ _ _ _ _ _ _ db' e)
                      (put-Same k db j (retry_row env j) db (unfold retry_row in refl) other refl)

  pub settle_after_retries_exhausted-Same :
      (d t : Option ℕ) → Same k db (after db (settle_after_retries_exhausted env i d t db))
  unfolding settle_after_retries_exhausted
  settle_after_retries_exhausted-Same d t = named k db i db _ away refl λ j other.
      after_if (Same k db) db refl (is_terminal j.status) _ _ (λ _. refl)
        λ _.
          after_if (Same k db) db refl (not (names_current_attempt j d t)) _ _ (λ _. refl)
            λ _.
              after_if (Same k db) db refl (is_some (live_lease env.now j)) _ _ (λ _. refl)
                λ _. exhaust-Same k db env j db other refl

  after_defer-Same :
      (j : Job) (o : Option ℕ) (rest : Result (ClaimResult × Db))
      → Same k db (after db rest)
      → Same k db (after db (defer_or j db o rest))
  unfolding defer_or
  after_defer-Same j none rest h = h
  after_defer-Same j (some t) rest h = refl

  pub claim_dispatch-Same : Same k db (after db (claim_dispatch env i db))
  unfolding claim_dispatch claim_locked take_claim
  claim_dispatch-Same = named k db i db _ away refl λ j other.
      after_if (Same k db) db refl (is_terminal j.status) _ _ (λ _. refl)
        λ _. after_defer-Same j (live_lease env.now j) _ (
          after_defer-Same j (not_yet_due env.now j db.events) _ (
            after_if (Same k db) db refl (leb max_attempts j.attempt_count) _ _
              (λ _. exhaust-Same k db env j db other refl)
              λ _. after_bind (Same k db) db refl (insert_attempt (new_attempt env j) _) _ λ db' e.
                rw (insert_attempt-ok (new_attempt env j) _ db' e)
                  (put-Same k db j (claimed_row env j) db (unfold claimed_row in refl) other refl)))

-- A schedule adds a job under a new identifier.
pub schedule_job-Same :
    (k : ℕ) (j : Job) (env : Env) (o : ℕ) (t r : String) (u i : Option ℕ) (fresh : ℕ) (db : Db)
    → find_job k db.jobs ≡ some j
    → Same k db (after db (schedule_job env o t r u i fresh db))
unfolding schedule_job
schedule_job-Same k j env o t r u i fresh db found =
    after_bind (Same k db) db refl (insert_job job db) _ λ db₁ e₁.
      after_bind (Same k db) db refl
        (create_dispatch_event o job.id env.new_dispatch none env.now env.now db₁) _
        λ db₂ e₂.
          rw (create_dispatch_event-ok _ _ _ _ _ _ db₁ db₂ e₂)
            (rw (insert_job-ok job db db₁ e₁) (older (insert_job-new job db db₁ e₁)))
  where
    job : Job
    job = queued_job env o t r u (id_or i fresh)

    older : find_job job.id db.jobs ≡ none → find_job k (job ∷ db.jobs) ≡ find_job k db.jobs
    older new = find_job-cons_new k j job db.jobs new found

pub fail_undelivered-Same :
    (k : ℕ) (env : Env) (e o : ℕ) (j : Job) (db : Db)
    → k ≢ j.id
    → Same k db (fail_undelivered env e o (some j) db).1
unfolding fail_undelivered
fail_undelivered-Same k env e o j db away = elim (Bool-cases (is_undelivered e o j)) [
  | inl dead ↦ rw dead (
      hook-Same k db env j _ _
        (fail_locked-Same k db env j _ _ JobAttemptStatus.failed db away refl))
  | inr alive ↦ rw alive refl
]
