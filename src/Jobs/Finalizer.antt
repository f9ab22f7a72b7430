-- ===== src/Jobs/Finalizer.antt =====
-- backend/app/modules/jobs/tasks.py: what the finalizer settles.
use app_template.Prelude.{
  ℕ, String, Bool, true, false, ◌&&◌, not, Option, none, some, ◌≡◌, ◌≢◌, refl, sym, ◌∙◌, ap, subst,
  opt_eq, str_eq, Bool-cases, is_some, if◌then◌else◌, inl, inr, ◌⊎◌,
}
use app_template.Models.Jobs.{Job, JobStatus, JobAttemptStatus}
use app_template.Models.Errors.{not_found, Result, ok, err, bind-ok, or_raise-ok}
use app_template.Database.{Db, Env, find_job, find_job-id, put_job, rows_of, any}
use app_template.Jobs.Policy.{
  is_terminal, error_code_retries_exhausted, error_message_retries_exhausted,
}
use app_template.Jobs.Lookup.{get_job_locked, job_not_found, close_attempt, closed}
use app_template.Jobs.Failure.{fail_locked, failed_row, exhaust, run_exhaustion_hook}
use app_template.Jobs.Invariant.{get_job_locked_lem, found_row, find-put_self, find-put_other}
use app_template.Jobs.Ledger.{rows_of-write_other}
use app_template.Jobs.Claim.{live_lease}
use app_template.Jobs.Settle.{settle_after_retries_exhausted, names_current_attempt}
use app_template.Jobs.Tasks.{
  Message, FinalizerEnd, identifier, job_id_from_message, attempt_stamp_from_message, stamp_of,
  finalize, finalized, mark_job_failed_after_retries, stamped,
}

-- The attempt that the finalizer settled as the tables `db` had it, and what became of it in `db'`:
-- its job failed, and no other job, attempt, event or maintenance run changed.
pub record IsAbandoned (env : Env) (k d t : ℕ) (db db' : Db) : Type 0 where
  pub job : Job
  pub row : find_job k db.jobs ≡ some job
  pub unfinished : is_terminal job.status ≡ false
  pub dispatch : opt_eq (some d) job.dispatch_id ≡ true
  pub owner : opt_eq (some t) job.owner_token ≡ true
  pub expired : is_some (live_lease env.now job) ≡ false
  pub failed :
      find_job k db'.jobs
      ≡ some (record job {
        status = JobStatus.failed;
        error_code = some error_code_retries_exhausted;
        error_message = some error_message_retries_exhausted;
        completed_at = some env.failed_at;
        execution_lease_expires_at = none;
      })
  pub other_jobs : (i : ℕ) → i ≢ k → find_job i db'.jobs ≡ find_job i db.jobs
  pub other_attempts : (i : ℕ) → i ≢ k → rows_of i db'.attempts ≡ rows_of i db.attempts
  pub same_events : db'.events ≡ db.events
  pub same_runs : db'.runs ≡ db.runs

fail_locked-IsAbandoned :
    (env : Env) (k d t : ℕ) (db : Db) (job : Job)
    → find_job k db.jobs ≡ some job
    → is_terminal job.status ≡ false
    → opt_eq (some d) job.dispatch_id ≡ true
    → opt_eq (some t) job.owner_token ≡ true
    → is_some (live_lease env.now job) ≡ false
    → IsAbandoned env k d t db (
        fail_locked env job error_code_retries_exhausted error_message_retries_exhausted
          JobAttemptStatus.exhausted db)
unfolding fail_locked failed_row close_attempt
fail_locked-IsAbandoned env k d t db job row unfinished dispatch owner expired =
    let named : job.id ≡ k = find_job-id k job db.jobs row in
    let other : (i : ℕ) → i ≢ k → i ≢ job.id = λ i away same. away (same ∙ named) in
    record {
      job = job;
      row = row;
      unfinished = unfinished;
      dispatch = dispatch;
      owner = owner;
      expired = expired;
      failed =
          subst
            (λ i.
              find_job i (
                put_job
                  (failed_row env job error_code_retries_exhausted error_message_retries_exhausted)
                  db.jobs)
              ≡ some
                  (failed_row env job error_code_retries_exhausted error_message_retries_exhausted))
            named
            (find-put_self job
              (failed_row env job error_code_retries_exhausted error_message_retries_exhausted)
              db.jobs (found_row k job db row) refl);
      other_jobs = λ i away.
          find-put_other job
            (failed_row env job error_code_retries_exhausted error_message_retries_exhausted)
            db.jobs i refl (other i away);
      other_attempts = λ i away.
          rows_of-write_other
            (closed JobAttemptStatus.exhausted env.failed_at (some error_code_retries_exhausted))
            (λ a. refl) job db.attempts i (other i away);
      same_events = refl;
      same_runs = refl;
    }

exhaust-IsAbandoned :
    (env : Env) (k d t : ℕ) (db : Db) (job : Job)
    → find_job k db.jobs ≡ some job
    → is_terminal job.status ≡ false
    → opt_eq (some d) job.dispatch_id ≡ true
    → opt_eq (some t) job.owner_token ≡ true
    → is_some (live_lease env.now job) ≡ false
    → IsAbandoned env k d t db (exhaust env job db)
unfolding exhaust run_exhaustion_hook
exhaust-IsAbandoned env k d t db job row unfinished dispatch owner expired =
    let failed = fail_locked-IsAbandoned env k d t db job row unfinished dispatch owner expired in
    elim (Bool-cases (any (λ t. str_eq t job.job_type) env.hooks)) [
      | inl e ↦ rw e (record {
        job = failed.job;
        row = failed.row;
        unfinished = failed.unfinished;
        dispatch = failed.dispatch;
        owner = failed.owner;
        expired = failed.expired;
        failed = failed.failed;
        other_jobs = failed.other_jobs;
        other_attempts = failed.other_attempts;
        same_events = failed.same_events;
        same_runs = failed.same_runs;
      })
      | inr e ↦ rw e failed
    ]

-- The three tests before the settlement.
by_tests {ℓ} :
    {A : Type ℓ} (a b c : Bool) (stale settled made : A)
    → (if a then ok stale else if not b then ok stale else if c then ok stale else ok settled)
      ≡ ok made
    → (made ≡ stale) ⊎ ((a ≡ false) × (b ≡ true) × (c ≡ false) × (made ≡ settled))
by_tests true b c stale settled made h = inl cc
by_tests false false c stale settled made h = inl cc
by_tests false true true stale settled made h = inl cc
by_tests false true false stale settled made h = inr (refl, refl, refl, cc)

both_hold : (a b : Bool) → (a && b) ≡ true → (a ≡ true) × (b ≡ true)
both_hold true b h = (refl, h)
both_hold false b h = cc

settled-IsAbandoned :
    (env : Env) (k d t : ℕ) (db : Db) (made : Option Job × Db)
    → settle_after_retries_exhausted env k (some d) (some t) db ≡ ok made
    → (made ≡ (none, db)) ⊎ ((is_some made.0 ≡ true) × IsAbandoned env k d t db made.1)
unfolding settle_after_retries_exhausted names_current_attempt
settled-IsAbandoned env k d t db made h =
    let (job, read, rest) = bind-ok (get_job_locked k db) _ h in
    let row : find_job k db.jobs ≡ some job =
      or_raise-ok job_not_found (find_job k db.jobs) (sym (get_job_locked_lem k db) ∙ read) in
    elim (by_tests (is_terminal job.status)
      (opt_eq (some d) job.dispatch_id && opt_eq (some t) job.owner_token)
      (is_some (live_lease env.now job)) (none, db) _ made rest) [
        | inl same ↦ inl same
        | inr (unfinished, named, expired, same) ↦
            let (dispatch, owner) = both_hold _ _ named in
            inr (
              ap (λ (x : Option Job × Db). is_some x.0) same,
              subst (λ (x : Option Job × Db). IsAbandoned env k d t db x.1) (sym same)
                  (exhaust-IsAbandoned env k d t db job row unfinished dispatch owner expired),
            )
      ]

finalized-IsAbandoned :
    (env : Env) (k d t : ℕ) (db : Db) (r : Result (Option Job × Db))
    → ((made : Option Job × Db)
        → r ≡ ok made
        → (made ≡ (none, db)) ⊎ ((is_some made.0 ≡ true) × IsAbandoned env k d t db made.1))
    → ((finalized db r).1 ≡ db)
      ⊎ (((finalized db r).0 ≡ ok FinalizerEnd.recorded)
          × IsAbandoned env k d t db (finalized db r).1)
unfolding finalized
finalized-IsAbandoned env k d t db (ok (some job, left)) h = elim (h (some job, left) refl) [
  | inl same ↦ inl (ap (λ (x : Option Job × Db). x.1) same)
  | inr (_, abandoned) ↦ inr (refl, abandoned)
]
finalized-IsAbandoned env k d t db (ok (none, left)) h = elim (h (none, left) refl) [
  | inl same ↦ inl (ap (λ (x : Option Job × Db). x.1) same)
  | inr (impossible, _) ↦ cc
]
finalized-IsAbandoned env k d t db (err (not_found m)) h = inl refl
finalized-IsAbandoned env k d t db (err e) h = inl refl

-- On a message that the wrapper stamped for an attempt, where identifiers are read back as they are
-- written, the finalizer leaves the tables as they are, or it finds the message's job unfinished,
-- its current dispatch and owner token still the stamped ones and its lease over: it then fails that
-- job as exhausted, without a lease, reports it recorded, and changes no other job, no attempt of
-- another job, no event and no maintenance run. It never settles a newer attempt.
pub finalizer_spares_newer_attempts :
    (env : Env) (parse : String → Option ℕ) (str : ℕ → String) (k d t : ℕ) (m : Message) (db : Db)
    → ((n : ℕ) → parse (str n) ≡ some n)
    → m.job_id ≡ some (str k)
    → ((mark_job_failed_after_retries env parse (stamped str d t m) db).1 ≡ db)
      ⊎ (((mark_job_failed_after_retries env parse (stamped str d t m) db).0
            ≡ ok FinalizerEnd.recorded)
          × IsAbandoned env k d t db
              (mark_job_failed_after_retries env parse (stamped str d t m) db).1)
unfolding mark_job_failed_after_retries job_id_from_message attempt_stamp_from_message stamp_of
    finalize stamped identifier
finalizer_spares_newer_attempts env parse str k d t m db reads names = rw names (
    rw (reads k, reads d, reads t)
      (finalized-IsAbandoned env k d t db
        (settle_after_retries_exhausted env k (some d) (some t) db)
        (settled-IsAbandoned env k d t db)))
