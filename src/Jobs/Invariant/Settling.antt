-- ===== src/Jobs/Invariant/Settling.antt =====
-- The settlements of backend/app/modules/jobs/service.py keep the tables valid.
use app_template.Prelude.{
  ℕ, false, Option, none, some, String, List, ◌≡◌, refl, ◌∙◌, arith, inl, inr, Bool-cases, is_some,
  str_eq, not,
}
use app_template.Models.Jobs.{Job, JobAttempt, JobAttemptStatus, is_open, is_failed, is_succeeded}
use app_template.Models.Errors.{raise_if}
use app_template.Database.{Db, Env, find_job, any}
use app_template.Jobs.Claim.{live_lease}
use app_template.Jobs.Policy.{is_terminal}
use app_template.Jobs.Lookup.{verify_owner}
use app_template.Jobs.Failure.{fail_locked, failed_row, run_exhaustion_hook, exhaust}
use app_template.Jobs.Settle.{
  succeed, fail, succeeded_row, settle_after_retries_exhausted, settle_dead_initial_dispatch,
  fail_undelivered, is_undelivered, names_current_attempt,
}
use app_template.Jobs.Ledger.{JobIsValid, Closes}
use app_template.Jobs.Invariant.{
  IsValid, after, close-AreValid, after_locked, after_bind, after_if, found_row,
}

-- The row that a terminal settlement leaves agrees with a ledger whose attempts are all closed.
pub failed_row-JobIsValid :
    (env : Env) (j : Job) (code message : String) (status : JobAttemptStatus) (now : ℕ)
    (error : Option String) (rows before : List JobAttempt)
    → JobIsValid before j
    → Closes status now error rows before j
    → JobIsValid rows (failed_row env j code message)
unfolding failed_row
failed_row-JobIsValid env j code message status now error rows before b c = record {
  capped = b.capped;
  complete = c.1 ∙ b.complete;
  numbered = c.2;
  progress_capped = b.progress_capped;
  phase = (c.0, refl, refl);
}

pub fail_locked-IsValid :
    (env : Env) (j : Job) (code message : String) (status : JobAttemptStatus) (db : Db)
    → IsValid db
    → find_job j.id db.jobs ≡ some j
    → is_open status ≡ false
    → IsValid (fail_locked env j code message status db)
unfolding fail_locked failed_row
fail_locked-IsValid env j code message status db v found shut =
    close-AreValid db.jobs db.attempts v j (failed_row env j code message) status env.failed_at
      (some code) found refl shut
      (λ rows. failed_row-JobIsValid env j code message status env.failed_at (some code) rows _)

pub hook-IsValid :
    (env : Env) (j : Job) (code : String) (db : Db)
    → IsValid db
    → IsValid (run_exhaustion_hook env j code db)
unfolding run_exhaustion_hook
hook-IsValid env j code db v = elim (Bool-cases (any (λ t. str_eq t j.job_type) env.hooks)) [
  | inl e ↦ rw e v
  | inr e ↦ rw e v
]

pub exhaust-IsValid :
    (env : Env) (j : Job) (db : Db)
    → IsValid db
    → find_job j.id db.jobs ≡ some j
    → IsValid (exhaust env j db)
unfolding exhaust
exhaust-IsValid env j db v found =
    hook-IsValid env j _ _
      (fail_locked-IsValid env j _ _ JobAttemptStatus.exhausted db v found refl)

pub fail-IsValid :
    (env : Env) (job_id : ℕ) (code message : String) (token : Option ℕ) (db : Db)
    → IsValid db
    → IsValid (after db (fail env job_id code message token db))
unfolding fail
fail-IsValid env job_id code message token db v = after_locked IsValid db v job_id _ λ j found.
    after_if IsValid db v (is_failed j.status) _ _ (λ _. v)
      λ _. after_bind IsValid db v (verify_owner j token) _ λ _ _.
        after_bind IsValid db v (raise_if (is_terminal j.status) _) _
          λ _ _. fail_locked-IsValid env j code message JobAttemptStatus.failed db v found refl

pub succeed-IsValid :
    (env : Env) (job_id : ℕ) (reference : Option String) (token : Option ℕ) (db : Db)
    → IsValid db
    → IsValid (after db (succeed env job_id reference token db))
unfolding succeed succeeded_row
succeed-IsValid env job_id reference token db v = after_locked IsValid db v job_id _ λ j found.
    after_if IsValid db v (is_succeeded j.status) _ _ (λ _. v)
      λ _. after_bind IsValid db v (verify_owner j token) _ λ _ _.
        after_bind IsValid db v (raise_if (is_terminal j.status) _) _ λ _ _.
          close-AreValid db.jobs db.attempts v j (succeeded_row env j reference)
            JobAttemptStatus.succeeded env.now none found refl refl
            λ rows b c. record {
              capped = b.capped;
              complete = c.1 ∙ b.complete;
              numbered = c.2;
              progress_capped = omega arith;
              phase = (c.0, refl, refl);
            }

pub settle_after_retries_exhausted-IsValid :
    (env : Env) (job_id : ℕ) (dispatch token : Option ℕ) (db : Db)
    → IsValid db
    → IsValid (after db (settle_after_retries_exhausted env job_id dispatch token db))
unfolding settle_after_retries_exhausted
settle_after_retries_exhausted-IsValid env job_id dispatch token db v =
    after_locked IsValid db v job_id _ λ j found.
      after_if IsValid db v (is_terminal j.status) _ _ (λ _. v)
        λ _.
          after_if IsValid db v (not (names_current_attempt j dispatch token)) _ _ (λ _. v)
            λ _.
              after_if IsValid db v (is_some (live_lease env.now j)) _ _ (λ _. v)
                λ _. exhaust-IsValid env j db v found

-- The failure behind a dead event.
pub settle_dead_initial_dispatch-IsValid :
    (env : Env) (event_id : ℕ) (aggregate organisation : Option ℕ) (db : Db)
    → IsValid db
    → IsValid (settle_dead_initial_dispatch env event_id aggregate organisation db).1
unfolding settle_dead_initial_dispatch
settle_dead_initial_dispatch-IsValid env event_id none organisation db v = v
settle_dead_initial_dispatch-IsValid env event_id (some k) none db v = v
settle_dead_initial_dispatch-IsValid env event_id (some k) (some o) db v =
    by_row (find_job k db.jobs) refl
  where
    by_row :
        (row : Option Job)
        → find_job k db.jobs ≡ row
        → IsValid (fail_undelivered env event_id o row db).1
    by_row none e = v
    by_row (some j) e = elim (Bool-cases (is_undelivered event_id o j)) [
      | inl dead ↦ rw dead (
          hook-IsValid env j _ _
            (fail_locked-IsValid env j _ _ JobAttemptStatus.failed db v (found_row k j db e) refl))
      | inr alive ↦ rw alive v
    ]
