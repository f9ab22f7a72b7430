-- ===== src/Jobs/Protection.antt =====
-- No call changes a terminal job.
use app_template.Prelude.{ℕ, true, Option, some, String, ◌≡◌, refl, arith, not}
use app_template.Prelude.Int.{ℤ}
use app_template.Models.Jobs.{Job, is_failed, is_succeeded}
use app_template.Models.Errors.{Result, raise_if, ◌>>=◌}
use app_template.Database.{Db, Env, find_job}
use app_template.Jobs.Policy.{is_terminal}
use app_template.Jobs.Lookup.{verify_owner, get_job_locked}
use app_template.Jobs.Claim.{claim_dispatch, claim_locked}
use app_template.Jobs.Settle.{
  settle_retryable_failure, update_progress, succeed, fail, settle_after_retries_exhausted,
  fail_undelivered, is_undelivered, in_range,
}
use app_template.Jobs.Invariant.{after, after_bind, after_if, get_job_locked_lem}

pub locked_self :
    {A : Type 0} (k : ℕ) (j : Job) (db : Db) (rest : Job → Result (A × Db))
    → find_job k db.jobs ≡ some j
    → after db (rest j) ≡ db
    → after db (get_job_locked k db >>= rest) ≡ db
locked_self k j db rest found h = rw (get_job_locked_lem k db) (rw found h)

module _ (k : ℕ) (j : Job) (db : Db) (found : find_job k db.jobs ≡ some j) (env : Env) where
  abbrev Untouched : Db → Type 0
  Untouched db' = db' ≡ db

  module _ (over : is_terminal j.status ≡ true) where
    pub claim_dispatch-terminal : after db (claim_dispatch env k db) ≡ db
    unfolding claim_dispatch claim_locked
    claim_dispatch-terminal = locked_self k j db _ found (rw over)

    pub settle_retryable_failure-terminal :
        (t : ℕ) → after db (settle_retryable_failure env k t db) ≡ db
    unfolding settle_retryable_failure
    settle_retryable_failure-terminal t =
        locked_self k j db _ found
          (after_bind Untouched db refl (verify_owner j (some t)) _ λ _ _. rw over)

    pub update_progress-terminal :
        (p : ℤ) (t : Option ℕ) → after db (update_progress env k p t db) ≡ db
    unfolding update_progress
    update_progress-terminal p t =
        after_bind Untouched db refl (raise_if (not (in_range p)) _) _ λ _ _.
          locked_self k j db _ found
            (rw over (after_bind Untouched db refl (verify_owner j t) _ λ _ _. refl))

    pub succeed-terminal : (r : Option String) (t : Option ℕ) → after db (succeed env k r t db) ≡ db
    unfolding succeed
    succeed-terminal r t = locked_self k j db _ found (
        after_if Untouched db refl (is_succeeded j.status) _ _ (λ _. refl)
          λ _. after_bind Untouched db refl (verify_owner j t) _ λ _ _. rw over)

    pub fail-terminal : (c m : String) (t : Option ℕ) → after db (fail env k c m t db) ≡ db
    unfolding fail
    fail-terminal c m t = locked_self k j db _ found (
        after_if Untouched db refl (is_failed j.status) _ _ (λ _. refl)
          λ _. after_bind Untouched db refl (verify_owner j t) _ λ _ _. rw over)

    pub settle_after_retries_exhausted-terminal :
        (d t : Option ℕ) → after db (settle_after_retries_exhausted env k d t db) ≡ db
    unfolding settle_after_retries_exhausted
    settle_after_retries_exhausted-terminal d t = locked_self k j db _ found (rw over)

    pub fail_undelivered-terminal : (e o : ℕ) → (fail_undelivered env e o (some j) db).1 ≡ db
    unfolding fail_undelivered is_undelivered is_terminal
    fail_undelivered-terminal e o = ground arith
