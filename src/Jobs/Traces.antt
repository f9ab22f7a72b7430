-- ===== src/Jobs/Traces.antt =====
-- What no sequence of calls can do to a terminal job, or to a job under a live lease.
use app_template.Prelude.{
  ℕ, ◌<◌, true, Option, none, some, List, [], ◌∷◌, ◌==◌, ◌≡◌, ◌≢◌, refl, sym, ◌∙◌, ap, subst, arith,
  inl, inr, Bool-cases, ==→eq,
}
use app_template.Prelude.Int.{ℤ}
use app_template.Models.Jobs.{Job}
use app_template.Database.{Db, Env, find_job, find_job-id}
use app_template.Jobs.Policy.{is_terminal}
use app_template.Jobs.Claim.{claim_dispatch}
use app_template.Jobs.Settle.{
  settle_retryable_failure, update_progress, succeed, fail, settle_after_retries_exhausted,
  settle_dead_initial_dispatch, fail_undelivered, in_range,
}
use app_template.Jobs.Invariant.{after}
use app_template.Jobs.Calls.{Call, step, run}
use app_template.Jobs.Frame.{
  Same, fail-Same, succeed-Same, update_progress-Same, settle_retryable_failure-Same,
  settle_after_retries_exhausted-Same, claim_dispatch-Same, schedule_job-Same,
  fail_undelivered-Same,
}
use app_template.Jobs.Protection
use app_template.Jobs.Leases
use app_template.Jobs.Leases.{IsLeased}

module _ (k : ℕ) (j : Job) (db : Db) (found : find_job k db.jobs ≡ some j) where
  -- A call on another job keeps the row, and one on this job leaves the tables alone.
  by_name :
      (i : ℕ) (new : Db)
      → (k ≢ i → Same k db new)
      → (k ≡ i → new ≡ db)
      → find_job k new.jobs ≡ some j
  by_name i new other self = elim (Bool-cases (k == i)) [
    | inl e ↦ rw (self (==→eq k i e)) found
    | inr e ↦ other (ground arith) ∙ found
  ]

  -- The call behind a dead event, whose job is found by its identifier.
  by_aggregate :
      (env : Env) (e : ℕ) (aggregate organisation : Option ℕ)
      → ((o : ℕ) → (fail_undelivered env e o (some j) db).1 ≡ db)
      → find_job k (settle_dead_initial_dispatch env e aggregate organisation db).1.jobs ≡ some j
  unfolding settle_dead_initial_dispatch
  by_aggregate env e none organisation self = found
  by_aggregate env e (some i) none self = found
  by_aggregate env e (some i) (some o) self = by_row (find_job i db.jobs) refl
    where
      by_row :
          (row : Option Job)
          → find_job i db.jobs ≡ row
          → find_job k (fail_undelivered env e o row db).1.jobs ≡ some j
      by_row none eq = unfold fail_undelivered in found
      by_row (some r) eq = elim (Bool-cases (k == r.id)) [
        | inl same ↦
            let here : i ≡ k = sym (find_job-id i r db.jobs eq) ∙ sym (==→eq k r.id same) in
            let again : find_job i db.jobs ≡ some j = rw here found in
            let row : r ≡ j = cc in rw row (rw (self o) found)
        | inr away ↦ fail_undelivered-Same k env e o r db (ground arith) ∙ found
      ]

  step-terminal :
      is_terminal j.status ≡ true → (c : Env × Call) → find_job k (step c db).jobs ≡ some j
  unfolding step
  step-terminal over (env, Call.schedules o t r u i fresh) =
      schedule_job-Same k j env o t r u i fresh db found ∙ found
  step-terminal over (env, Call.claims i) =
      by_name i (after db (claim_dispatch env i db)) (claim_dispatch-Same k env i db) λ e.
        subst (λ i'. after db (claim_dispatch env i' db) ≡ db) e
          (Protection.claim_dispatch-terminal k j db found env over)
  step-terminal over (env, Call.retries i t) =
      by_name i (after db (settle_retryable_failure env i t db))
        (λ n. settle_retryable_failure-Same k env i db n t)
        λ e.
          subst (λ i'. after db (settle_retryable_failure env i' t db) ≡ db) e
            (Protection.settle_retryable_failure-terminal k j db found env over t)
  step-terminal over (env, Call.progresses i p t) =
      by_name i (after db (update_progress env i p t db))
        (λ n. update_progress-Same k env i db n p t)
        λ e.
          subst (λ i'. after db (update_progress env i' p t db) ≡ db) e
            (Protection.update_progress-terminal k j db found env over p t)
  step-terminal over (env, Call.succeeds i r t) =
      by_name i (after db (succeed env i r t db)) (λ n. succeed-Same k env i db n r t)
        λ e.
          subst (λ i'. after db (succeed env i' r t db) ≡ db) e
            (Protection.succeed-terminal k j db found env over r t)
  step-terminal over (env, Call.fails i c m t) =
      by_name i (after db (fail env i c m t db)) (λ n. fail-Same k env i db n c m t)
        λ e.
          subst (λ i'. after db (fail env i' c m t db) ≡ db) e
            (Protection.fail-terminal k j db found env over c m t)
  step-terminal over (env, Call.exhausts i d t) =
      by_name i (after db (settle_after_retries_exhausted env i d t db))
        (λ n. settle_after_retries_exhausted-Same k env i db n d t)
        λ e.
          subst (λ i'. after db (settle_after_retries_exhausted env i' d t db) ≡ db) e
            (Protection.settle_after_retries_exhausted-terminal k j db found env over d t)
  step-terminal over (env, Call.undeliverable e i o) =
      by_aggregate env e i o (Protection.fail_undelivered-terminal k j db found env over e)

-- A terminal job is never changed again, by any sequence of calls: claims, settlements and
-- progress under any token, exhausted or undeliverable messages, new jobs.
pub terminal_is_final :
    (k : ℕ) (j : Job) (cs : List (Env × Call)) (db : Db)
    → find_job k db.jobs ≡ some j
    → is_terminal j.status ≡ true
    → find_job k (run cs db).jobs ≡ some j
unfolding run
terminal_is_final k j [] db found over = found
terminal_is_final k j (c ∷ cs) db found over =
    terminal_is_final k j cs (step c db) (step-terminal k j db found over c) over

-- The token that a call presents.
abbrev pub token_of : Call → Option ℕ
token_of (Call.retries i t) = some t
token_of (Call.progresses i p t) = t
token_of (Call.succeeds i r t) = t
token_of (Call.fails i c m t) = t
token_of _ = none

-- A call before the end of the lease that does not present the owner's token.
abbrev pub IsForeign : (t until : ℕ) → Env × Call → Type 0
IsForeign t until (env, c) = (env.now < until) × (token_of c ≢ some t)

abbrev pub AllForeign : (t until : ℕ) → List (Env × Call) → Type 0
AllForeign t until [] = Unit
AllForeign t until (c ∷ cs) = IsForeign t until c × AllForeign t until cs

module _ (k : ℕ) (j : Job) (db : Db) (found : find_job k db.jobs ≡ some j) (t until : ℕ)
    (held : IsLeased j t until) where
  foreign_progress :
      (env : Env) (p : ℤ) (x : Option ℕ) → x ≢ some t → after db (update_progress env k p x db) ≡ db
  foreign_progress env p x h = elim (Bool-cases (in_range p)) [
    | inl ranged ↦
        ap (after db) (Leases.update_progress-stale k j db found env t until held p x h ranged)
    | inr outside ↦ unfold update_progress in rw outside
  ]

  step-leased : (c : Env × Call) → IsForeign t until c → find_job k (step c db).jobs ≡ some j
  unfolding step
  step-leased (env, Call.schedules o y r u i fresh) h =
      schedule_job-Same k j env o y r u i fresh db found ∙ found
  step-leased (env, Call.claims i) h =
      by_name k j db found i (after db (claim_dispatch env i db)) (claim_dispatch-Same k env i db)
        λ e.
          subst (λ i'. after db (claim_dispatch env i' db) ≡ db) e
            (ap (after db) (Leases.claim_dispatch-deferred k j db found env t until held h.0))
  step-leased (env, Call.retries i x) h =
      by_name k j db found i (after db (settle_retryable_failure env i x db))
        (λ n. settle_retryable_failure-Same k env i db n x)
        λ e.
          subst (λ i'. after db (settle_retryable_failure env i' x db) ≡ db) e
            (ap (after db)
              (Leases.settle_retryable_failure-stale k j db found env t until held x h.1))
  step-leased (env, Call.progresses i p x) h =
      by_name k j db found i (after db (update_progress env i p x db))
        (λ n. update_progress-Same k env i db n p x)
        λ e.
          subst (λ i'. after db (update_progress env i' p x db) ≡ db) e
            (foreign_progress env p x h.1)
  step-leased (env, Call.succeeds i r x) h =
      by_name k j db found i (after db (succeed env i r x db)) (λ n. succeed-Same k env i db n r x)
        λ e.
          subst (λ i'. after db (succeed env i' r x db) ≡ db) e
            (ap (after db) (Leases.succeed-stale k j db found env t until held r x h.1))
  step-leased (env, Call.fails i c m x) h =
      by_name k j db found i (after db (fail env i c m x db)) (λ n. fail-Same k env i db n c m x)
        λ e.
          subst (λ i'. after db (fail env i' c m x db) ≡ db) e
            (ap (after db) (Leases.fail-stale k j db found env t until held c m x h.1))
  step-leased (env, Call.exhausts i d x) h =
      by_name k j db found i (after db (settle_after_retries_exhausted env i d x db))
        (λ n. settle_after_retries_exhausted-Same k env i db n d x)
        λ e.
          subst (λ i'. after db (settle_after_retries_exhausted env i' d x db) ≡ db) e
            (ap (after db)
              (Leases.settle_after_retries_exhausted-live k j db found env t until held h.0 d x))
  step-leased (env, Call.undeliverable e i o) h =
      by_aggregate k j db found env e i o
        (λ o'. ap (λ r. r.1) (Leases.fail_undelivered-running k j db found env t until held e o'))

-- Mutual exclusion: while the lease of a running job is live, no sequence of calls that does not
-- present the owner's token changes the job's row. Claims, older tokens, missing tokens, exhausted
-- messages of any stamp and dead events included.
pub lease_is_exclusive :
    (k : ℕ) (j : Job) (t until : ℕ) (cs : List (Env × Call)) (db : Db)
    → find_job k db.jobs ≡ some j
    → IsLeased j t until
    → AllForeign t until cs
    → find_job k (run cs db).jobs ≡ some j
unfolding run
lease_is_exclusive k j t until [] db found held foreign = found
lease_is_exclusive k j t until (c ∷ cs) db found held foreign =
    lease_is_exclusive k j t until cs (step c db)
      (step-leased k j db found t until held c foreign.0) held foreign.1
