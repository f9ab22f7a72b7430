-- ===== src/Coordinator/Reconciliation/Recovery.antt =====
-- The recovery of abandoned jobs keeps every job in agreement with its attempt ledger.
use app_template.Prelude.{
  ℕ, suc, Bool, true, not, Option, none, some, List, [], ◌∷◌, ◌≡◌, ◌≢◌, ◌<◌, refl, ◌∙◌, ap, subst,
  arith, inl, inr, Bool-cases, leb,
}
use app_template.Models.Jobs.{Job, JobStatus, JobAttemptStatus, is_running}
use app_template.Models.Errors.{Result, ok}
use app_template.Database.{Db, Env, find_job}
use app_template.Outbox.Insertion.{create_dispatch_event-ok}
use app_template.Jobs.Policy.{JobOwnership, max_attempts}
use app_template.Jobs.Lookup.{verify_ownership}
use app_template.Jobs.Failure.{enforce_attempt_ceiling_locked}
use app_template.Jobs.Invariant.{
  IsValid, after, after_bind, after_if, close-AreValid, found_row, find-put_self,
}
use app_template.Jobs.Invariant.Settling.{exhaust-IsValid}
use app_template.Jobs.Ownership.{verify_ownership-ok}
use app_template.Coordinator.Queries.{some_until}
use app_template.Coordinator.Reconciliation.{
  recover, recovered_row, close_running_attempt_abandoned, reconcile_running, each_job,
  reconcile_running_jobs, cooldown_bucket,
}

recover-IsValid :
    (env : Env) (bucket now : ℕ) (j : Job) (db db' : Db)
    → IsValid db
    → find_job j.id db.jobs ≡ some j
    → recover env bucket now j db ≡ ok db'
    → IsValid db'
unfolding recover recovered_row close_running_attempt_abandoned
recover-IsValid env bucket now j db db' v found e =
    rw (create_dispatch_event-ok _ _ _ _ _ _ _ db' e) (
      close-AreValid db.jobs db.attempts v j (recovered_row env j) JobAttemptStatus.abandoned now
        none found refl refl
        λ rows b c. record {
          capped = b.capped;
          complete = c.1 ∙ b.complete;
          numbered = c.2;
          progress_capped = b.progress_capped;
          phase = (c.0, refl, refl);
        })

ceiling-IsValid :
    (env : Env) (j : Job) (db : Db)
    → IsValid db
    → find_job j.id db.jobs ≡ some j
    → IsValid (enforce_attempt_ceiling_locked env j db).1
unfolding enforce_attempt_ceiling_locked
ceiling-IsValid env j db v found = elim (Bool-cases (leb max_attempts j.attempt_count)) [
  | inl y ↦ rw y (exhaust-IsValid env j db v found)
  | inr n ↦ rw n v
]

reconcile_running-IsValid :
    (env : Env) (bucket now k : ℕ) (db : Db)
    → IsValid db
    → IsValid (after db (reconcile_running env bucket now (find_job k db.jobs) db))
unfolding reconcile_running
reconcile_running-IsValid env bucket now k db v = by_row (find_job k db.jobs) refl
  where
    by_row :
        (o : Option Job)
        → find_job k db.jobs ≡ o
        → IsValid (after db (reconcile_running env bucket now o db))
    by_row none e = v
    by_row (some j) e =
        after_if IsValid db v (not (is_running j.status)) _ _ (λ _. v)
          λ _.
            after_if IsValid db v (not (some_until j.execution_lease_expires_at now)) _ _ (λ _. v)
              λ _.
                after_if IsValid db v (enforce_attempt_ceiling_locked env j db).0 _ _
                  (λ _. ceiling-IsValid env j db v (found_row k j db e))
                  λ _.
                    after_bind IsValid db v (recover env bucket now j db) _
                      λ db' r. recover-IsValid env bucket now j db db' v (found_row k j db e) r

each_job-IsValid :
    (handle : ℕ → Option Job → Db → Result (Option ℕ × Db))
    → ((n k : ℕ) (db : Db) → IsValid db → IsValid (after db (handle n (find_job k db.jobs) db)))
    → (n : ℕ) (ks : List ℕ) (db : Db) → IsValid db
    → IsValid (after db (each_job handle n ks db))
unfolding each_job
each_job-IsValid handle keeps n [] db v = v
each_job-IsValid handle keeps n (k ∷ ks) db v =
    after_bind IsValid db v (handle n (find_job k db.jobs) db) _ λ one e.
      let v' : IsValid one.1 = subst (λ r. IsValid (after db r)) e (keeps n k db v) in
      after_bind IsValid db v (each_job handle (suc n) ks one.1) _ λ rest e'.
        subst (λ r. IsValid (after one.1 r)) e' (each_job-IsValid handle keeps (suc n) ks one.1 v')

-- A whole pass over abandoned jobs keeps the tables valid, whichever rows other transactions hold
-- and whether it commits or a collision rolls it back.
pub reconcile_running_jobs-IsValid :
    (envs : ℕ → Env) (is_locked : ℕ → Bool) (now threshold_seconds cooldown_seconds limit : ℕ)
    (db : Db)
    → IsValid db
    → IsValid (
        after db
          (reconcile_running_jobs envs is_locked now threshold_seconds cooldown_seconds limit db))
unfolding reconcile_running_jobs
reconcile_running_jobs-IsValid envs is_locked now threshold cooldown limit db v =
    each_job-IsValid (λ n. reconcile_running (envs n) (cooldown_bucket now cooldown) now)
      (λ n k db' v'. reconcile_running-IsValid (envs n) (cooldown_bucket now cooldown) now k db' v')
      0 _ db v

recover-ok :
    (env : Env) (bucket now : ℕ) (j : Job) (db db' : Db)
    → find_job j.id db.jobs ≡ some j
    → recover env bucket now j db ≡ ok db'
    → find_job j.id db'.jobs ≡ some (recovered_row env j)
unfolding recover
recover-ok env bucket now j db db' found e = rw (create_dispatch_event-ok _ _ _ _ _ _ _ db' e) (
    unfold close_running_attempt_abandoned in
    (find-put_self j (recovered_row env j) db.jobs found (unfold recovered_row in refl)))

guards :
    (env : Env) (bucket now k : ℕ) (j : Job) (db db' : Db)
    → reconcile_running env bucket now (some j) db ≡ ok (some k, db')
    → (j.status ≡ JobStatus.running)
      × (some_until j.execution_lease_expires_at now ≡ true)
      × (j.attempt_count < max_attempts)
      × (j.id ≡ k)
      × (recover env bucket now j db ≡ ok db')
unfolding reconcile_running enforce_attempt_ceiling_locked
guards env bucket now k j db db' h = ground arith

-- A job is recovered only when it is running, its lease is over and it has attempts left; it is
-- then queued behind a new dispatch with a new token, and no credential for it, of any token and
-- tenant, is accepted any more.
pub recovered_is_superseded :
    (env : Env) (bucket now k : ℕ) (j i : Job) (db db' : Db) (o : JobOwnership) (lock : Bool)
    → find_job j.id db.jobs ≡ some j
    → reconcile_running env bucket now (some j) db ≡ ok (some k, db')
    → o.job_id ≡ j.id
    → (j.status ≡ JobStatus.running)
      × (some_until j.execution_lease_expires_at now ≡ true)
      × (j.attempt_count < max_attempts)
      × (find_job j.id db'.jobs ≡ some (recovered_row env j))
      × (verify_ownership o lock db' ≢ ok i)
unfolding recovered_row
recovered_is_superseded env bucket now k j i db db' o lock found h named =
    let (running, over, room, _, recovered) = guards env bucket now k j db db' h in
    let row = recover-ok env bucket now j db db' found recovered in
    (
      running,
      over,
      room,
      row,
      λ verified.
          let ((here, _, active, _), _) = verify_ownership-ok o lock db' i verified in
          let there : find_job o.job_id db'.jobs ≡ some (recovered_row env j) = rw named row in
          let same : recovered_row env j ≡ i = cc in
          let queued : (recovered_row env j).status ≡ JobStatus.running =
            ap (λ (r : Job). r.status) same ∙ active in
          cc,
    )
