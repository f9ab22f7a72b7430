-- ===== src/Jobs/Invariant/Claiming.antt =====
-- Claims and scheduling keep the tables valid.
use app_template.Prelude.{
  ℕ, false, Option, none, some, String, List, [], ◌∷◌, ◌≡◌, ◌≢◌, refl, ◌∙◌, arith, inl, inr,
  Bool-cases, leb, ◌==◌,
}
use app_template.Models.Jobs.{Job, JobStatus, JobAttempt, JobAttemptStatus, is_running}
use app_template.Models.Errors.{Result}
use app_template.Database.{
  Db, Env, find_job, rows_of, insert_attempt, insert_attempt-ok, rows_of-cons_self,
  rows_of-cons_other, insert_job, insert_job-ok, insert_job-new,
}
use app_template.Outbox.Service.{create_dispatch_event}
use app_template.Outbox.Insertion.{create_dispatch_event-ok}
use app_template.Jobs.Policy.{is_terminal, max_attempts, ClaimResult}
use app_template.Jobs.Claim.{
  claim_dispatch, claim_locked, take_claim, claimed_row, new_attempt, abandon_old, live_lease,
  not_yet_due, defer_or, schedule_job, queued_job, id_or,
}
use app_template.Jobs.Ledger.{
  JobIsValid, Closes, AllClosed, Phase, rows_of-close_self, rows_of-close_other, Phase-close,
}
use app_template.Jobs.Invariant.{
  IsValid, AreValid, write-AreValid, after, after_locked, after_bind, after_if,
}
use app_template.Jobs.Invariant.Settling.{exhaust-IsValid}

abbrev pub abandoned : JobAttemptStatus
abandoned = JobAttemptStatus.abandoned

Phase-idle :
    (s : JobStatus) (rows : List JobAttempt) (j : Job)
    → is_running s ≡ false
    → Phase s rows j
    → AllClosed rows
Phase-idle JobStatus.running rows j e h = cc
Phase-idle JobStatus.queued rows j e h = h.0
Phase-idle JobStatus.succeeded rows j e h = h.0
Phase-idle JobStatus.failed rows j e h = h.0
Phase-idle JobStatus.cancelled rows j e h = h.0

module _ (env : Env) (j : Job) (rs : List JobAttempt) where
  pub abandon_old-Closes :
      JobIsValid (rows_of j.id rs) j
      → Closes abandoned env.now none (rows_of j.id (abandon_old env j rs)) (rows_of j.id rs) j
  unfolding abandon_old
  abandon_old-Closes v = elim (Bool-cases (is_running j.status)) [
    | inl e ↦ rw e (
        rw (rows_of-close_self abandoned env.now none j rs)
          (Phase-close abandoned env.now none (rows_of j.id rs) j refl v))
    | inr e ↦ rw e (Phase-idle j.status _ j e v.phase, refl, v.numbered)
  ]

  abandon_old-other : (k : ℕ) → k ≢ j.id → rows_of k (abandon_old env j rs) ≡ rows_of k rs
  unfolding abandon_old
  abandon_old-other k h = elim (Bool-cases (is_running j.status)) [
    | inl e ↦ rw e (rows_of-close_other abandoned env.now none j rs k h)
    | inr e ↦ rw e
  ]

claimed_row-JobIsValid :
    (env : Env) (j : Job) (rows before : List JobAttempt)
    → leb max_attempts j.attempt_count ≡ false
    → JobIsValid before j
    → Closes abandoned env.now none rows before j
    → JobIsValid (new_attempt env j ∷ rows) (claimed_row env j)
unfolding claimed_row new_attempt
claimed_row-JobIsValid env j rows before room b c = record {
  capped = ground arith;
  complete = omega (arith, c.1, b.complete);
  numbered = (omega (arith, c.1, b.complete), refl, refl, c.2);
  progress_capped = b.progress_capped;
  phase = (refl, refl, refl, refl, c.0);
}

pub take_claim-IsValid :
    (env : Env) (j : Job) (db : Db)
    → IsValid db
    → find_job j.id db.jobs ≡ some j
    → leb max_attempts j.attempt_count ≡ false
    → IsValid (after db (take_claim env j db))
unfolding take_claim
take_claim-IsValid env j db v found room =
    after_bind IsValid db v (insert_attempt (new_attempt env j) _) _ λ db' e.
      rw (insert_attempt-ok (new_attempt env j) _ db' e) (
        write-AreValid db.jobs db.attempts v j (claimed_row env j) _ found
          (unfold claimed_row in refl)
          (λ k h.
            rows_of-cons_other k (new_attempt env j) _ (unfold new_attempt in h)
            ∙ abandon_old-other env j db.attempts k h)
          (rw
            (rows_of-cons_self j.id (new_attempt env j) (abandon_old env j db.attempts)
              (unfold new_attempt in refl))
            (claimed_row-JobIsValid env j _ _ room (v.jobs_valid j.id j found)
              (abandon_old-Closes env j db.attempts (v.jobs_valid j.id j found)))))

after_defer :
    (j : Job) (db : Db) (o : Option ℕ) (rest : Result (ClaimResult × Db))
    → IsValid db
    → IsValid (after db rest)
    → IsValid (after db (defer_or j db o rest))
unfolding defer_or
after_defer j db none rest v h = h
after_defer j db (some t) rest v h = v

pub claim_dispatch-IsValid :
    (env : Env) (job_id : ℕ) (db : Db)
    → IsValid db
    → IsValid (after db (claim_dispatch env job_id db))
unfolding claim_dispatch claim_locked
claim_dispatch-IsValid env job_id db v = after_locked IsValid db v job_id _ λ j found.
    after_if IsValid db v (is_terminal j.status) _ _ (λ _. v)
      λ _. after_defer j db (live_lease env.now j) _ v (
        after_defer j db (not_yet_due env.now j db.events) _ v (
          after_if IsValid db v (leb max_attempts j.attempt_count) _ _
            (λ _. exhaust-IsValid env j db v found)
            (λ room. take_claim-IsValid env j db v found room)))

-- A queued job that was never claimed agrees with an empty ledger.
queued_job-JobIsValid :
    (env : Env) (o : ℕ) (t r : String) (u : Option ℕ) (k : ℕ) (rows : List JobAttempt)
    → rows ≡ []
    → JobIsValid rows (queued_job env o t r u k)
unfolding queued_job
queued_job-JobIsValid env o t r u k rows e = rw e (record {
  capped = omega arith;
  complete = refl;
  numbered = tt;
  progress_capped = omega arith;
  phase = (tt, refl, refl);
})

cons-AreValid :
    (js : List Job) (rs : List JobAttempt) (j : Job)
    → AreValid js rs
    → find_job j.id js ≡ none
    → (rows_of j.id rs ≡ [] → JobIsValid (rows_of j.id rs) j)
    → AreValid (j ∷ js) rs
cons-AreValid js rs j v new valid = record {
  jobs_valid = λ k i h. elim (Bool-cases (j.id == k)) [
    | inl e ↦
        let here : k ≡ j.id = ground arith in
        let row : i ≡ j = ground arith in rw (here, row) (valid (v.no_orphans j.id new))
    | inr e ↦ v.jobs_valid k i (ground arith)
  ];
  no_orphans = λ k h. v.no_orphans k (ground arith);
}

pub schedule_job-IsValid :
    (env : Env) (o : ℕ) (t r : String) (u k : Option ℕ) (fresh : ℕ) (db : Db)
    → IsValid db
    → IsValid (after db (schedule_job env o t r u k fresh db))
unfolding schedule_job
schedule_job-IsValid env o t r u k fresh db v =
    after_bind IsValid db v (insert_job job db) _ λ db₁ e₁.
      after_bind IsValid db v
        (create_dispatch_event o job.id env.new_dispatch none env.now env.now db₁) _
        λ db₂ e₂. rw (create_dispatch_event-ok _ _ _ _ _ _ db₁ db₂ e₂) (
          rw (insert_job-ok job db db₁ e₁) (
            cons-AreValid db.jobs db.attempts job v (insert_job-new job db db₁ e₁)
              (λ none_yet. queued_job-JobIsValid env o t r u _ _ none_yet)))
  where
    job : Job
    job = queued_job env o t r u (id_or k fresh)
