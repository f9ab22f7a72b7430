-- ===== src/Jobs/Invariant.antt =====
-- The tables as a whole: every job agrees with its ledger, and no attempt stands without a job.
pub mod Settling
pub mod Working
pub mod Claiming
use app_template.Prelude.{
  ℕ, Bool, true, false, ◌&&◌, Option, none, some, List, [], ◌∷◌, ◌==◌, ◌≡◌, ◌≢◌, refl, sym, subst,
  ◌∙◌, arith, inl, inr, Bool-cases, ==→eq, ==_refl, String, Option-cases, is_some, find_first,
  if◌then◌else◌,
}
use app_template.Models.Jobs.{Job, JobStatus, JobAttempt, JobAttemptStatus, is_open}
use app_template.Models.Errors.{Result, ok, err, or_raise, ◌>>=◌}
use app_template.Database.{Db, find_job, put_job, rows_of, find_job-id, find_job-put}
use app_template.Jobs.Lookup.{job_not_found, get_job_locked, running_attempt, close_attempt}
use app_template.Jobs.Ledger.{
  JobIsValid, Closes, Phase-close, rows_of-close_self, rows_of-close_other,
}

pub record AreValid (js : List Job) (rs : List JobAttempt) : Type 0 where
  pub jobs_valid : (k : ℕ) (j : Job) → find_job k js ≡ some j → JobIsValid (rows_of k rs) j
  pub no_orphans : (k : ℕ) → find_job k js ≡ none → rows_of k rs ≡ []

abbrev pub IsValid : Db → Type 0
IsValid db = AreValid db.jobs db.attempts

-- The tables that a call leaves: an exception rolls everything back.
abbrev pub after {ℓ} : {A : Type ℓ} → Db → Result (A × Db) → Db
after db (ok (_, db')) = db'
after db (err _) = db

-- The two reads of the locked lookup see one row.
locked_row :
    (k : ℕ) (j : Job) (js : List Job)
    → find_job k js ≡ some j
    → find_first (λ r. r.id == k && r.organisation_id == j.organisation_id) js ≡ some j
locked_row k j [] h = cc
locked_row k j (x ∷ js) h = ground (arith, locked_row k j js)

pub get_job_locked_lem :
    (k : ℕ) (db : Db) → get_job_locked k db ≡ or_raise (find_job k db.jobs) job_not_found
unfolding get_job_locked
get_job_locked_lem k db = elim (Option-cases (find_job k db.jobs)) [
  | inl e ↦ rw e
  | inr (j, e) ↦ rw e (rw (locked_row k j db.jobs e))
]

pub find-put_self :
    (j j' : Job) (js : List Job)
    → find_job j.id js ≡ some j
    → j'.id ≡ j.id
    → find_job j.id (put_job j' js) ≡ some j'
find-put_self j j' js found same = find_job-put j.id j' js ∙ (rw (same, ==_refl j.id) (rw found))

pub find-put_other :
    (j j' : Job) (js : List Job) (k : ℕ)
    → j'.id ≡ j.id
    → k ≢ j.id
    → find_job k (put_job j' js) ≡ find_job k js
find-put_other j j' js k same h = ground (arith, find_job-put k j' js)

module _ (js : List Job) (rs : List JobAttempt) (v : AreValid js rs) where
  -- A write to one job and to its own attempts.
  pub write-AreValid :
      (j j' : Job) (rs' : List JobAttempt)
      → find_job j.id js ≡ some j
      → j'.id ≡ j.id
      → ((k : ℕ) → k ≢ j.id → rows_of k rs' ≡ rows_of k rs)
      → JobIsValid (rows_of j.id rs') j'
      → AreValid (put_job j' js) rs'
  write-AreValid j j' rs' found same others valid = record {
    jobs_valid = λ k i h. elim (Bool-cases (k == j.id)) [
      | inl e ↦
          let here : k ≡ j.id = ==→eq k j.id e in
          let new : find_job k (put_job j' js) ≡ some j' =
            rw here (find-put_self j j' js found same) in
          let row : i ≡ j' = cc in rw (here, row) valid
      | inr e ↦
          let away : k ≢ j.id = ground arith in
          rw (others k away) (v.jobs_valid k i (sym (find-put_other j j' js k same away) ∙ h))
    ];
    no_orphans = λ k h. elim (Bool-cases (k == j.id)) [
      | inl e ↦
          let here : k ≡ j.id = ==→eq k j.id e in
          let new : find_job k (put_job j' js) ≡ some j' =
            rw here (find-put_self j j' js found same) in
          cc
      | inr e ↦
          let away : k ≢ j.id = ground arith in
          others k away ∙ v.no_orphans k (sym (find-put_other j j' js k same away) ∙ h)
    ];
  }

  -- A write to one job that closes its current attempt.
  pub close-AreValid :
      (j j' : Job) (status : JobAttemptStatus) (now : ℕ) (code : Option String)
      → find_job j.id js ≡ some j
      → j'.id ≡ j.id
      → is_open status ≡ false
      → ((rows : List JobAttempt)
          → JobIsValid (rows_of j.id rs) j
          → Closes status now code rows (rows_of j.id rs) j
          → JobIsValid rows j')
      → AreValid (put_job j' js) (close_attempt (running_attempt j rs) status now code rs)
  close-AreValid j j' status now code found same shut valid =
      let before = v.jobs_valid j.id j found in
      write-AreValid j j' _ found same (rows_of-close_other status now code j rs) (
        rw (rows_of-close_self status now code j rs)
          (valid _ before (Phase-close status now code (rows_of j.id rs) j shut before)))

pub found_row :
    (k : ℕ) (j : Job) (db : Db) → find_job k db.jobs ≡ some j → find_job j.id db.jobs ≡ some j
found_row k j db e = subst (λ i. find_job i db.jobs ≡ some j) (sym (find_job-id k j db.jobs e)) e

-- What a call leaves, by the shape of its text: a predicate that holds before the call holds
-- after it, if it holds at each normal end.
module _ {A : Type 0} (P : Db → Type 0) (db : Db) (start : P db) where
  pub after_bind {ℓ} :
      {B : Type ℓ} (r : Result B) (rest : B → Result (A × Db))
      → ((b : B) → r ≡ ok b → P (after db (rest b)))
      → P (after db (r >>= rest))
  after_bind (ok b) rest h = h b refl
  after_bind (err e) rest h = start

  pub after_if :
      (test : Bool) (x y : Result (A × Db))
      → (test ≡ true → P (after db x))
      → (test ≡ false → P (after db y))
      → P (after db (if test then x else y))
  after_if true x y hx hy = hx refl
  after_if false x y hx hy = hy refl

  -- A call that begins with the locked read.
  pub after_locked :
      (k : ℕ) (rest : Job → Result (A × Db))
      → ((j : Job) → find_job j.id db.jobs ≡ some j → P (after db (rest j)))
      → P (after db (get_job_locked k db >>= rest))
  after_locked k rest h = rw (get_job_locked_lem k db) (by_row (find_job k db.jobs) refl)
    where
      by_row :
          (o : Option Job)
          → find_job k db.jobs ≡ o
          → P (after db (or_raise o job_not_found >>= rest))
      by_row none e = start
      by_row (some j) e = h j (found_row k j db e)
