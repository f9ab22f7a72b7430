-- ===== src/Jobs/Ledger.antt =====
-- One job with its attempts, the newest first: what the job's row says of its ledger, and what
-- closing the current attempt does to it.
use app_template.Prelude.{
  ℕ, suc, ◌≤◌, true, false, Option, none, some, String, List, [], ◌∷◌, ◌==◌, ◌≡◌, ◌≢◌, refl, arith,
  inl, inr, Option-cases, is_some, find_first, length, if◌then◌else◌,
}
use app_template.Models.Jobs.{Job, JobStatus, JobAttempt, JobAttemptStatus, is_open, is_running}
use app_template.Database.{is_held_by, rows_of, find_held-job, find_held-rows_of, rows_of-update}
use app_template.Jobs.Policy.{max_attempts}
use app_template.Jobs.Lookup.{find_held, running_attempt, write_attempt, close_attempt, closed}

-- No attempt is open.
abbrev pub AllClosed : List JobAttempt → Type 0
AllClosed [] = Unit
AllClosed (a ∷ older) = (is_open a.status ≡ false) × AllClosed older

-- The attempts are numbered 1, 2, … in the order of the claims, and are the job's own.
abbrev pub Numbered : (job_id organisation_id : ℕ) → List JobAttempt → Type 0
Numbered k o [] = Unit
Numbered k o (a ∷ older) =
    (a.attempt_number ≡ suc (length older))
    × (a.job_id ≡ k)
    × (a.organisation_id ≡ o)
    × Numbered k o older

-- The newest attempt is open and carries the job's credential, dispatch and lease.
abbrev pub Held : List JobAttempt → Job → Type 0
Held [] j = ⊥
Held (a ∷ older) j =
    (is_open a.status ≡ true)
    × (j.owner_token ≡ some a.owner_token)
    × (j.dispatch_id ≡ some a.dispatch_id)
    × (j.execution_lease_expires_at ≡ some a.lease_expires_at)
    × AllClosed older

abbrev pub Phase : JobStatus → List JobAttempt → Job → Type 0
Phase JobStatus.queued rows j =
    AllClosed rows × (j.execution_lease_expires_at ≡ none) × (is_some j.dispatch_id ≡ true)
Phase JobStatus.running rows j = Held rows j
Phase _ rows j =
    AllClosed rows × (j.execution_lease_expires_at ≡ none) × (is_some j.completed_at ≡ true)

pub record JobIsValid (rows : List JobAttempt) (j : Job) : Type 0 where
  pub capped : j.attempt_count ≤ max_attempts
  pub complete : length rows ≡ j.attempt_count
  pub numbered : Numbered j.id j.organisation_id rows
  pub progress_capped : j.progress ≤ 100
  pub phase : Phase j.status rows j

pub find_held-AllClosed :
    (k t : ℕ) (rows : List JobAttempt) → AllClosed rows → find_first (is_held_by k t) rows ≡ none
find_held-AllClosed k t [] h = refl
find_held-AllClosed k t (a ∷ older) h = ground (arith, find_held-AllClosed k t older h.1)

pub find_held-rows :
    (k : ℕ) (t : Option ℕ) (rs : List JobAttempt) → find_held k t (rows_of k rs) ≡ find_held k t rs
unfolding find_held
find_held-rows k none rs = refl
find_held-rows k (some t) rs = find_held-rows_of k t rs

-- A write to the current attempt of a job goes to the job's own rows only.
module _ (change : JobAttempt → JobAttempt)
    (keeps : (a : JobAttempt) → (change a).job_id ≡ a.job_id) where
  write_rows :
      (k i : ℕ) (t : Option ℕ) (rs : List JobAttempt)
      → rows_of k (write_attempt (find_held i t rs) change rs)
        ≡ (if k == i then write_attempt (find_held i t rs) change (rows_of k rs) else rows_of k rs)
  unfolding find_held write_attempt
  write_rows k i none rs = ground arith
  write_rows k i (some t) rs = elim (Option-cases (find_first (is_held_by i t) rs)) [
    | inl e ↦ rw (e, write_attempt) (ground arith)
    | inr (a, e) ↦
        let own = find_held-job i t a rs e in
        rw (e, write_attempt)
          (ground (arith, rows_of-update change keeps k a.job_id a.owner_token rs, own))
  ]

  pub rows_of-write_self :
      (j : Job) (rs : List JobAttempt)
      → rows_of j.id (write_attempt (running_attempt j rs) change rs)
        ≡ write_attempt (running_attempt j (rows_of j.id rs)) change (rows_of j.id rs)
  unfolding running_attempt
  rows_of-write_self j rs =
      rw find_held-rows (ground (arith, write_rows j.id j.id j.owner_token rs))

  pub rows_of-write_other :
      (j : Job) (rs : List JobAttempt) (k : ℕ)
      → k ≢ j.id
      → rows_of k (write_attempt (running_attempt j rs) change rs) ≡ rows_of k rs
  unfolding running_attempt
  rows_of-write_other j rs k h = ground (arith, write_rows k j.id j.owner_token rs)

  -- The owner's attempt is the head of its ledger.
  pub Held-write :
      (a : JobAttempt) (older : List JobAttempt) (j : Job)
      → Numbered j.id j.organisation_id (a ∷ older)
      → Held (a ∷ older) j
      → write_attempt (running_attempt j (a ∷ older)) change (a ∷ older) ≡ change a ∷ older
  unfolding running_attempt find_held write_attempt
  Held-write a older j n h =
      let found : is_held_by j.id a.owner_token a ≡ true = ground arith in
      let again : is_held_by a.job_id a.owner_token a ≡ true = ground arith in
      rw (h.1, find_held) (rw (found, write_attempt) (rw again refl))

pub Phase-running :
    (s : JobStatus) (rows : List JobAttempt) (j : Job)
    → is_running s ≡ true
    → Phase s rows j
    → Held rows j
Phase-running JobStatus.running rows j e h = h
Phase-running JobStatus.queued rows j e h = cc
Phase-running JobStatus.succeeded rows j e h = cc
Phase-running JobStatus.failed rows j e h = cc
Phase-running JobStatus.cancelled rows j e h = cc

-- The owner of a held job has its attempt.
pub Held-running_attempt :
    (rs : List JobAttempt) (j : Job) (rows : List JobAttempt)
    → rows_of j.id rs ≡ rows
    → Numbered j.id j.organisation_id rows
    → Held rows j
    → is_some (running_attempt j rs) ≡ true
unfolding running_attempt find_held
Held-running_attempt rs j [] e n h = absurd h
Held-running_attempt rs j (a ∷ older) e n h =
    let found : is_held_by j.id a.owner_token a ≡ true = ground arith in
    rw (h.1, find_held) (rw (← find_held-rows_of j.id a.owner_token rs) (rw e (rw found refl)))

module _ (status : JobAttemptStatus) (now : ℕ) (code : Option String) where
  pub rows_of-close_self :
      (j : Job) (rs : List JobAttempt)
      → rows_of j.id (close_attempt (running_attempt j rs) status now code rs)
        ≡ close_attempt (running_attempt j (rows_of j.id rs)) status now code (rows_of j.id rs)
  unfolding close_attempt
  rows_of-close_self = rows_of-write_self (closed status now code) (λ _. refl)

  pub rows_of-close_other :
      (j : Job) (rs : List JobAttempt) (k : ℕ)
      → k ≢ j.id
      → rows_of k (close_attempt (running_attempt j rs) status now code rs) ≡ rows_of k rs
  unfolding close_attempt
  rows_of-close_other = rows_of-write_other (closed status now code) (λ _. refl)

  -- What is left of a ledger after its current attempt is closed.
  abbrev pub Closes : List JobAttempt → List JobAttempt → Job → Type 0
  Closes rows' rows j =
      AllClosed rows' × (length rows' ≡ length rows) × Numbered j.id j.organisation_id rows'

  Held-close :
      (rows : List JobAttempt) (j : Job)
      → is_open status ≡ false
      → Numbered j.id j.organisation_id rows
      → Held rows j
      → Closes (close_attempt (running_attempt j rows) status now code rows) rows j
  unfolding close_attempt
  Held-close [] j shut n h = absurd h
  Held-close (a ∷ older) j shut n h =
      rw (Held-write (closed status now code) (λ _. refl) a older j n h) ((shut, h.4), refl, n)

  AllClosed-close :
      (rows : List JobAttempt) (j : Job)
      → Numbered j.id j.organisation_id rows
      → AllClosed rows
      → Closes (close_attempt (running_attempt j rows) status now code rows) rows j
  unfolding running_attempt find_held close_attempt
  AllClosed-close rows j n h = elim (Option-cases j.owner_token) [
    | inl e ↦ rw (e, find_held) (h, refl, n)
    | inr (t, e) ↦
        rw (e, find_held) (rw (find_held-AllClosed j.id t rows h, close_attempt) (h, refl, n))
  ]

  -- Whatever the job's state, closing its current attempt leaves no attempt open.
  pub Phase-close :
      (rows : List JobAttempt) (j : Job)
      → is_open status ≡ false
      → JobIsValid rows j
      → Closes (close_attempt (running_attempt j rows) status now code rows) rows j
  Phase-close rows j shut v = by_status j.status v.phase
    where
      by_status :
          (s : JobStatus)
          → Phase s rows j
          → Closes (close_attempt (running_attempt j rows) status now code rows) rows j
      by_status JobStatus.running h = Held-close rows j shut v.numbered h
      by_status JobStatus.queued h = AllClosed-close rows j v.numbered h.0
      by_status JobStatus.succeeded h = AllClosed-close rows j v.numbered h.0
      by_status JobStatus.failed h = AllClosed-close rows j v.numbered h.0
      by_status JobStatus.cancelled h = AllClosed-close rows j v.numbered h.0
