-- ===== src/Database/Laws.antt =====
-- How reads of the tables see a write to one row.
use app_template.Prelude.{
  ℕ, Bool, true, ◌&&◌, none, some, List, [], ◌∷◌, ◌==◌, ◌≡◌, ◌≢◌, refl, arith, is_some, subst, none,
  inl, inr, Bool-cases, ==→eq, find_first, update_first, if◌then◌else◌,
}
use app_template.Models.Jobs.{Job, JobAttempt}
use app_template.Models.Outbox.{OutboxEvent}
use app_template.Database.Tables.{
  find_job, put_job, find_event, put_event, is_held_by, rows_of, any,
}

pub find_job-id : (k : ℕ) (j : Job) (js : List Job) → find_job k js ≡ some j → j.id ≡ k
find_job-id k j [] h = cc
find_job-id k j (x ∷ js) h = ground (arith, find_job-id k j js)

pub find_job-put :
    (k : ℕ) (j : Job) (js : List Job)
    → find_job k (put_job j js)
      ≡ (if k == j.id then (if is_some (find_job k js) then some j else none) else find_job k js)
find_job-put k j [] = ground arith
find_job-put k j (x ∷ js) = ground (arith, find_job-put k j js)

pub find_event-put :
    (k : ℕ) (e : OutboxEvent) (es : List OutboxEvent)
    → find_event k (put_event e es) ≡ (
        if k == e.id then (if is_some (find_event k es) then some e else none) else find_event k es)
find_event-put k e [] = ground arith
find_event-put k e (x ∷ es) = ground (arith, find_event-put k e es)

pub find_event-id :
    (k : ℕ) (e : OutboxEvent) (es : List OutboxEvent) → find_event k es ≡ some e → e.id ≡ k
find_event-id k e [] h = cc
find_event-id k e (x ∷ es) h = ground (arith, find_event-id k e es)

pub find_held-job :
    (k t : ℕ) (a : JobAttempt) (rs : List JobAttempt)
    → find_first (is_held_by k t) rs ≡ some a
    → (a.job_id ≡ k) × (a.owner_token ≡ t)
find_held-job k t a [] h = cc
find_held-job k t a (x ∷ rs) h = ground (arith, find_held-job k t a rs)

pub find_held-rows_of :
    (k t : ℕ) (rs : List JobAttempt)
    → find_first (is_held_by k t) (rows_of k rs) ≡ find_first (is_held_by k t) rs
find_held-rows_of k t [] = refl
find_held-rows_of k t (x ∷ rs) = ground (arith, find_held-rows_of k t rs)

module _ (f : JobAttempt → JobAttempt) (keeps : (a : JobAttempt) → (f a).job_id ≡ a.job_id)
    (p : JobAttempt → Bool) (i : ℕ) (owned : (a : JobAttempt) → p a ≡ true → a.job_id ≡ i) where
  rows_of-update_other :
      (k : ℕ) (rs : List JobAttempt) → k ≢ i → rows_of k (update_first p f rs) ≡ rows_of k rs
  rows_of-update_other k [] h = refl
  rows_of-update_other k (x ∷ rs) h = ground (arith, keeps x, owned x, rows_of-update_other k rs h)

  rows_of-update_self :
      (rs : List JobAttempt) → rows_of i (update_first p f rs) ≡ update_first p f (rows_of i rs)
  rows_of-update_self [] = refl
  rows_of-update_self (x ∷ rs) = ground (arith, keeps x, owned x, rows_of-update_self rs)

pub rows_of-update :
    (f : JobAttempt → JobAttempt)
    → ((a : JobAttempt) → (f a).job_id ≡ a.job_id)
    → (k i t : ℕ) (rs : List JobAttempt)
    → rows_of k (update_first (is_held_by i t) f rs)
      ≡ (if k == i then update_first (is_held_by i t) f (rows_of k rs) else rows_of k rs)
rows_of-update f keeps k i t rs = elim (Bool-cases (k == i)) [
  | inl same ↦
      rw same (rw (==→eq k i same) (rows_of-update_self f keeps (is_held_by i t) i owned rs))
  | inr other ↦ rw other (rows_of-update_other f keeps (is_held_by i t) i owned k rs (ground arith))
]
  where
    owned : (a : JobAttempt) → is_held_by i t a ≡ true → a.job_id ≡ i
    owned a h = ground arith

pub any-rows_of :
    (q : JobAttempt → Bool) (k : ℕ) (rs : List JobAttempt)
    → any (λ r. r.job_id == k && q r) rs ≡ any q (rows_of k rs)
any-rows_of q k [] = refl
any-rows_of q k (x ∷ rs) = ground (arith, any-rows_of q k rs)

pub find_job-any : (k : ℕ) (js : List Job) → any (λ r. r.id == k) js ≡ is_some (find_job k js)
find_job-any k [] = refl
find_job-any k (x ∷ js) = ground (arith, find_job-any k js)

pub find_event-any :
    (k : ℕ) (es : List OutboxEvent) → any (λ r. r.id == k) es ≡ is_some (find_event k es)
find_event-any k [] = refl
find_event-any k (x ∷ es) = ground (arith, find_event-any k es)

pub rows_of-cons_self :
    (k : ℕ) (a : JobAttempt) (rs : List JobAttempt)
    → a.job_id ≡ k
    → rows_of k (a ∷ rs) ≡ a ∷ rows_of k rs
rows_of-cons_self k a rs h = ground arith

pub rows_of-cons_other :
    (k : ℕ) (a : JobAttempt) (rs : List JobAttempt)
    → k ≢ a.job_id
    → rows_of k (a ∷ rs) ≡ rows_of k rs
rows_of-cons_other k a rs h = ground arith

-- A row under a new identifier hides no other.
pub find_job-cons_new :
    (k : ℕ) (i j : Job) (js : List Job)
    → find_job j.id js ≡ none
    → find_job k js ≡ some i
    → find_job k (j ∷ js) ≡ find_job k js
find_job-cons_new k i j js new found = elim (Bool-cases (j.id == k)) [
  | inl e ↦
      let here : find_job k js ≡ none = subst (λ x. find_job x js ≡ none) (==→eq j.id k e) new in cc
  | inr e ↦ rw e refl
]
