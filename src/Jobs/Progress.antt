-- ===== src/Jobs/Progress.antt =====
-- A claim of a job that exists never raises.
use app_template.Prelude.{
  ℕ, ◌+◌, ◌<◌, Bool, true, false, Option, none, some, List, [], ◌∷◌, ◌==◌, ◌≡◌, refl, arith, inl,
  inr, Bool-cases, Option-cases, leb, length, update_first, if◌then◌else◌,
}
use app_template.Models.Jobs.{Job, JobAttempt, is_running, is_open}
use app_template.Models.Errors.{Result, ok}
use app_template.Database.{Db, Env, find_job, rows_of, insert_attempt, any, any-rows_of}
use app_template.Jobs.Policy.{is_terminal, max_attempts, ClaimResult, deferred_result}
use app_template.Jobs.Lookup.{close_attempt, write_attempt, running_attempt}
use app_template.Jobs.Claim.{
  claim_dispatch, claim_locked, take_claim, new_attempt, live_lease, not_yet_due, defer_or,
  abandon_old, claim_result, claiming,
}
use app_template.Jobs.Invariant.{IsValid, get_job_locked_lem, found_row}
use app_template.Jobs.Invariant.Claiming.{abandon_old-Closes}
use app_template.Jobs.Ledger.{Numbered, AllClosed}

has_token : ℕ → JobAttempt → Bool
has_token t r = r.owner_token == t

Numbered-new :
    (k o n : ℕ) (rows : List JobAttempt)
    → Numbered k o rows
    → length rows < n
    → any (λ r. r.attempt_number == n) rows ≡ false
Numbered-new k o n [] h lt = refl
Numbered-new k o n (a ∷ older) h lt = ground (arith, Numbered-new k o n older h.3)

AllClosed-none_open :
    (rows : List JobAttempt) → AllClosed rows → any (λ r. is_open r.status) rows ≡ false
AllClosed-none_open [] h = refl
AllClosed-none_open (a ∷ older) h = rw h.0 (AllClosed-none_open older h.1)

any-update :
    (p q : JobAttempt → Bool) (f : JobAttempt → JobAttempt) (rs : List JobAttempt)
    → ((a : JobAttempt) → q (f a) ≡ q a)
    → any q (update_first p f rs) ≡ any q rs
any-update p q f [] keeps = refl
any-update p q f (x ∷ rs) keeps = ground (arith, keeps x, any-update p q f rs keeps)

abandon_old-tokens :
    (env : Env) (j : Job) (rs : List JobAttempt) (t : ℕ)
    → any (λ r. r.owner_token == t) (abandon_old env j rs) ≡ any (λ r. r.owner_token == t) rs
unfolding abandon_old close_attempt write_attempt
abandon_old-tokens env j rs t = elim (Bool-cases (is_running j.status)) [
  | inr idle ↦ rw idle refl
  | inl busy ↦ elim (Option-cases (running_attempt j rs)) [
    | inl e ↦ rw busy (rw e refl)
    | inr (a, e) ↦ rw busy (rw e (any-update _ (λ r. r.owner_token == t) _ rs (λ _. refl)))
  ]
]

fits :
    (env : Env) (j : Job) (db : Db)
    → IsValid db
    → find_job j.id db.jobs ≡ some j
    → any (λ r. r.owner_token == env.new_owner) db.attempts ≡ false
    → (db' : Db) × (insert_attempt (new_attempt env j) (claiming env j db) ≡ ok db')
unfolding insert_attempt new_attempt
fits env j db v found fresh =
    let valid = v.jobs_valid j.id j found in
    let (shut, long, numbered) = abandon_old-Closes env j db.attempts valid in
    let number : any (λ r. r.attempt_number == j.attempt_count + 1)
          (rows_of j.id (abandon_old env j db.attempts))
        ≡ false =
      Numbered-new j.id j.organisation_id _ _ numbered (omega (arith, long, valid.complete)) in
    (
      record (claiming env j db) { attempts = new_attempt env j ∷ abandon_old env j db.attempts },
      rw
          (any-rows_of (λ r. r.attempt_number == j.attempt_count + 1) j.id
            (abandon_old env j db.attempts))
          (rw number (
            rw (abandon_old-tokens env j db.attempts env.new_owner) (
              rw fresh (
                rw (any-rows_of (λ r. is_open r.status) j.id (abandon_old env j db.attempts))
                  (rw (AllClosed-none_open _ shut) refl))))),
    )

pub take_claim_ok :
    (env : Env) (j : Job) (db : Db)
    → IsValid db
    → find_job j.id db.jobs ≡ some j
    → any (λ r. r.owner_token == env.new_owner) db.attempts ≡ false
    → (db' : Db) × (take_claim env j db ≡ ok (claim_result env j, db'))
unfolding take_claim
take_claim_ok env j db v found fresh =
    let (db', inserted) = fits env j db v found fresh in (db', rw inserted refl)

defer_or_returns :
    (j : Job) (db : Db) (o : Option ℕ) (rest : Result (ClaimResult × Db))
    → (x : ClaimResult × Db) × (rest ≡ ok x)
    → (x : ClaimResult × Db) × (defer_or j db o rest ≡ ok x)
unfolding defer_or
defer_or_returns j db none rest h = h
defer_or_returns j db (some t) rest h = ((deferred_result j t, db), refl)

if_returns :
    (b : Bool) (r s : Result (ClaimResult × Db))
    → (b ≡ true → (x : ClaimResult × Db) × (r ≡ ok x))
    → (b ≡ false → (x : ClaimResult × Db) × (s ≡ ok x))
    → (x : ClaimResult × Db) × ((if b then r else s) ≡ ok x)
if_returns true r s hr hs = hr refl
if_returns false r s hr hs = hs refl

-- On tables that the service wrote, claiming a job that exists always returns an outcome and a
-- committed state, where `uuid7()` returns a token that no attempt has yet: none of the three
-- unique constraints of the attempt ledger is ever hit, a takeover of an expired lease included.
pub claim_dispatch_returns :
    (env : Env) (k : ℕ) (db : Db) (j : Job)
    → IsValid db
    → find_job k db.jobs ≡ some j
    → any (λ r. r.owner_token == env.new_owner) db.attempts ≡ false
    → (x : ClaimResult × Db) × (claim_dispatch env k db ≡ ok x)
claim_dispatch_returns env k db j v found fresh =
    let (x, e) = locked_returns in
    (x, unfold claim_dispatch in (rw (get_job_locked_lem k db) (rw found e)))
  where
    locked_returns : (x : ClaimResult × Db) × (claim_locked env j db ≡ ok x)
    locked_returns =
        unfold claim_locked in
        (if_returns (is_terminal j.status) _ _ (λ _. (_, refl))
          λ _. defer_or_returns j db (live_lease env.now j) _ (
            defer_or_returns j db (not_yet_due env.now j db.events) _ (
              if_returns (leb max_attempts j.attempt_count) _ _ (λ _. (_, refl))
                λ _.
                  let (db', e) = take_claim_ok env j db v (found_row k j db found) fresh in
                  ((claim_result env j, db'), e))))
