-- ===== src/Jobs/Ownership.antt =====
-- A claim hands the job to one new owner, and `verify_ownership` knows that owner alone.
use app_template.Prelude.{
  ℕ, ◌+◌, ◌*◌, ◌<◌, Bool, true, false, none, some, ◌∷◌, ◌≡◌, ◌≢◌, ◌↔◌, refl, sym, subst, ◌∙◌, arith,
  if◌then◌else◌, is_some,
}
use app_template.Models.Jobs.{Job, JobStatus}
use app_template.Models.Errors.{Result, ok, or_raise, ◌>>=◌, bind-ok, or_raise-ok}
use app_template.Database.{
  Db, Env, find_job, find_job-id, insert_attempt, insert_attempt-ok, put_job,
}
use app_template.Jobs.Policy.{is_terminal, max_attempts, ClaimOutcome, ClaimResult, JobOwnership}
use app_template.Jobs.Lookup.{
  verify_ownership, check_ownership, running_attempt, get_job_locked, read_job, bootstrap_job,
  job_not_found,
}
use app_template.Jobs.Claim.{
  claim_dispatch, claim_locked, take_claim, claimed_row, new_attempt, live_lease, not_yet_due,
  defer_or, abandon_old, claim_result, claiming, id_or,
}
use app_template.Jobs.Invariant.{IsValid, get_job_locked_lem, find-put_self, found_row}
use app_template.Jobs.Ledger.{Held-running_attempt, Phase-running}
use app_template.Jobs.Leases.{IsLeased}

take_claim-ok :
    (env : Env) (j : Job) (db db' : Db) (r : ClaimResult)
    → take_claim env j db ≡ ok (r, db')
    → (r ≡ claim_result env j)
      × (db' ≡ record (claiming env j db) {
        attempts = new_attempt env j ∷ abandon_old env j db.attempts;
      })
unfolding take_claim
take_claim-ok env j db db' r h =
    let (d, inserted, rest) =
      bind-ok (insert_attempt (new_attempt env j) (claiming env j db)) _ h in
    let row = insert_attempt-ok (new_attempt env j) (claiming env j db) d inserted in (cc, cc)

claimed_by_taking :
    (env : Env) (j : Job) (db db' : Db) (r : ClaimResult)
    → claim_locked env j db ≡ ok (r, db')
    → r.outcome ≡ ClaimOutcome.claimed
    → take_claim env j db ≡ ok (r, db')
unfolding claim_locked defer_or
claimed_by_taking env j db db' r h e = ground arith

-- Where a locked call returned, the job was there.
pub locked-ok {ℓ} :
    {A : Type ℓ} (k : ℕ) (db : Db) (rest : Job → Result A) {a : A}
    → (get_job_locked k db >>= rest) ≡ ok a
    → (j : Job) × (find_job j.id db.jobs ≡ some j) × (j.id ≡ k) × (rest j ≡ ok a)
locked-ok k db rest h =
    let (j, read, returned) = bind-ok (get_job_locked k db) rest h in
    let row : or_raise (find_job k db.jobs) job_not_found ≡ ok j =
      sym (get_job_locked_lem k db) ∙ read in
    let found : find_job k db.jobs ≡ some j = or_raise-ok _ (find_job k db.jobs) row in
    (j, found_row k j db found, find_job-id k j db.jobs found, returned)

claimed_guards :
    (env : Env) (j : Job) (db db' : Db) (r : ClaimResult)
    → claim_locked env j db ≡ ok (r, db')
    → r.outcome ≡ ClaimOutcome.claimed
    → (is_terminal j.status ≡ false)
      × (live_lease env.now j ≡ none)
      × (not_yet_due env.now j db.events ≡ none)
      × (j.attempt_count < max_attempts)
unfolding claim_locked defer_or
claimed_guards env j db db' r h e = ground arith

-- A successful claim found a job that was not terminal, had no live lease, was due, and had
-- attempts left. It leaves the job running under the new owner token until the end of its lease,
-- with one attempt more, and returns that row with its dispatch and token.
pub claim_dispatch-IsLeased :
    (env : Env) (k : ℕ) (db db' : Db) (r : ClaimResult)
    → claim_dispatch env k db ≡ ok (r, db')
    → r.outcome ≡ ClaimOutcome.claimed
    → (j : Job) × ((find_job k db.jobs ≡ some j)
        × (is_terminal j.status ≡ false)
        × (live_lease env.now j ≡ none)
        × (not_yet_due env.now j db.events ≡ none)
        × (j.attempt_count < max_attempts))
      × ((find_job k db'.jobs ≡ some r.job)
          × IsLeased r.job env.new_owner (env.now + env.lease_seconds * 1000)
          × (r.job.attempt_count ≡ j.attempt_count + 1)
          × (r.owner_token ≡ some env.new_owner)
          × (r.dispatch_id ≡ r.job.dispatch_id))
unfolding claim_dispatch claimed_row claim_result
claim_dispatch-IsLeased env k db db' r h e =
    let (j, here, named, run) = locked-ok k db (λ job. claim_locked env job db) h in
    let (a, b, c, d) = claimed_guards env j db db' r run e in
    let (result, tables) = take_claim-ok env j db db' r (claimed_by_taking env j db db' r run e) in
    let found : find_job k db.jobs ≡ some j = subst (λ i. find_job i db.jobs ≡ some j) named here in
    let new : find_job k (put_job (claimed_row env j) db.jobs) ≡ some (claimed_row env j) =
      subst (λ i. find_job i (put_job (claimed_row env j) db.jobs) ≡ some (claimed_row env j)) named
        (find-put_self j (claimed_row env j) db.jobs here refl) in
    (
      j,
      (found, a, b, c, d),
      rw (result, tables)
          (new, record { is_active = refl; owner = refl; lease = refl }, refl, refl, refl),
    )

pub claimed_dispatch_id :
    (env : Env) (k : ℕ) (db db' : Db) (r : ClaimResult)
    → claim_dispatch env k db ≡ ok (r, db')
    → r.outcome ≡ ClaimOutcome.claimed
    → (d : ℕ) × (r.dispatch_id ≡ some d)
unfolding claim_dispatch claim_result
claimed_dispatch_id env k db db' r h e =
    let (j, here, named, run) = locked-ok k db (λ job. claim_locked env job db) h in
    let (result, tables) = take_claim-ok env j db db' r (claimed_by_taking env j db db' r run e) in
    (id_or j.dispatch_id env.new_dispatch, rw result refl)

read_row :
    (k : ℕ) (lock : Bool) (db : Db)
    → (if lock then get_job_locked k db else read_job k db)
      ≡ or_raise (find_job k db.jobs) job_not_found
unfolding read_job bootstrap_job
read_row k true db = get_job_locked_lem k db
read_row k false db = refl

check_ownership-ok :
    (o : JobOwnership) (db : Db) (i j : Job)
    → check_ownership o db i ≡ ok j
    → (i ≡ j)
      × (i.organisation_id ≡ o.organisation_id)
      × (i.status ≡ JobStatus.running)
      × (i.owner_token ≡ some o.owner_token)
      × (is_some (running_attempt i db.attempts) ≡ true)
unfolding check_ownership
check_ownership-ok o db i j h = ground arith

-- What `verify_ownership` asks of a row.
abbrev pub IsOwnedRow : JobOwnership → Db → Job → Type 0
IsOwnedRow o db j =
    (find_job o.job_id db.jobs ≡ some j)
    × (j.organisation_id ≡ o.organisation_id)
    × (j.status ≡ JobStatus.running)
    × (j.owner_token ≡ some o.owner_token)

pub verify_ownership-ok :
    (o : JobOwnership) (lock : Bool) (db : Db) (j : Job)
    → verify_ownership o lock db ≡ ok j
    → IsOwnedRow o db j × (is_some (running_attempt j db.attempts) ≡ true)
unfolding verify_ownership
verify_ownership-ok o lock db j h =
    let (i, read, checked) =
      bind-ok (if lock then get_job_locked o.job_id db else read_job o.job_id db)
        (check_ownership o db) h in
    let row : or_raise (find_job o.job_id db.jobs) job_not_found ≡ ok i =
      sym (read_row o.job_id lock db) ∙ read in
    let (same, org, running, owner, open_attempt) = check_ownership-ok o db i j checked in
    rw (← same) ((or_raise-ok _ _ row, org, running, owner), open_attempt)

pub verify_ownership-accepts :
    (o : JobOwnership) (lock : Bool) (db : Db) (j : Job)
    → IsOwnedRow o db j
    → is_some (running_attempt j db.attempts) ≡ true
    → verify_ownership o lock db ≡ ok j
unfolding verify_ownership check_ownership
verify_ownership-accepts o lock db j (found, org, running, owner) open_attempt =
    rw (read_row o.job_id lock db) (rw found (ground (arith, open_attempt)))

-- On tables that the service wrote, the row of a running job has an open attempt.
pub valid-running_attempt :
    (o : JobOwnership) (db : Db) (j : Job)
    → IsValid db
    → IsOwnedRow o db j
    → is_some (running_attempt j db.attempts) ≡ true
valid-running_attempt o db j v (found, org, running, owner) =
    let valid = v.jobs_valid j.id j (found_row o.job_id j db found) in
    let open_attempt =
      Held-running_attempt db.attempts j _ refl valid.numbered
        (Phase-running j.status _ j (ground arith) valid.phase) in
    ground (arith, open_attempt)

-- On any tables `verify_ownership` returns a job exactly when it is the row of that identifier, of
-- that organisation, running, owned by that token, and has an open attempt in the ledger: an owner
-- without one is refused too. The lock changes no answer.
pub verify_ownership_iff :
    (o : JobOwnership) (lock : Bool) (db : Db) (j : Job)
    → (verify_ownership o lock db ≡ ok j)
      ↔ (IsOwnedRow o db j × (is_some (running_attempt j db.attempts) ≡ true))
verify_ownership_iff o lock db j =
    (verify_ownership-ok o lock db j, λ h. verify_ownership-accepts o lock db j h.0 h.1)

-- After a claim every other credential is refused, the one that a dead owner still holds among
-- them, whatever the lock and organisation that it names.
pub superseded_is_refused :
    (env : Env) (k : ℕ) (db db' : Db) (r : ClaimResult) (o : JobOwnership) (lock : Bool) (j : Job)
    → claim_dispatch env k db ≡ ok (r, db')
    → r.outcome ≡ ClaimOutcome.claimed
    → o.job_id ≡ k
    → o.owner_token ≢ env.new_owner
    → verify_ownership o lock db' ≢ ok j
superseded_is_refused env k db db' r o lock j h e named other verified =
    let (old, before, now_held) = claim_dispatch-IsLeased env k db db' r h e in
    let ((found, org, running, owner), _) = verify_ownership-ok o lock db' j verified in
    let row : find_job o.job_id db'.jobs ≡ some r.job = rw named now_held.0 in
    let held : r.job.owner_token ≡ some env.new_owner = now_held.1.owner in ground arith
