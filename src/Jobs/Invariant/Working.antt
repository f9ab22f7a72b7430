-- ===== src/Jobs/Invariant/Working.antt =====
-- Progress and retries of backend/app/modules/jobs/service.py keep the tables valid.
use app_template.Prelude.{
  ℕ, ◌≤◌, ◌+◌, ◌*◌, length, [], ◌∷◌, Bool, true, false, Option, some, List, ◌≡◌, refl, ◌∙◌, arith,
  leb, leb→le, not,
}
use app_template.Prelude.Int.{ℤ, pos, negsuc}
use app_template.Models.Jobs.{Job, JobStatus, JobAttempt, JobAttemptStatus, is_running}
use app_template.Models.Errors.{Error, ok, raise_if}
use app_template.Database.{Db, Env, find_job}
use app_template.Outbox.Insertion.{create_dispatch_event-ok}
use app_template.Jobs.Policy.{is_terminal, max_attempts}
use app_template.Jobs.Lookup.{running_attempt, write_attempt, verify_owner}
use app_template.Jobs.Settle.{
  settle_retryable_failure, schedule_retry, update_progress, retry_row, progress_row, renewed,
  in_range, magnitude,
}
use app_template.Jobs.Ledger.{
  JobIsValid, Numbered, Held, Held-write, Phase-running, rows_of-write_self, rows_of-write_other,
}
use app_template.Jobs.Invariant.{
  IsValid, write-AreValid, after, close-AreValid, after_locked, after_bind, after_if,
}
use app_template.Jobs.Invariant.Settling.{exhaust-IsValid}

-- Renewing a lease renews it on the job and on its open attempt.
renewed-JobIsValid :
    (env : Env) (j : Job) (progress : ℕ) (rows : List JobAttempt)
    → progress ≤ 100
    → is_running j.status ≡ true
    → JobIsValid rows j
    → JobIsValid
        (write_attempt (running_attempt j rows) (renewed (env.now + env.lease_seconds * 1000)) rows)
        (progress_row env j progress)
unfolding progress_row
renewed-JobIsValid env j progress rows le e b =
    go rows b.complete b.numbered (Phase-running j.status rows j e b.phase)
  where
    running : j.status ≡ JobStatus.running
    running = ground arith

    go :
        (rows : List JobAttempt)
        → length rows ≡ j.attempt_count
        → Numbered j.id j.organisation_id rows
        → Held rows j
        → JobIsValid
            (write_attempt
              (running_attempt j rows)
              (renewed (env.now + env.lease_seconds * 1000))
              rows)
            (progress_row env j progress)
    go [] c n h = absurd h
    go (a ∷ older) c n h =
        rw (Held-write (renewed (env.now + env.lease_seconds * 1000)) (λ _. refl) a older j n h)
          (record {
            capped = b.capped;
            complete = c;
            numbered = n;
            progress_capped = le;
            phase = rw running (h.0, h.1, h.2, refl, h.4);
          })

in_range-magnitude : (p : ℤ) → in_range p ≡ true → magnitude p ≤ 100
unfolding in_range magnitude
in_range-magnitude (pos n) h = leb→le n 100 h
in_range-magnitude (negsuc n) h = cc

-- A test that the code passed by not raising.
raise_if-not : (b : Bool) (e : Error) (u : Unit {0}) → raise_if (not b) e ≡ ok u → b ≡ true
raise_if-not true e u h = refl
raise_if-not false e u h = cc

pub update_progress-IsValid :
    (env : Env) (job_id : ℕ) (progress : ℤ) (token : Option ℕ) (db : Db)
    → IsValid db
    → IsValid (after db (update_progress env job_id progress token db))
unfolding update_progress
update_progress-IsValid env job_id progress token db v =
    after_bind IsValid db v (raise_if (not (in_range progress)) _) _ λ u ranged.
      after_locked IsValid db v job_id _ λ j found.
        after_if IsValid db v (is_terminal j.status) _ _
          (λ _. after_bind IsValid db v (verify_owner j token) _ λ _ _. v)
          λ _. after_bind IsValid db v (verify_owner j token) _ λ _ _.
            after_bind IsValid db v (raise_if (not (is_running j.status)) _) _ λ w running.
              write-AreValid db.jobs db.attempts v j (progress_row env j (magnitude progress)) _
                found (unfold progress_row in refl)
                (rows_of-write_other _ (λ _. refl) j db.attempts)
                (rw
                  (rows_of-write_self (renewed (env.now + env.lease_seconds * 1000)) (λ _. refl) j
                    db.attempts)
                  (renewed-JobIsValid env j (magnitude progress) _
                    (in_range-magnitude progress (raise_if-not _ _ u ranged))
                    (raise_if-not _ _ w running) (v.jobs_valid j.id j found)))

schedule_retry-IsValid :
    (env : Env) (j : Job) (db db' : Db)
    → IsValid db
    → find_job j.id db.jobs ≡ some j
    → schedule_retry env j db ≡ ok db'
    → IsValid db'
unfolding schedule_retry retry_row
schedule_retry-IsValid env j db db' v found e = rw (create_dispatch_event-ok _ _ _ _ _ _ _ db' e) (
    close-AreValid db.jobs db.attempts v j (retry_row env j) JobAttemptStatus.retry_scheduled
      env.now _ found refl refl
      λ rows b c. record {
        capped = b.capped;
        complete = c.1 ∙ b.complete;
        numbered = c.2;
        progress_capped = b.progress_capped;
        phase = (c.0, refl, refl);
      })

pub settle_retryable_failure-IsValid :
    (env : Env) (job_id token : ℕ) (db : Db)
    → IsValid db
    → IsValid (after db (settle_retryable_failure env job_id token db))
unfolding settle_retryable_failure
settle_retryable_failure-IsValid env job_id token db v =
    after_locked IsValid db v job_id _ λ j found.
      after_bind IsValid db v (verify_owner j (some token)) _ λ _ _.
        after_if IsValid db v (is_terminal j.status) _ _ (λ _. v)
          λ _.
            after_if IsValid db v (not (is_running j.status)) _ _ (λ _. v)
              λ _.
                after_if IsValid db v (leb max_attempts j.attempt_count) _ _
                  (λ _. exhaust-IsValid env j db v found)
                  λ _.
                    after_bind IsValid db v (schedule_retry env j db) _
                      λ db' e. schedule_retry-IsValid env j db db' v found e
