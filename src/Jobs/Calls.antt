-- ===== src/Jobs/Calls.antt =====
-- Sequences of service calls: every interleaving of workers, producers and coordinators is one,
-- since a call is a transaction under the job's row lock.
use app_template.Prelude.{ℕ, String, Option, List, [], ◌∷◌}
use app_template.Prelude.Int.{ℤ}
use app_template.Database.{Db, Env}
use app_template.Jobs.Claim.{schedule_job, claim_dispatch}
use app_template.Jobs.Settle.{
  settle_retryable_failure, update_progress, succeed, fail, settle_after_retries_exhausted,
  settle_dead_initial_dispatch,
}
use app_template.Jobs.Invariant.{IsValid, after}
use app_template.Jobs.Invariant.Settling.{
  fail-IsValid, succeed-IsValid, settle_after_retries_exhausted-IsValid,
  settle_dead_initial_dispatch-IsValid,
}
use app_template.Jobs.Invariant.Working.{update_progress-IsValid, settle_retryable_failure-IsValid}
use app_template.Jobs.Invariant.Claiming.{claim_dispatch-IsValid, schedule_job-IsValid}

pub data Call : Type 0 where
  schedules :
      (organisation_id : ℕ) (job_type input_reference : String) (actor_user_id job_id : Option ℕ)
      (fresh_job : ℕ)
      → Call
  claims : (job_id : ℕ) → Call
  retries : (job_id owner_token : ℕ) → Call
  progresses : (job_id : ℕ) (progress : ℤ) (owner_token : Option ℕ) → Call
  succeeds : (job_id : ℕ) (result_reference : Option String) (owner_token : Option ℕ) → Call
  fails : (job_id : ℕ) (error_code error_message : String) (owner_token : Option ℕ) → Call
  exhausts : (job_id : ℕ) (dispatch_id owner_token : Option ℕ) → Call
  undeliverable : (event_id : ℕ) (aggregate_id organisation_id : Option ℕ) → Call

-- One call and the tables that it leaves.
unfoldable pub step : Env × Call → Db → Db
step (env, Call.schedules o t r u k fresh) db = after db (schedule_job env o t r u k fresh db)
step (env, Call.claims k) db = after db (claim_dispatch env k db)
step (env, Call.retries k t) db = after db (settle_retryable_failure env k t db)
step (env, Call.progresses k p t) db = after db (update_progress env k p t db)
step (env, Call.succeeds k r t) db = after db (succeed env k r t db)
step (env, Call.fails k c m t) db = after db (fail env k c m t db)
step (env, Call.exhausts k d t) db = after db (settle_after_retries_exhausted env k d t db)
step (env, Call.undeliverable e k o) db = (settle_dead_initial_dispatch env e k o db).1

unfoldable pub run : List (Env × Call) → Db → Db
run [] db = db
run (c ∷ cs) db = run cs (step c db)

abbrev pub empty_db : Db
empty_db = record { jobs = []; attempts = []; events = []; runs = []; audit = []; hook_calls = [] }

pub step-IsValid : (c : Env × Call) (db : Db) → IsValid db → IsValid (step c db)
unfolding step
step-IsValid (env, Call.schedules o t r u k fresh) db v =
    schedule_job-IsValid env o t r u k fresh db v
step-IsValid (env, Call.claims k) db v = claim_dispatch-IsValid env k db v
step-IsValid (env, Call.retries k t) db v = settle_retryable_failure-IsValid env k t db v
step-IsValid (env, Call.progresses k p t) db v = update_progress-IsValid env k p t db v
step-IsValid (env, Call.succeeds k r t) db v = succeed-IsValid env k r t db v
step-IsValid (env, Call.fails k c m t) db v = fail-IsValid env k c m t db v
step-IsValid (env, Call.exhausts k d t) db v = settle_after_retries_exhausted-IsValid env k d t db v
step-IsValid (env, Call.undeliverable e k o) db v =
    settle_dead_initial_dispatch-IsValid env e k o db v

-- Every sequence of calls keeps every job in agreement with its attempt ledger: at most three
-- attempts, as many rows as the job counts, numbered 1, 2, … and of the job's organisation; a
-- running job is held by its newest attempt alone, which carries the job's owner token, dispatch
-- and lease; any other job has no open attempt and no lease, a queued one names a dispatch, and a
-- terminal one has a completion time; progress is at most 100; no attempt stands without a job.
pub run-IsValid : (cs : List (Env × Call)) (db : Db) → IsValid db → IsValid (run cs db)
unfolding run
run-IsValid [] db v = v
run-IsValid (c ∷ cs) db v = run-IsValid cs (step c db) (step-IsValid c db v)
