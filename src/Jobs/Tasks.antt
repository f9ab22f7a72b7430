-- ===== src/Jobs/Tasks.antt =====
-- backend/app/modules/jobs/tasks.py: the finalizer of a broker message whose retries are exhausted.
use app_template.Prelude.{ℕ, String, Option, none, some}
use app_template.Models.Jobs.{Job}
use app_template.Models.Errors.{not_found, failure, Result, ok, err, or_raise, ◌>>=◌}
use app_template.Database.{Db, Env}
use app_template.Jobs.Settle.{settle_after_retries_exhausted}

pub record AttemptStamp : Type 0 where
  pub dispatch_id : ℕ
  pub owner_token : ℕ

-- The message as the middleware forwards it: `kwargs["job_id"]`, and the two options.
pub record Message : Type 0 where
  pub job_id : Option String
  pub dispatch_id : Option String
  pub owner_token : Option String

-- A key that is missing raises `KeyError`, a text that is no UUID `ValueError`.
unfoldable pub identifier : (parse : String → Option ℕ) → String → Result ℕ
identifier parse s = or_raise (parse s) (failure "ValueError")

unfoldable pub job_id_from_message : (parse : String → Option ℕ) → Message → Result ℕ
unfolding identifier
job_id_from_message parse m = or_raise m.job_id (failure "KeyError") >>= identifier parse

unfoldable pub stamp_of :
    (parse : String → Option ℕ) (dispatch_id owner_token : Option String)
    → Result (Option AttemptStamp)
unfolding identifier
stamp_of parse (some d) (some t) = do
  dispatch ← identifier parse d
  owner ← identifier parse t
  ok (some (record { dispatch_id = dispatch; owner_token = owner }))
stamp_of parse none t = ok none
stamp_of parse (some d) none = ok none

unfoldable pub attempt_stamp_from_message :
    (parse : String → Option ℕ) → Message → Result (Option AttemptStamp)
unfolding stamp_of
attempt_stamp_from_message parse m = stamp_of parse m.dispatch_id m.owner_token

-- How the finalizer ends: the reason that it logs.
pub data FinalizerEnd : Type 0 where
  recorded job_not_found stale_dispatch : FinalizerEnd

abbrev pub dispatch_of : Option AttemptStamp → Option ℕ
dispatch_of none = none
dispatch_of (some s) = some s.dispatch_id

abbrev pub owner_of : Option AttemptStamp → Option ℕ
owner_of none = none
owner_of (some s) = some s.owner_token

unfoldable pub finalized : Db → Result (Option Job × Db) → Result FinalizerEnd × Db
finalized db (ok (some job, db')) = (ok FinalizerEnd.recorded, db')
finalized db (ok (none, db')) = (ok FinalizerEnd.stale_dispatch, db')
finalized db (err (not_found m)) = (ok FinalizerEnd.job_not_found, db)
finalized db (err e) = (err e, db)

unfoldable pub finalize :
    Env → (job_id : Result ℕ) → Result (Option AttemptStamp) → Db → Result FinalizerEnd × Db
unfolding finalized
finalize env (err e) stamp db = (err e, db)
finalize env (ok k) (err e) db = (err e, db)
finalize env (ok k) (ok stamp) db =
    finalized db (settle_after_retries_exhausted env k (dispatch_of stamp) (owner_of stamp) db)

unfoldable pub mark_job_failed_after_retries :
    Env → (parse : String → Option ℕ) → Message → Db → Result FinalizerEnd × Db
unfolding job_id_from_message attempt_stamp_from_message finalize
mark_job_failed_after_retries env parse m =
    finalize env (job_id_from_message parse m) (attempt_stamp_from_message parse m)

-- `_stamp_current_message` of modules/jobs/execution.py on the message's options.
unfoldable pub stamped : (str : ℕ → String) (dispatch_id owner_token : ℕ) → Message → Message
stamped str d t m = record m { dispatch_id = some (str d); owner_token = some (str t) }
