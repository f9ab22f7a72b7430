-- ===== src/Database/Insertion.antt =====
-- What an accepted insert adds.
use app_template.Prelude.{◌≡◌, arith, ◌∷◌, none}
use app_template.Models.Jobs.{Job, JobAttempt}
use app_template.Models.Errors.{ok}
use app_template.Database.Tables.{Db, insert_job, insert_attempt, find_job}
use app_template.Database.Laws.{find_job-any}

pub insert_job-ok :
    (j : Job) (db db' : Db) → insert_job j db ≡ ok db' → db' ≡ record db { jobs = j ∷ db.jobs }
unfolding insert_job
insert_job-ok j db db' h = ground arith

-- The primary key admits new identifiers only.
pub insert_job-new :
    (j : Job) (db db' : Db) → insert_job j db ≡ ok db' → find_job j.id db.jobs ≡ none
unfolding insert_job
insert_job-new j db db' h = ground (arith, find_job-any j.id db.jobs)

pub insert_attempt-ok :
    (a : JobAttempt) (db db' : Db)
    → insert_attempt a db ≡ ok db'
    → db' ≡ record db { attempts = a ∷ db.attempts }
unfolding insert_attempt
insert_attempt-ok a db db' h = ground arith
