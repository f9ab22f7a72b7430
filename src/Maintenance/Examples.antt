-- ===== src/Maintenance/Examples.antt =====
-- Concrete runs of the calls on one maintenance run.
use app_template.Prelude.{ℕ, false, none, some, List, [], ◌∷◌, ◌≡◌, refl, subst, arith}
use app_template.Models.Outbox.{DedupKey}
use app_template.Models.Maintenance.{MaintenanceRun, MaintenanceRunStatus, MaintenanceTaskType}
use app_template.Database.{Db, Env, find_run}
use app_template.Jobs.Calls.{empty_db}
use app_template.Jobs.Samples.{at}
use app_template.Maintenance.Claim.{is_other_task}
use app_template.Maintenance.Runs.{RunCall, run_steps}
use app_template.Maintenance.Runs.Validity.{RunsAreValid, RunIsValid, run_steps-IsValid}
use app_template.Maintenance.Fence.{AllForeignTo, run_lease_is_exclusive}

-- The run 4, under the token 21 until 900 005 ms.
abbrev sweeping : MaintenanceRun
sweeping = record {
  id = 4;
  task_type = MaintenanceTaskType.ai_retention;
  schedule_key = DedupKey.schedule "ai.retention" 1;
  scheduled_for = 0;
  status = MaintenanceRunStatus.running;
  attempt_count = 1;
  owner_token = some 21;
  lease_expires_at = some 900005;
  taken_over = false;
  error_code = none;
  started_at = some 5;
  completed_at = none;
}

abbrev sweeping_db : Db
sweeping_db = record empty_db { runs = sweeping ∷ [] }

abbrev other_calls : List (Env × RunCall)
other_calls =
    (at 60 40, RunCall.claims 4 (some MaintenanceTaskType.ai_retention))
    ∷ (at 70 50, RunCall.completes 4 20)
    ∷ (at 80 60, RunCall.retries 4 20 "maintenance_transient_failure")
    ∷ []

foreign_calls_foreign : AllForeignTo sweeping 21 900005 other_calls
unfolding is_other_task
foreign_calls_foreign = ((omega arith, refl), (ground arith, (ground arith, tt)))

sweeping-found : (k : ℕ) (r : MaintenanceRun) → find_run k sweeping_db.runs ≡ some r → sweeping ≡ r
sweeping-found k r h = ground arith

sweeping_db-AreValid : RunsAreValid sweeping_db
sweeping_db-AreValid = record {
  each = λ k r h.
      subst RunIsValid (sweeping-found k r h)
        (record { capped = omega arith; phase = (refl, refl, refl) });
}

run_steps-IsValid_example : RunsAreValid (run_steps other_calls sweeping_db)
run_steps-IsValid_example = run_steps-IsValid other_calls sweeping_db sweeping_db-AreValid

run_lease_is_exclusive_example : find_run 4 (run_steps other_calls sweeping_db).runs ≡ some sweeping
run_lease_is_exclusive_example =
    run_lease_is_exclusive 4 sweeping 21 900005 other_calls sweeping_db refl
      (record { is_active = refl; owner = refl; lease = refl }) foreign_calls_foreign
