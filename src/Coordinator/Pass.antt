-- ===== src/Coordinator/Pass.antt =====
-- backend/app/job_coordinator/reconciliation.py: one pass of reconciliation, scheduling and
-- cleanup.
use app_template.Prelude.{ℕ, Bool, length}
use app_template.Models.Errors.{Result, ok, err}
use app_template.Database.{Db, Env}
use app_template.Coordinator.Reconciliation.{reconcile_queued_jobs, reconcile_running_jobs}
use app_template.Coordinator.Upkeep.{
  schedule_maintenance_events, recover_expired_maintenance_runs, cleanup_published_events,
}

pub record ReconciliationStats : Type 0 where
  pub reconciled_jobs : ℕ
  pub recovered_running_jobs : ℕ
  pub scheduled_events : ℕ
  pub recovered_maintenance_runs : ℕ
  pub cleaned_events : ℕ

-- The settings of a pass; the three outbox settings are given together.
pub record Policy : Type 0 where
  pub threshold_seconds : ℕ
  pub cooldown_seconds : ℕ
  pub ai_retention_interval_hours : ℕ
  pub transfer_reconcile_interval_hours : ℕ
  pub outbox_retention_days : ℕ
  pub outbox_cleanup_batch_size : ℕ
  pub outbox_cleanup_interval_hours : ℕ

-- What the transactions of a pass meet: the surroundings of the n-th row of the m-th transaction,
-- the rows that others hold, and what others commit before it.
pub record Surroundings : Type 0 where
  pub envs : ℕ → ℕ → Env
  pub is_locked : ℕ → ℕ → Bool
  pub others : ℕ → Db → Db

-- A transaction that raises ends the pass; the transactions before it are committed.
abbrev pub then_do {ℓ κ} :
    {A : Type ℓ} {B : Type κ} → Db → Result (A × Db) → (A → Db → Result B × Db) → Result B × Db
then_do db (ok (a, db')) rest = rest a db'
then_do db (err e) rest = (err e, db)

unfoldable pub run_maintenance_pass :
    Surroundings → Policy → (now reconciliation_limit : ℕ) → Db → Result ReconciliationStats × Db
run_maintenance_pass w p now limit db₀ =
    let db₁ = w.others 0 db₀ in
    then_do db₁
      (reconcile_queued_jobs (w.envs 0) (w.is_locked 0) now p.threshold_seconds p.cooldown_seconds
        limit db₁)
      λ jobs db₁'.
        let db₂ = w.others 1 db₁' in
        then_do db₂
          (reconcile_running_jobs (w.envs 1) (w.is_locked 1) now p.threshold_seconds
            p.cooldown_seconds limit db₂)
          λ recovered db₂'.
            let db₃ = w.others 2 db₂' in
            then_do db₃
              (schedule_maintenance_events (w.envs 2) now p.ai_retention_interval_hours
                p.transfer_reconcile_interval_hours db₃)
              λ scheduled db₃'.
                let db₄ = w.others 3 db₃' in
                then_do db₄
                  (recover_expired_maintenance_runs (w.envs 3) (w.is_locked 3) now
                    p.cooldown_seconds limit db₄)
                  λ runs db₄'.
                    let db₅ = w.others 4 db₄' in
                    then_do db₅
                      (cleanup_published_events (w.is_locked 4) (w.envs 4 0).new_dispatch now
                        p.outbox_retention_days p.outbox_cleanup_batch_size
                        p.outbox_cleanup_interval_hours db₅)
                      λ cleaned db₅'. (
                        ok (record {
                          reconciled_jobs = length jobs;
                          recovered_running_jobs = length recovered;
                          scheduled_events = scheduled;
                          recovered_maintenance_runs = length runs;
                          cleaned_events = cleaned;
                        }),
                        db₅',
                      )
