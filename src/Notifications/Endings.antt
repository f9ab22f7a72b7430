-- ===== src/Notifications/Endings.antt =====
-- backend/app/modules/notifications/tasks.py: what each end of an attempt leaves of the queue.
use app_template.Prelude.{ℕ, ◌≤◌, String, Bool, true, false, some, ◌==◌, ◌≡◌, refl}
use app_template.Models.Jobs.{Job}
use app_template.Models.Notifications.{NotificationDelivery, NotificationDeliveryStatus}
use app_template.Models.Errors.{Result, ok, err}
use app_template.Database.{Env}
use app_template.Database.App.{AppDb}
use app_template.Jobs.Settle.{succeed}
use app_template.Jobs.Execution.{DurableJobContext, HandlerEnd, ownership}
use app_template.Notifications.Service.{commit}
use app_template.Notifications.Email.{
  SendAnswer, EmailAttempt, ends, or_raises, fail_invalid_context, settle_acceptance_unknown,
  settle_rejected, after_answer, settle_job_for_terminal_delivery,
}
use app_template.Notifications.Queue.{
  Within, Leaves, Leaves-bind, Leaves-core, Leaves-yield, fail_job-Leaves, succeeded-Yields,
  failed-Yields, attention-Yields, returned-Yields,
}

abbrev pub is_transient : SendAnswer → Bool
is_transient SendAnswer.transient = true
is_transient _ = false

module _ (k bound : ℕ) where
  -- An attempt that ends with the delivery waiting at most so much, and that has asked the provider
  -- or not.
  abbrev pub Ends : Bool → EmailAttempt → Type 0
  Ends sent a = (a.has_sent ≡ sent) × Within k bound a.db.deliveries

  -- A transaction that ends the attempt.
  pub ended-Ends {ℓ} :
      {A : Type ℓ} (sent : Bool) (e : HandlerEnd) (db : AppDb) (r : Result (A × AppDb))
      → Leaves (Within k bound) db r
      → Ends sent (or_raises sent (commit db r) (λ _. ends e sent))
  unfolding or_raises Leaves
  ended-Ends sent e db (err x) h = (refl, h)
  ended-Ends sent e db (ok (a, reached)) h = (refl, h)

  pub fail_invalid_context-Ends :
      (env : Env) (c : DurableJobContext) (db : AppDb)
      → Within k bound db.deliveries
      → Ends false (fail_invalid_context env c db)
  unfolding fail_invalid_context
  fail_invalid_context-Ends env c db start =
      ended-Ends {A = Job} false _ db _ (fail_job-Leaves _ db start env c _ _ db start)

  pub settle_acceptance_unknown-Ends :
      (env : Env) (c : DurableJobContext) (j : ℕ) (sent : Bool) (db : AppDb)
      → Within k bound db.deliveries
      → Ends sent (settle_acceptance_unknown env c j sent db)
  unfolding settle_acceptance_unknown
  settle_acceptance_unknown-Ends env c j sent db start = ended-Ends {A = Job} sent _ db _ (
      Leaves-bind _ db start _ _
        (attention-Yields k bound env j c.organisation_id (some (ownership c)) db start)
        λ made. fail_job-Leaves _ db start env c _ _ made.1)

  pub settle_rejected-Ends :
      (env : Env) (c : DurableJobContext) (j : ℕ) (code : String) (db : AppDb)
      → Within k bound db.deliveries
      → Ends true (settle_rejected env c j code db)
  unfolding settle_rejected
  settle_rejected-Ends env c j code db start = ended-Ends {A = Job} true _ db _ (
      Leaves-bind _ db start _ _
        (failed-Yields k bound env j code c.organisation_id (some (ownership c)) db start)
        λ made. fail_job-Leaves _ db start env c _ _ made.1)

  pub settle_job-Ends :
      (env : Env) (str : ℕ → String) (c : DurableJobContext) (d : NotificationDelivery)
      (s : NotificationDeliveryStatus) (db : AppDb)
      → Within k bound db.deliveries
      → Ends false (settle_job_for_terminal_delivery env str c d s db)
  unfolding settle_job_for_terminal_delivery
  settle_job-Ends env str c d NotificationDeliveryStatus.succeeded db start =
      ended-Ends {A = Job} false _ db _ (Leaves-core _ db start _ db start)
  settle_job-Ends env str c d NotificationDeliveryStatus.attention_required db start =
      ended-Ends {A = Job} false _ db _ (fail_job-Leaves _ db start env c _ _ db start)
  settle_job-Ends env str c d NotificationDeliveryStatus.queued db start =
      ended-Ends {A = Job} false _ db _ (fail_job-Leaves _ db start env c _ _ db start)
  settle_job-Ends env str c d NotificationDeliveryStatus.running db start =
      ended-Ends {A = Job} false _ db _ (fail_job-Leaves _ db start env c _ _ db start)
  settle_job-Ends env str c d NotificationDeliveryStatus.failed db start =
      ended-Ends {A = Job} false _ db _ (fail_job-Leaves _ db start env c _ _ db start)

  pub after_answer-Ends :
      (env : Env) (c : DurableJobContext) (j : ℕ) (answer : SendAnswer) (db : AppDb)
      → Within k bound db.deliveries
      → (is_transient answer ≡ true → (k == j) ≡ true → 1 ≤ bound)
      → Ends true (after_answer env c j answer db)
  unfolding after_answer
  after_answer-Ends env c j (SendAnswer.accepted message) db start room =
      ended-Ends {A = Job} true _ db _ (
        Leaves-bind _ db start _ _
          (succeeded-Yields k bound env j message (some (ownership c)) db start)
          λ made.
            Leaves-core _ db start
              (succeed env c.job_id (some message) (some c.owner_token) made.1.core) made.1)
  after_answer-Ends env c j SendAnswer.transient db start room =
      ended-Ends {A = NotificationDelivery} true _ db _ (
        Leaves-yield _ db start _
          (returned-Yields k bound j (some (ownership c)) db start (room refl)))
  after_answer-Ends env c j SendAnswer.unknown db start room =
      settle_acceptance_unknown-Ends env c j true db start
  after_answer-Ends env c j SendAnswer.rejected db start room =
      settle_rejected-Ends env c j "permanently_rejected" db start
  after_answer-Ends env c j SendAnswer.unclassified db start room =
      settle_rejected-Ends env c j "unclassified_provider_error" db start
  after_answer-Ends env c j (SendAnswer.lost e) db start room = (refl, start)
