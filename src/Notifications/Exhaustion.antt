-- ===== src/Notifications/Exhaustion.antt =====
-- backend/app/modules/notifications/tasks.py: the hook of a job whose attempts are exhausted, and
-- the attempts at its delivery after it.
use app_template.Prelude.{
  ℕ, String, true, false, not, Option, none, some, ◌≡◌, refl, sym, ◌∙◌, ==_refl, ap, subst, arith,
  str_eq, if◌then◌else◌, Bool-cases, inl, inr,
}
use app_template.Models.Jobs.{Job}
use app_template.Models.Notifications.{
  Notification, NotificationDelivery, NotificationDeliveryStatus, is_delivery_terminal, is_sending,
}
use app_template.Models.Errors.{not_found, failure, Result, ok, err, raise_if, bind-ok, ◌>>=◌}
use app_template.Database.{Env, find_job, any}
use app_template.Notifications.Notices.{guard-ok}
use app_template.Database.App.{AppDb}
use app_template.Jobs.Execution.{DurableJobContext}
use app_template.Notifications.Service.{find_delivery, delivery_error_codes}
use app_template.Notifications.Deliveries.{owned_delivery, settled_delivery, mark_delivery_failed}
use app_template.Notifications.Email.{
  EmailWorld, EmailAttempt, fail_invalid_context, settle_acceptance_unknown,
  settle_job_for_terminal_delivery, send, attempt_delivery, with_rows, with_id, with_recipient,
  send_notification_email_attempt,
}
use app_template.Notifications.Queue.{
  queued_at, find_delivery-put, find_delivery-id, owned_delivery-ok, ok_inj,
}
use app_template.Notifications.Endings.{fail_invalid_context-Ends, settle_job-Ends}
use app_template.Notifications.Attempts.{if_holds, rows_of, rows_of-found}

-- The delivery's own code for the failure of its job.
unfoldable pub exhaustion_code : (failure_code : String) → String
exhaustion_code code =
    if str_eq code "job_retries_exhausted"
    then "safe_retries_exhausted"
    else if str_eq code "job_dispatch_invalid"
    then "dispatch_failed"
    else "unclassified_provider_error"

-- Without a recipient, or with a reference that is no identifier, the delivery is left as it is.
unfoldable pub fail_delivery_at :
    Env
    → (failure_code : String) → Job
    → (recipient : Option ℕ) (delivery_id : Option ℕ) → AppDb
    → Result AppDb
unfolding exhaustion_code
fail_delivery_at env code job none target db = ok db
fail_delivery_at env code job (some u) none db = ok db
fail_delivery_at env code job (some u) (some k) db =
    mark_delivery_failed env k (exhaustion_code code) job.organisation_id none db >>= λ made.
    ok made.1

unfoldable pub fail_delivery_of :
    Env → (parse : String → Option ℕ) (failure_code : String) → Option Job → AppDb → Result AppDb
unfolding fail_delivery_at
fail_delivery_of env parse code none db = ok db
fail_delivery_of env parse code (some job) db =
    fail_delivery_at env code job job.created_by_user_id (parse job.input_reference) db

-- `_on_notification_email_exhausted`, in the transaction that settles the job.
unfoldable pub on_notification_email_exhausted :
    Env → (parse : String → Option ℕ) (job_id : ℕ) (failure_code : String) → AppDb → Result AppDb
unfolding fail_delivery_of
on_notification_email_exhausted env parse j code db =
    fail_delivery_of env parse code (find_job j db.core.jobs) db

-- The delivery is finished.
abbrev pub IsFinished : ℕ → AppDb → Type 0
IsFinished k db =
    (d : NotificationDelivery) × (find_delivery k db.deliveries ≡ some d)
    × (is_delivery_terminal d.status ≡ true)

settled_delivery-IsFinished :
    (env : Env) (action code : String) (o : ℕ) (d : NotificationDelivery) (db : AppDb)
    → find_delivery d.id db.deliveries ≡ some d
    → IsFinished d.id (settled_delivery env NotificationDeliveryStatus.failed action code o d db).1
unfolding settled_delivery
settled_delivery-IsFinished env action code o d db found =
    elim (Bool-cases (is_delivery_terminal d.status)) [
      | inl y ↦ rw y (d, found, y)
      | inr n ↦
          let row = record d {
            status = NotificationDeliveryStatus.failed;
            error_code = some code;
          } in
          rw n (row, find_delivery-put d.id row db.deliveries ∙ rw (==_refl d.id, found) refl, refl)
    ]

mark_delivery_failed-IsFinished :
    (env : Env) (k : ℕ) (code : String) (o : ℕ) (db : AppDb) (made : NotificationDelivery × AppDb)
    → mark_delivery_failed env k code o none db ≡ ok made
    → IsFinished k made.1
unfolding mark_delivery_failed
mark_delivery_failed-IsFinished env k code o db made h =
    let known =
      guard-ok
        (raise_if (not (any (λ c. str_eq c code) delivery_error_codes)) (failure "ValueError")) _
        h in
    let (d, read, out) = bind-ok (owned_delivery k none db) _ known in
    let found = owned_delivery-ok k none db d read in
    let same = find_delivery-id k d db.deliveries found in
    let at_id = subst (λ i. find_delivery i db.deliveries ≡ some d) (sym same) found in
    subst (λ (x : NotificationDelivery × AppDb). IsFinished k x.1) (ok_inj _ made out)
      (subst
        (λ i.
          IsFinished i
            (settled_delivery env NotificationDeliveryStatus.failed "notification.delivery_failed"
              code o d db).1)
        same (settled_delivery-IsFinished env "notification.delivery_failed" code o d db at_id))

unfoldable pub Unsent : EmailAttempt → Type 0
Unsent a = a.has_sent ≡ false

pub invalid-Unsent :
    (w : EmailWorld) (c : DurableJobContext) (db : AppDb) → Unsent (fail_invalid_context w.env c db)
unfolding Unsent
invalid-Unsent w c db =
    (fail_invalid_context-Ends 0 (queued_at 0 db.deliveries) w.env c db (omega arith)).0

attempt_delivery-Unsent :
    (w : EmailWorld) (str : ℕ → String) (c : DurableJobContext) (u : ℕ) (d : NotificationDelivery)
    (n : Notification) (db : AppDb)
    → is_delivery_terminal d.status ≡ true
    → Unsent (attempt_delivery w str c u d n db)
unfolding attempt_delivery
attempt_delivery-Unsent w str c u d n db finished =
    if_holds Unsent _ (fail_invalid_context w.env c db) _ (λ _. invalid-Unsent w c db)
      λ _.
        if_holds Unsent (is_delivery_terminal d.status)
          (settle_job_for_terminal_delivery w.env str c d d.status db)
          (if is_sending d.status
            then settle_acceptance_unknown w.env c d.id false db
            else send w c d db)
          (λ _.
            unfold Unsent in
            (settle_job-Ends 0 (queued_at 0 db.deliveries) w.env str c d d.status db
              (omega arith)).0)
          λ alive. absurd cc

with_rows-Unsent :
    (w : EmailWorld) (str : ℕ → String) (c : DurableJobContext) (u : ℕ) (db : AppDb)
    (r : Result (NotificationDelivery × Notification))
    → ((rows : NotificationDelivery × Notification)
        → r ≡ ok rows
        → is_delivery_terminal rows.0.status ≡ true)
    → Unsent (with_rows w c db r λ d n. attempt_delivery w str c u d n (w.meanwhile 0 db))
with_rows-Unsent w str c u db (ok (d, n)) finished =
    attempt_delivery-Unsent w str c u d n (w.meanwhile 0 db) (finished (d, n) refl)
with_rows-Unsent w str c u db (err (not_found m)) finished = invalid-Unsent w c (w.meanwhile 0 db)
with_rows-Unsent w str c u db (err e) finished = unfold Unsent in refl

pub with_recipient-Unsent :
    (w : EmailWorld) (c : DurableJobContext) (user : Option ℕ) (db : AppDb)
    (rest : ℕ → EmailAttempt)
    → ((u : ℕ) → Unsent (rest u))
    → Unsent (with_recipient w c db user rest)
with_recipient-Unsent w c none db rest h = invalid-Unsent w c db
with_recipient-Unsent w c (some u) db rest h = h u

fail_delivery_at-IsFinished :
    (env : Env) (code : String) (job : Job) (recipient target : Option ℕ) (u k : ℕ)
    (db after : AppDb)
    → recipient ≡ some u
    → target ≡ some k
    → fail_delivery_at env code job recipient target db ≡ ok after
    → IsFinished k after
unfolding fail_delivery_at
fail_delivery_at-IsFinished env code job none target u k db after recipient refers done = absurd cc
fail_delivery_at-IsFinished env code job (some v) none u k db after recipient refers done =
    absurd cc
fail_delivery_at-IsFinished env code job (some v) (some j) u k db after recipient refers done =
    let (made, failed, out) =
      bind-ok (mark_delivery_failed env j (exhaustion_code code) job.organisation_id none db) _
        done in
    let one : j ≡ k = cc in
    subst (λ x. IsFinished k x) (ok_inj made.1 after out)
      (subst (λ i. IsFinished i made.1) one
        (mark_delivery_failed-IsFinished env j (exhaustion_code code) job.organisation_id db made
          failed))

with_id-Unsent :
    (w : EmailWorld) (str : ℕ → String) (c : DurableJobContext) (u k : ℕ) (target : Option ℕ)
    (db : AppDb)
    → IsFinished k db
    → target ≡ some k
    → Unsent (
        with_id db target λ j.
          with_rows w c db (rows_of j db) λ d n. attempt_delivery w str c u d n (w.meanwhile 0 db))
with_id-Unsent w str c u k none db finished addressed = cc
with_id-Unsent w str c u k (some j) db (d, found, finished) addressed =
    with_rows-Unsent w str c u db (rows_of j db) λ rows read.
      let there = rows_of-found j db rows read in
      let one : j ≡ k = cc in
      let again : find_delivery j db.deliveries ≡ some d =
        ap (λ i. find_delivery i db.deliveries) one ∙ found in
      let same : d ≡ rows.0 = cc in
      subst (λ (x : NotificationDelivery). is_delivery_terminal x.status ≡ true) same finished

-- No attempt sends a finished delivery.
finished_is_not_sent :
    (w : EmailWorld) (str : ℕ → String) (c : DurableJobContext) (k : ℕ) (db : AppDb)
    → IsFinished k db
    → w.parse c.input_reference ≡ some k
    → Unsent (send_notification_email_attempt w str c db)
unfolding send_notification_email_attempt
finished_is_not_sent w str c k db (d, found, finished) addressed =
    if_holds Unsent _ (fail_invalid_context w.env c db) _ (λ _. invalid-Unsent w c db)
      λ _. with_recipient-Unsent w c c.created_by_user_id db _ λ u.
        with_id-Unsent w str c u k (w.parse c.input_reference) db (d, found, finished) addressed

-- Where the exhaustion of a job has failed the delivery that the job refers to, no later attempt at
-- that delivery asks the provider, whatever its world, context and answers are.
pub exhausted_is_not_sent :
    (env : Env) (parse : String → Option ℕ) (j u k : ℕ) (code : String) (job : Job)
    (db after : AppDb) (w : EmailWorld) (str : ℕ → String) (c : DurableJobContext)
    → find_job j db.core.jobs ≡ some job
    → job.created_by_user_id ≡ some u
    → parse job.input_reference ≡ some k
    → on_notification_email_exhausted env parse j code db ≡ ok after
    → w.parse c.input_reference ≡ some k
    → (send_notification_email_attempt w str c after).has_sent ≡ false
unfolding on_notification_email_exhausted fail_delivery_of Unsent
exhausted_is_not_sent env parse j u k code job db after w str c row recipient refers done
      addressed =
    let failed : fail_delivery_at env code job job.created_by_user_id (parse job.input_reference) db
        ≡ ok after =
      ap (λ o. fail_delivery_of env parse code o db) (sym row) ∙ done in
    finished_is_not_sent w str c k after
      (fail_delivery_at-IsFinished env code job job.created_by_user_id (parse job.input_reference) u
        k db after recipient refers failed)
      addressed
