-- ===== src/Notifications/Superseded.antt =====
-- backend/app/modules/notifications/tasks.py: an attempt whose job was taken over meanwhile.
use app_template.Prelude.{
  ℕ, zero, suc, ◌<◌, ◌==◌, ◌||◌, not, if◌then◌else◌, String, Bool, true, false, Option, none, some,
  ◌≡◌, ◌≢◌, refl, arith,
}
use app_template.Models.Jobs.{Job}
use app_template.Models.Notifications.{
  Notification, NotificationDelivery, is_delivery_terminal, is_sending,
}
use app_template.Models.Errors.{not_found, failure, Result, ok, err, bind-ok, ◌>>=◌}
use app_template.Database.App.{AppDb}
use app_template.Jobs.Lookup.{verify_ownership}
use app_template.Jobs.Execution.{DurableJobContext, HandlerEnd, ownership}
use app_template.Notifications.Service.{commit, verified}
use app_template.Notifications.Deliveries.{mark_delivery_running, owned_delivery}
use app_template.Notifications.Email.{
  EmailAttempt, EmailWorld, ends, or_raises, after_answer, fail_invalid_context,
  settle_acceptance_unknown, send, settle_job_for_terminal_delivery, attempt_delivery, with_rows,
  with_id, send_notification_email_attempt,
}
use app_template.Notifications.Attempts.{if_holds, rows_of}
use app_template.Notifications.Endings.{settle_acceptance_unknown-Ends, settle_job-Ends}
use app_template.Notifications.Exhaustion.{Unsent, invalid-Unsent, with_recipient-Unsent}
use app_template.Notifications.Queue.{queued_at}
use app_template.Notifications.Sends.{committed_lem}

-- No job is the credential's in these tables.
abbrev pub Refuses : DurableJobContext → AppDb → Type 0
Refuses c db = (lock : Bool) (j : Job) → verify_ownership (ownership c) lock db.core ≢ ok j

ends-Unsent : (end : HandlerEnd) (db : AppDb) → Unsent (ends end false db)
unfolding Unsent
ends-Unsent end db = refl

terminal-Unsent :
    (w : EmailWorld) (str : ℕ → String) (c : DurableJobContext) (d : NotificationDelivery)
    (db : AppDb)
    → Unsent (settle_job_for_terminal_delivery w.env str c d d.status db)
unfolding Unsent
terminal-Unsent w str c d db =
    (settle_job-Ends 0 (queued_at 0 db.deliveries) w.env str c d d.status db (omega arith)).0

unknown-Unsent :
    (w : EmailWorld) (c : DurableJobContext) (k : ℕ) (db : AppDb)
    → Unsent (settle_acceptance_unknown w.env c k false db)
unfolding Unsent
unknown-Unsent w c k db =
    (settle_acceptance_unknown-Ends 0 (queued_at 0 db.deliveries) w.env c k false db
      (omega arith)).0

marks_owned :
    (c : DurableJobContext) (k : ℕ) (db : AppDb) (made : NotificationDelivery × AppDb)
    → mark_delivery_running k (some (ownership c)) db ≡ ok made
    → (j : Job) × (verify_ownership (ownership c) true db.core ≡ ok j)
unfolding mark_delivery_running owned_delivery verified
marks_owned c k db made h =
    let (d, got, rest) = bind-ok (owned_delivery k (some (ownership c)) db) _ h in
    let (u, passed, then_read) = bind-ok (verified (some (ownership c)) db) _ got in
    let (j, accepted, out) = bind-ok (verify_ownership (ownership c) true db.core) _ passed in
    (j, accepted)

send-Unsent_marking :
    (w : EmailWorld) (c : DurableJobContext) (d : NotificationDelivery) (db : AppDb)
    → Refuses c db
    → Unsent (send w c d db)
unfolding send
send-Unsent_marking w c d db refused =
    committed_lem Unsent false db _ _ (λ e. ends-Unsent (HandlerEnd.raised e) _)
      λ made ran.
        let (j, accepted) = marks_owned c d.id db made ran in absurd (refused true j accepted)

checked-Unsent :
    (c : DurableJobContext) (seen : AppDb) (rest : Job → AppDb → EmailAttempt)
    → Refuses c seen
    → Unsent (
        or_raises false
          (commit seen (verify_ownership (ownership c) false seen.core >>= λ j. ok (j, seen)))
          rest)
checked-Unsent c seen rest refused =
    let check : Result (Job × AppDb) =
      verify_ownership (ownership c) false seen.core >>= λ j. ok (j, seen) in
    committed_lem Unsent false seen check rest (λ e. ends-Unsent (HandlerEnd.raised e) seen)
      λ made checked.
        let (j, accepted, out) =
          bind-ok (verify_ownership (ownership c) false seen.core) (λ j. ok (j, seen)) checked in
        absurd (refused false j accepted)

send-Unsent_checking :
    (w : EmailWorld) (c : DurableJobContext) (d : NotificationDelivery) (db : AppDb)
    → ((x : AppDb) → Refuses c (w.meanwhile 1 x))
    → Unsent (send w c d db)
unfolding send
send-Unsent_checking w c d db refused =
    committed_lem Unsent false db (mark_delivery_running d.id (some (ownership c)) db)
      (λ _ db₁.
        let seen = w.meanwhile 1 db₁ in
        or_raises false
          (commit seen (verify_ownership (ownership c) false seen.core >>= λ j. ok (j, seen)))
          λ _ db₂. after_answer w.env c d.id w.answer (w.meanwhile 2 db₂))
      (λ e. ends-Unsent (HandlerEnd.raised e) db)
      λ made ran.
        checked-Unsent c (w.meanwhile 1 made.1)
          (λ _ db₂. after_answer w.env c d.id w.answer (w.meanwhile 2 db₂)) (refused made.1)

-- An attempt that would have sent only by `send`.
attempt_delivery-Unsent :
    (w : EmailWorld) (str : ℕ → String) (c : DurableJobContext) (u : ℕ) (d : NotificationDelivery)
    (n : Notification) (db : AppDb)
    → Unsent (send w c d db)
    → Unsent (attempt_delivery w str c u d n db)
unfolding attempt_delivery
attempt_delivery-Unsent w str c u d n db unsent =
    if_holds Unsent (not (n.organisation_id == c.organisation_id) || not (n.user_id == u))
      (fail_invalid_context w.env c db)
      (if is_delivery_terminal d.status
        then settle_job_for_terminal_delivery w.env str c d d.status db
        else if is_sending d.status
        then settle_acceptance_unknown w.env c d.id false db
        else send w c d db)
      (λ _. invalid-Unsent w c db)
      λ _.
        if_holds Unsent (is_delivery_terminal d.status)
          (settle_job_for_terminal_delivery w.env str c d d.status db)
          (if is_sending d.status
            then settle_acceptance_unknown w.env c d.id false db
            else send w c d db)
          (λ _. terminal-Unsent w str c d db)
          λ _.
            if_holds Unsent (is_sending d.status) (settle_acceptance_unknown w.env c d.id false db)
              (send w c d db) (λ _. unknown-Unsent w c d.id db) λ _. unsent

-- The attempt, where a request could only be refused.
attempt-Unsent :
    (w : EmailWorld) (str : ℕ → String) (c : DurableJobContext) (db : AppDb)
    → ((d : NotificationDelivery) → Unsent (send w c d (w.meanwhile 0 db)))
    → Unsent (send_notification_email_attempt w str c db)
unfolding send_notification_email_attempt
attempt-Unsent w str c db unsent =
    if_holds Unsent _ (fail_invalid_context w.env c db) _ (λ _. invalid-Unsent w c db)
      λ _.
        with_recipient-Unsent w c c.created_by_user_id db _ λ u. by_id u (w.parse c.input_reference)
  where
    by_rows :
        (u : ℕ) (r : Result (NotificationDelivery × Notification))
        → Unsent (with_rows w c db r λ d n. attempt_delivery w str c u d n (w.meanwhile 0 db))
    by_rows u (ok (d, n)) = attempt_delivery-Unsent w str c u d n (w.meanwhile 0 db) (unsent d)
    by_rows u (err (not_found m)) = invalid-Unsent w c (w.meanwhile 0 db)
    by_rows u (err e) = ends-Unsent (HandlerEnd.raised e) db

    by_id :
        (u : ℕ) (target : Option ℕ)
        → Unsent (
            with_id db target λ k.
              with_rows w c db
                (rows_of k db)
                λ d n. attempt_delivery w str c u d n (w.meanwhile 0 db))
    by_id u none = ends-Unsent (HandlerEnd.raised (failure "ValueError")) db
    by_id u (some k) = by_rows u (rows_of k db)

-- Where what other processes commit before the attempt marks the delivery (`n` is 0), or between
-- that and the check before the provider is called (`n` is 1), leaves tables that refuse the
-- attempt's credential, the attempt does not ask the provider, on any tables, for any delivery and
-- with any answer: a stalled owner whose job was taken over sends nothing beside its successor.
pub superseded_attempt_is_not_sent :
    (w : EmailWorld) (str : ℕ → String) (c : DurableJobContext) (db : AppDb) (n : ℕ)
    → n < 2
    → ((x : AppDb) → Refuses c (w.meanwhile n x))
    → (send_notification_email_attempt w str c db).has_sent ≡ false
unfolding Unsent
superseded_attempt_is_not_sent w str c db zero h refused =
    attempt-Unsent w str c db λ d. send-Unsent_marking w c d (w.meanwhile 0 db) (refused db)
superseded_attempt_is_not_sent w str c db (suc zero) h refused =
    attempt-Unsent w str c db λ d. send-Unsent_checking w c d (w.meanwhile 0 db) refused
superseded_attempt_is_not_sent w str c db (suc (suc n)) h refused = absurd (omega (arith, h))
