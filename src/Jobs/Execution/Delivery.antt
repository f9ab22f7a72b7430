-- ===== src/Jobs/Execution/Delivery.antt =====
-- Under what ownership a handler of `run_claimed` runs.
use app_template.Prelude.{ℕ, Bool, true, false, some, ◌≡◌, refl, sym, ◌∙◌, ap, subst, if◌then◌else◌}
use app_template.Models.Errors.{ok}
use app_template.Database.{Db}
use app_template.Jobs.Policy.{ClaimResult, ClaimOutcome}
use app_template.Jobs.Lookup.{verify_ownership}
use app_template.Jobs.Claim.{claim_dispatch}
use app_template.Jobs.Invariant.{IsValid, after}
use app_template.Jobs.Invariant.Claiming.{claim_dispatch-IsValid}
use app_template.Jobs.Ownership.{
  IsOwnedRow, claim_dispatch-IsLeased, claimed_dispatch_id, verify_ownership-accepts,
  valid-running_attempt,
}
use app_template.Jobs.Execution.{
  DurableJobContext, Surroundings, Run, ownership, stamp_current_message, handled, run_handler,
  context_of, by_outcome, after_claim, round,
}

claimed_turn :
    (w : Surroundings) (n started k d t : ℕ) (run : Run) (r : ClaimResult) (db : Db)
    → r.outcome ≡ ClaimOutcome.claimed
    → r.dispatch_id ≡ some d
    → r.owner_token ≡ some t
    → after_claim w n started k run (ok (r, db))
      ≡ run_handler w n k (some d) (some t) r.job (record run { db = db })
unfolding after_claim by_outcome
claimed_turn w n started k d t run r db e dispatch token = rw (e, dispatch, token) refl

-- The message's stamp after a turn that runs the handler.
stamp_current_message_lem :
    (b : Bool) (d t : ℕ) (run : Run)
    → stamp_current_message b d t run ≡ record run { stamp = if b then some (d, t) else run.stamp }
unfolding stamp_current_message
stamp_current_message_lem true d t run = refl
stamp_current_message_lem false d t run = refl

-- A turn whose claim succeeds runs the handler, once, on the tables that the claim left. The
-- context names the job, its organisation, its current dispatch and the fresh owner token, and
-- `verify_ownership` accepts its credential on those tables. Where there is a current message, the
-- turn has stamped it with that dispatch and that token before the handler's end decides how it
-- ends; otherwise the stamp stays.
pub handler_owns :
    (w : Surroundings) (n started k : ℕ) (run : Run) (r : ClaimResult) (db : Db)
    → IsValid (w.meanwhile n run.db)
    → claim_dispatch (record (w.claiming n) { now = run.time }) k (w.meanwhile n run.db)
      ≡ ok (r, db)
    → r.outcome ≡ ClaimOutcome.claimed
    → (c : DurableJobContext) × ((c.job_id ≡ k)
        × (c.organisation_id ≡ r.job.organisation_id)
        × (r.job.dispatch_id ≡ some c.dispatch_id)
        × (c.owner_token ≡ (w.claiming n).new_owner))
      × (verify_ownership (ownership c) true db ≡ ok r.job)
      × (round w n started k run
          ≡ handled w n k c.owner_token (w.handler n c db).0 (record {
            db = (w.handler n c db).1;
            time = run.time;
            stamp = if w.has_message then some (c.dispatch_id, c.owner_token) else run.stamp;
          }))
unfolding round run_handler
handler_owns w n started k run r db v h e =
    let env = record (w.claiming n) { now = run.time } in
    let met = w.meanwhile n run.db in
    let (j, before, (found, leased, counted, token, same)) =
      claim_dispatch-IsLeased env k met db r h e in
    let (d, dispatch) = claimed_dispatch_id env k met db r h e in
    let c = context_of k d env.new_owner r.job in
    let kept : IsValid db =
      subst (λ o. IsValid (after met o)) h (claim_dispatch-IsValid env k met v) in
    let row : IsOwnedRow (ownership c) db r.job =
      unfold ownership context_of in ((found, refl, leased.is_active, leased.owner)) in
    let stamp = stamp_current_message_lem w.has_message d env.new_owner (record run { db = db }) in
    (
      c,
      unfold context_of in ((refl, refl, sym same ∙ dispatch, refl)),
      verify_ownership-accepts (ownership c) true db r.job row
          (valid-running_attempt (ownership c) db r.job kept row),
      ap (after_claim w n started k (record run { db = met })) h
          ∙ claimed_turn w n started k d env.new_owner (record run { db = met }) r db e dispatch
              token
          ∙ unfold context_of in
            (ap
              (λ (x : Run).
                handled w n k env.new_owner (w.handler n c db).0
                  (record x { db = (w.handler n c db).1 }))
              stamp),
    )
