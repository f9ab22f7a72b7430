-- ===== src/Notifications/Queue.antt =====
-- backend/app/modules/notifications/service.py: the place of a delivery in the queue through each
-- transition.
use app_template.Prelude.{
  ℕ, ◌+◌, ◌≤◌, String, true, false, Option, none, some, List, [], ◌∷◌, ◌==◌, ◌≡◌, refl, sym, subst,
  arith, inl, inr, Bool-cases, is_some, if◌then◌else◌,
}
use app_template.Models.Notifications.{
  NotificationDelivery, NotificationDeliveryStatus, is_delivery_terminal,
}
use app_template.Models.Errors.{Result, ok, err, bind-ok, or_raise-ok, ◌>>=◌, ◌>>◌}
use app_template.Database.{Db, Env}
use app_template.Database.App.{AppDb}
use app_template.Jobs.Policy.{JobOwnership}
use app_template.Jobs.Settle.{fail}
use app_template.Jobs.Execution.{DurableJobContext}
use app_template.Notifications.Service.{
  acceptance_unknown, commit, find_delivery, put_delivery, get_delivery_for_task, verified,
}
use app_template.Notifications.Deliveries.{
  owned_delivery, settled_delivery, mark_delivery_running, return_delivery_to_queue,
  mark_delivery_succeeded, mark_delivery_failed, mark_delivery_attention_required,
}
use app_template.Notifications.Email.{fail_job}

abbrev pub is_queued_status : NotificationDeliveryStatus → ℕ
is_queued_status NotificationDeliveryStatus.queued = 1
is_queued_status _ = 0

abbrev pub queued_row : Option NotificationDelivery → ℕ
queued_row none = 0
queued_row (some d) = is_queued_status d.status

-- 1 where the delivery waits in the queue.
abbrev pub queued_at : ℕ → List NotificationDelivery → ℕ
queued_at k ds = queued_row (find_delivery k ds)

pub find_delivery-put :
    (k : ℕ) (d : NotificationDelivery) (ds : List NotificationDelivery)
    → find_delivery k (put_delivery d ds) ≡ (
        if k == d.id
        then (if is_some (find_delivery k ds) then some d else none)
        else find_delivery k ds)
find_delivery-put k d [] = ground arith
find_delivery-put k d (x ∷ ds) = ground (arith, find_delivery-put k d ds)

pub find_delivery-id :
    (k : ℕ) (d : NotificationDelivery) (ds : List NotificationDelivery)
    → find_delivery k ds ≡ some d
    → d.id ≡ k
find_delivery-id k d [] h = cc
find_delivery-id k d (x ∷ ds) h = ground (arith, find_delivery-id k d ds)

pub queued_at-bound : (k : ℕ) (ds : List NotificationDelivery) → queued_at k ds ≤ 1
queued_at-bound k ds = ground arith

pub owned_delivery-ok :
    (k : ℕ) (o : Option JobOwnership) (db : AppDb) (d : NotificationDelivery)
    → owned_delivery k o db ≡ ok d
    → find_delivery k db.deliveries ≡ some d
unfolding owned_delivery get_delivery_for_task
owned_delivery-ok k o db d h =
    let (u, passed, read) = bind-ok (verified o db) _ h in
    or_raise-ok _ (find_delivery k db.deliveries) read

pub ok_inj {ℓ} : {A : Type ℓ} (a b : A) → ok a ≡ ok b → a ≡ b
ok_inj a b h = cc

-- What a call yields when it succeeds, and what its transaction leaves whether it commits or not.
unfoldable pub Yields {ℓ} :
    (List NotificationDelivery → Type 0) → {A : Type ℓ} → Result (A × AppDb) → Type ℓ
Yields P r = (made : _) → r ≡ ok made → P made.1.deliveries

unfoldable pub Leaves {ℓ} :
    (List NotificationDelivery → Type 0) → AppDb → {A : Type ℓ} → Result (A × AppDb) → Type 0
Leaves P db r = P (commit db r).1.deliveries

module _ (P : List NotificationDelivery → Type 0) where
  pub Yields-bind {ℓ κ} :
      {A : Type ℓ} {B : Type κ} (r : Result A) (rest : A → Result (B × AppDb))
      → ((a : A) → r ≡ ok a → Yields P (rest a))
      → Yields P (r >>= rest)
  unfolding Yields
  Yields-bind r rest h made out = let (a, got, passed) = bind-ok r rest out in h a got made passed

  pub Yields-ok {ℓ} : {A : Type ℓ} (a : A) (db : AppDb) → P db.deliveries → Yields P (ok (a, db))
  unfolding Yields
  Yields-ok a db h made out = subst (λ m. P m.1.deliveries) (ok_inj (a, db) made out) h

  pub Yields-guard {ℓ} :
      {A : Type ℓ} (g : Result (Unit {0})) (r : Result (A × AppDb)) → Yields P r → Yields P (g >> r)
  unfolding Yields
  Yields-guard (err e) r h made out = cc
  Yields-guard (ok u) r h made out = h made out

  module _ (db : AppDb) (start : P db.deliveries) where
    pub Leaves-bind {ℓ κ} :
        {A : Type ℓ} {B : Type κ} (r : Result (A × AppDb)) (rest : A × AppDb → Result (B × AppDb))
        → Yields P r
        → ((made : A × AppDb) → P made.1.deliveries → Leaves P db (rest made))
        → Leaves P db (r >>= rest)
    unfolding Yields Leaves
    Leaves-bind (err e) rest y h = start
    Leaves-bind (ok made) rest y h = h made (y made refl)

    -- A call on the tables of durable delivery, on tables that the transaction has reached.
    pub Leaves-core {ℓ} :
        {A : Type ℓ} (r : Result (A × Db)) (reached : AppDb)
        → P reached.deliveries
        → Leaves P db (r >>= λ made. ok (made.0, record reached { core = made.1 }))
    unfolding Leaves
    Leaves-core (err e) reached h = start
    Leaves-core (ok (a, core)) reached h = h

    pub fail_job-Leaves :
        (env : Env) (c : DurableJobContext) (code message : String) (reached : AppDb)
        → P reached.deliveries
        → Leaves P db (fail_job env c code message reached)
    unfolding fail_job
    fail_job-Leaves env c code message reached h =
        Leaves-core (fail env c.job_id code message (some c.owner_token) reached.core) reached h

    pub Leaves-yield {ℓ} : {A : Type ℓ} (r : Result (A × AppDb)) → Yields P r → Leaves P db r
    unfolding Yields Leaves
    Leaves-yield (err e) y = start
    Leaves-yield (ok made) y = y made refl

-- The queue through each transition: `k` is the delivery that is counted.
module _ (k bound : ℕ) where
  -- The delivery waits at most so much.
  abbrev pub Within : List NotificationDelivery → Type 0
  Within ds = queued_at k ds ≤ bound

  -- The write of a row that does not wait.
  pub put-Within :
      (d : NotificationDelivery) (db : AppDb)
      → is_queued_status d.status ≡ 0
      → ((k == d.id) ≡ false → Within db.deliveries)
      → Within (put_delivery d db.deliveries)
  put-Within d db h start = ground (arith, start, find_delivery-put k d db.deliveries)

  -- The write of any row.
  put_back-Within :
      (d : NotificationDelivery) (db : AppDb)
      → Within db.deliveries
      → ((k == d.id) ≡ true → 1 ≤ bound)
      → Within (put_delivery d db.deliveries)
  put_back-Within d db start room = ground (arith, start, find_delivery-put k d db.deliveries)

  settled_delivery-Within :
      (env : Env) (s : NotificationDeliveryStatus) (action code : String) (o : ℕ)
      (d : NotificationDelivery) (db : AppDb)
      → is_queued_status s ≡ 0
      → Within db.deliveries
      → Within (settled_delivery env s action code o d db).1.deliveries
  unfolding settled_delivery
  settled_delivery-Within env s action code o d db h start =
      elim (Bool-cases (is_delivery_terminal d.status)) [
        | inl y ↦ rw y start
        | inr n ↦
            rw n (put-Within (record d { status = s; error_code = some code }) db h λ _. start)
      ]

  pub running-Yields :
      (j : ℕ) (o : Option JobOwnership) (db : AppDb)
      → ((k == j) ≡ false → Within db.deliveries)
      → Yields Within (mark_delivery_running j o db)
  unfolding mark_delivery_running
  running-Yields j o db start = Yields-bind Within (owned_delivery j o db) _ λ d got.
      Yields-guard Within _ _ (
        Yields-ok Within _ _ (
          put-Within
            (record d {
              status = NotificationDeliveryStatus.running;
              attempt_count = d.attempt_count + 1;
            })
            db refl
            (subst (λ x. (k == x) ≡ false → Within db.deliveries)
              (sym (find_delivery-id j d db.deliveries (owned_delivery-ok j o db d got))) start)))

  pub succeeded-Yields :
      (env : Env) (j : ℕ) (message : String) (o : Option JobOwnership) (db : AppDb)
      → Within db.deliveries
      → Yields Within (mark_delivery_succeeded env j message o db)
  unfolding mark_delivery_succeeded
  succeeded-Yields env j message o db start =
      Yields-bind Within (owned_delivery j o db) _
        λ d got. Yields-ok Within _ _ (put-Within _ db refl λ _. start)

  pub failed-Yields :
      (env : Env) (j : ℕ) (code : String) (org : ℕ) (o : Option JobOwnership) (db : AppDb)
      → Within db.deliveries
      → Yields Within (mark_delivery_failed env j code org o db)
  unfolding mark_delivery_failed
  failed-Yields env j code org o db start = Yields-guard Within _ _ (
      Yields-bind Within (owned_delivery j o db) _ λ d got. Yields-ok Within _ _ (
        settled_delivery-Within env NotificationDeliveryStatus.failed "notification.delivery_failed"
          code org d db refl start))

  pub attention-Yields :
      (env : Env) (j org : ℕ) (o : Option JobOwnership) (db : AppDb)
      → Within db.deliveries
      → Yields Within (mark_delivery_attention_required env j org o db)
  unfolding mark_delivery_attention_required
  attention-Yields env j org o db start = Yields-bind Within (owned_delivery j o db) _ λ d got.
      Yields-ok Within _ _ (
        settled_delivery-Within env NotificationDeliveryStatus.attention_required
          "notification.delivery_attention_required" acceptance_unknown org d db refl start)

  -- A delivery that goes back to the queue waits once.
  pub returned-Yields :
      (j : ℕ) (o : Option JobOwnership) (db : AppDb)
      → Within db.deliveries
      → ((k == j) ≡ true → 1 ≤ bound)
      → Yields Within (return_delivery_to_queue j o db)
  unfolding return_delivery_to_queue
  returned-Yields j o db start room = Yields-bind Within (owned_delivery j o db) _ λ d got.
      let same = find_delivery-id j d db.deliveries (owned_delivery-ok j o db d got) in
      elim (Bool-cases (is_delivery_terminal d.status)) [
        | inl y ↦ rw y (Yields-ok Within _ _ start)
        | inr n ↦ rw n (
            Yields-ok Within _ _ (
              put_back-Within (record d { status = NotificationDeliveryStatus.queued }) db start
                (subst (λ x. (k == x) ≡ true → 1 ≤ bound) (sym same) room)))
      ]
