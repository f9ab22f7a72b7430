-- ===== src/Notifications/Notices.antt =====
-- backend/app/modules/notifications/service.py: the creation of the notification of a file.
use app_template.Prelude.{
  ℕ, String, Bool, true, Option, none, some, ◌∷◌, ◌==◌, find_first, ◌≡◌, refl, subst, sym, ◌∙◌, ap,
  ==_refl, eq_iff,
}
use app_template.Models.Notifications.{Notification, NotificationDelivery}
use app_template.Models.Jobs.{Job}
use app_template.Models.Errors.{Result, raise_if, integrity, ok, err, bind-ok, ◌>>=◌, ◌>>◌}
use app_template.Database.{Db, Env, any}
use app_template.Database.App.{AppDb}
use app_template.Jobs.Policy.{JobOwnership}
use app_template.Notifications.Queue.{ok_inj}
use app_template.Notifications.Service.{
  commit, Fresh, verified, is_notice, create_unless, new_notification, add_with_email,
  insert_notification, insert_delivery, create_file_notification, queued_delivery,
}

commit-ok {ℓ} :
    {A : Type ℓ} (db : AppDb) (r : Result (A × AppDb)) (a : A) (reached : AppDb)
    → commit db r ≡ (ok a, reached)
    → r ≡ ok (a, reached)
commit-ok db (err e) a reached h = cc
commit-ok db (ok (b, left)) a reached h = cc

pub guard-ok {ℓ} :
    {A : Type ℓ} {a : A} (g : Result (Unit {0})) (r : Result A) → (g >> r) ≡ ok a → r ≡ ok a
guard-ok (err e) r h = cc
guard-ok (ok u) r h = h

insert_notification-row :
    (n : Notification) (db after : AppDb)
    → insert_notification n db ≡ ok after
    → record db { notifications = n ∷ db.notifications } ≡ after
unfolding insert_notification
insert_notification-row n db after h = ok_inj _ after (
    guard-ok (raise_if (any (λ r. r.id == n.id) db.notifications) (integrity "pk_notifications"))
      (ok _) h)

insert_delivery-row :
    (d : NotificationDelivery) (db after : AppDb)
    → insert_delivery d db ≡ ok after
    → record db { deliveries = d ∷ db.deliveries } ≡ after
unfolding insert_delivery
insert_delivery-row d db after h =
    let g₁ =
      raise_if (any (λ r. r.id == d.id) db.deliveries) (integrity "pk_notification_deliveries") in
    let g₂ =
      raise_if (any (λ r. r.delivery_identity == d.delivery_identity) db.deliveries)
        (integrity "uq_notification_deliveries_delivery_identity") in
    ok_inj _ after
      (guard-ok g₂ (ok (record db { deliveries = d ∷ db.deliveries })) (guard-ok g₁ _ h))

in_core-row {ℓ} :
    {A : Type ℓ} (r : Result (A × Db)) (db : AppDb) (made : A × AppDb)
    → (r >>= λ x. ok (x.0, record db { core = x.1 })) ≡ ok made
    → record db { core = made.1.core } ≡ made.1
in_core-row (err e) db made h = cc
in_core-row (ok x) db made h =
    subst (λ m. record db { core = m.1.core } ≡ m.1) (ok_inj (x.0, record db { core = x.1 }) made h)
      refl

-- The new row is the first of its table, and the files stay.
pub add_with_email-first :
    (env : Env) (str : ℕ → String) (fresh : Fresh) (n : Notification) (recipient : String)
    (actor : Option ℕ) (db : AppDb) (made : Job × AppDb)
    → add_with_email env str fresh n recipient actor none db ≡ ok made
    → (made.1.notifications ≡ n ∷ db.notifications) × (made.1.files ≡ db.files)
unfolding add_with_email insert_notification insert_delivery
add_with_email-first env str fresh n recipient actor db made h =
    let (db₁, noted, h₁) = bind-ok (insert_notification n db) _ h in
    let (db₂, delivered, h₂) =
      bind-ok (insert_delivery (queued_delivery fresh recipient) db₁) _ h₁ in
    let first = sym (insert_notification-row n db db₁ noted) in
    let second = sym (insert_delivery-row _ db₁ db₂ delivered) in
    let third = sym (in_core-row _ db₂ made (guard-ok _ _ h₂)) in
    (
      ap (λ (x : AppDb). x.notifications) third
          ∙ (ap (λ (x : AppDb). x.notifications) second
              ∙ ap (λ (x : AppDb). x.notifications) first),
      ap (λ (x : AppDb). x.files) third
          ∙ (ap (λ (x : AppDb). x.files) second ∙ ap (λ (x : AppDb). x.files) first),
    )

new_notification-IsNotice :
    (fresh : Fresh) (o u : ℕ) (type title body : String) (k : ℕ)
    → is_notice o u type k (new_notification fresh o u type title body (some k)) ≡ true
unfolding is_notice new_notification
new_notification-IsNotice fresh o u type title body k =
    rw (==_refl o, ==_refl u, ==_refl k, (eq_iff type type).1 refl) refl

add_with_email-new :
    (env : Env) (str : ℕ → String) (fresh : Fresh) (o u : ℕ) (type title body : String) (k : ℕ)
    (recipient : String) (actor : Option ℕ) (db : AppDb) (made : Notification × AppDb)
    → (add_with_email env str fresh
          (new_notification fresh o u type title body (some k))
          recipient
          actor
          none
          db
        >>= λ m. ok (new_notification fresh o u type title body (some k), m.1))
      ≡ ok made
    → find_first (is_notice o u type k) made.1.notifications ≡ some made.0
add_with_email-new env str fresh o u type title body k recipient actor db made h =
    let n = new_notification fresh o u type title body (some k) in
    let (m, added, out) = bind-ok (add_with_email env str fresh n recipient actor none db) _ h in
    let same = ok_inj (n, m.1) made out in
    let rows =
      ap (λ (x : Notification × AppDb). x.1.notifications) (sym same)
      ∙ (add_with_email-first env str fresh n recipient actor db m added).0 in
    rw rows (rw (new_notification-IsNotice fresh o u type title body k) (ap (λ x. some x.0) same))

create_unless-found :
    (o : Option Notification) (create : Unit {0} → Result (Notification × AppDb)) (db : AppDb)
    (p : Notification → Bool) (made : Notification × AppDb)
    → o ≡ find_first p db.notifications
    → (create tt ≡ ok made → find_first p made.1.notifications ≡ some made.0)
    → create_unless o create db ≡ ok made
    → find_first p made.1.notifications ≡ some made.0
unfolding create_unless
create_unless-found none create db p made found fresh h = fresh h
create_unless-found (some n) create db p made found fresh h =
    let same = ok_inj (n, db) made h in
    ap (λ (x : Notification × AppDb). find_first p x.1.notifications) (sym same)
    ∙ (sym found ∙ ap (λ x. some x.0) same)

create_file_notification-found :
    (env : Env) (str : ℕ → String) (fresh : Fresh) (o u : ℕ) (type title body : String) (k : ℕ)
    (recipient : String) (actor : Option ℕ) (own : Option JobOwnership) (db : AppDb)
    (n : Notification) (after : AppDb)
    → create_file_notification env str fresh o u type title body k recipient actor own db
      ≡ (ok n, after)
    → find_first (is_notice o u type k) after.notifications ≡ some n
unfolding create_file_notification
create_file_notification-found env str fresh o u type title body k recipient actor own db n after
      h =
    create_unless-found (find_first (is_notice o u type k) db.notifications) _ db
      (is_notice o u type k) (n, after) refl
      (add_with_email-new env str fresh o u type title body k recipient actor db (n, after))
      (guard-ok (verified own db) _ (commit-ok db _ n after h))

create_unless-files :
    (o : Option Notification) (create : Unit {0} → Result (Notification × AppDb)) (db : AppDb)
    (made : Notification × AppDb)
    → (create tt ≡ ok made → made.1.files ≡ db.files)
    → create_unless o create db ≡ ok made
    → made.1.files ≡ db.files
unfolding create_unless
create_unless-files none create db made fresh h = fresh h
create_unless-files (some n) create db made fresh h =
    sym (ap (λ (x : Notification × AppDb). x.1.files) (ok_inj (n, db) made h))

commit-files {ℓ} :
    {A : Type ℓ} (db : AppDb) (r : Result (A × AppDb))
    → ((made : A × AppDb) → r ≡ ok made → made.1.files ≡ db.files)
    → (commit db r).1.files ≡ db.files
commit-files db (err e) h = refl
commit-files db (ok made) h = h made refl

pub create_file_notification-files :
    (env : Env) (str : ℕ → String) (fresh : Fresh) (o u : ℕ) (type title body : String) (k : ℕ)
    (recipient : String) (actor : Option ℕ) (own : Option JobOwnership) (db : AppDb)
    → (create_file_notification env str fresh o u type title body k recipient actor own db).1.files
      ≡ db.files
unfolding create_file_notification
create_file_notification-files env str fresh o u type title body k recipient actor own db =
    let n = new_notification fresh o u type title body (some k) in
    let existing = find_first (is_notice o u type k) db.notifications in
    let create : Unit {0} → Result (Notification × AppDb) =
      λ x. add_with_email env str fresh n recipient actor none db >>= λ made. ok (n, made.1) in
    commit-files db (verified own db >> create_unless existing create db) λ made h.
      create_unless-files existing create db made
        (λ created.
          let (m, added, out) =
            bind-ok (add_with_email env str fresh n recipient actor none db) (λ x. ok (n, x.1))
              created in
          sym (ap (λ (x : Notification × AppDb). x.1.files) (ok_inj (n, m.1) made out))
          ∙ (add_with_email-first env str fresh n recipient actor db m added).1)
        (guard-ok (verified own db) _ h)

-- When a call created or found the notification of a type for a file and a user, a second call for
-- them on the tables it left returns that notification and changes nothing, whatever its texts,
-- recipient, actor, identifiers and clock are, provided its job ownership (where it names one)
-- still holds.
pub file_notification_is_created_once :
    (env env' : Env) (str : ℕ → String) (fresh fresh' : Fresh) (o u : ℕ)
    (type title body title' body' : String) (k : ℕ) (recipient recipient' : String)
    (actor actor' : Option ℕ) (own own' : Option JobOwnership) (db : AppDb) (n : Notification)
    (after : AppDb)
    → create_file_notification env str fresh o u type title body k recipient actor own db
      ≡ (ok n, after)
    → verified own' after ≡ ok tt
    → create_file_notification env' str fresh' o u type title' body' k recipient' actor' own' after
      ≡ (ok n, after)
unfolding create_file_notification create_unless
file_notification_is_created_once env env' str fresh fresh' o u type title body title' body' k
      recipient recipient' actor actor' own own' db n after h owned =
    rw owned (
      rw
        (create_file_notification-found env str fresh o u type title body k recipient actor own db n
          after h)
        refl)
