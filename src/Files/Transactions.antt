-- ===== src/Files/Transactions.antt =====
-- backend/app/modules/files/tasks.py: the transactions of an attempt.
use app_template.Prelude.{
  ℕ, String, true, Option, none, some, ◌==◌, ◌≡◌, refl, ◌∙◌, arith, is_some, ==→eq,
}
use app_template.Models.Files.{File, FileStatus, ObjectInfo, text_eq}
use app_template.Models.Notifications.{Notification, User}
use app_template.Models.Errors.{Error, Result, ok, err, or_raise-ok, ◌>>=◌}
use app_template.Database.{Db, Env}
use app_template.Database.App.{AppDb, Outcome}
use app_template.Jobs.Policy.{JobOwnership}
use app_template.Jobs.Settle.{update_progress}
use app_template.Jobs.Execution.{DurableJobContext, HandlerEnd, ownership}
use app_template.Prelude.Int.{ℤ}
use app_template.Notifications.Service.{commit}
use app_template.Notifications.Notices.{create_file_notification-files}
use app_template.Files.Tables.{find_file, get_file, file_not_found}
use app_template.Files.Lifecycle.{moved, to_processing, mark_file_processing}
use app_template.Files.Access.{text_eq-eq}
use app_template.Files.Tasks.{
  ProcessWorld, Attempt, step, ask, progress, no_notice, notify_user, refusal_reason,
}
use app_template.Files.Readiness.{owned_file_lem}

pub refusal_reason-none :
    (f : File) (o : Option ObjectInfo)
    → refusal_reason f o ≡ none
    → (i : ObjectInfo) × (o ≡ some i)
      × (i.size_bytes ≡ f.size_bytes)
      × (is_some f.content_identity ≡ true)
      × (i.checksum ≡ f.content_identity)
unfolding refusal_reason
refusal_reason-none f none h = cc
refusal_reason-none f (some i) h =
    let sized : (i.size_bytes == f.size_bytes) ≡ true = ground arith in
    let identified : is_some f.content_identity ≡ true = ground arith in
    let pinned : text_eq i.checksum f.content_identity ≡ true = ground arith in
    (
      i,
      refl,
      ==→eq i.size_bytes f.size_bytes sized,
      identified,
      text_eq-eq i.checksum f.content_identity pinned,
    )

module _ (T : Attempt → Type 0) where
  pub step_lem {ℓ} :
      {A : Type ℓ} (mean : AppDb → AppDb) (r : Outcome A) (rest : A → AppDb → Attempt)
      → ((e : Error) → r.0 ≡ err e → T (HandlerEnd.raised e, r.1))
      → ((a : A) → r.0 ≡ ok a → T (rest a (mean r.1)))
      → T (step mean r rest)
  unfolding step
  step_lem mean (err e, db) rest bad good = bad e refl
  step_lem mean (ok a, db) rest bad good = good a refl

  pub ask_lem {ℓ} :
      {A : Type ℓ} (db : AppDb) (r : Result A) (rest : A → Attempt)
      → ((e : Error) → T (HandlerEnd.raised e, db))
      → ((a : A) → r ≡ ok a → T (rest a))
      → T (ask db r rest)
  unfolding ask
  ask_lem db (err e) rest bad good = bad e
  ask_lem db (ok a) rest bad good = good a refl

  -- A call on the tables of durable delivery leaves the files.
  pub core_lem {ℓ} :
      {A : Type ℓ} (mean : AppDb → AppDb) (db : AppDb) (r : Result (A × Db))
      (rest : A → AppDb → Attempt)
      → ((e : Error) → T (HandlerEnd.raised e, db))
      → ((a : A) (core : Db) → T (rest a (mean (record db { core = core }))))
      → T (step mean (commit db (r >>= λ made. ok (made.0, record db { core = made.1 }))) rest)
  unfolding step
  core_lem mean db (err e) rest bad good = bad e
  core_lem mean db (ok (a, core)) rest bad good = good a core

  pub progress_lem :
      (w : ProcessWorld) (n : ℕ) (c : DurableJobContext) (percent : ℕ) (db : AppDb)
      (rest : AppDb → Attempt)
      → ((e : Error) → T (HandlerEnd.raised e, db))
      → ((core : Db) → T (rest (w.meanwhile n (record db { core = core }))))
      → T (progress w n c percent db rest)
  unfolding progress
  progress_lem w n c percent db rest bad good =
      core_lem (w.meanwhile n) db
        (update_progress (w.env n) c.job_id (ℤ.pos percent) (some c.owner_token) db.core)
        (λ j. rest) bad (λ j core. good core)

pub notify_user-files :
    (w : ProcessWorld) (n : ℕ) (c : DurableJobContext) (f : File) (type title body : String)
    (u : Option User) (db : AppDb)
    → (notify_user w n c f type title body u db).1.files ≡ db.files
unfolding notify_user
notify_user-files w n c f type title body none db = refl
notify_user-files w n c f type title body (some u) db =
    no_notice_lem _
    ∙ create_file_notification-files (w.env n) w.str w.fresh c.organisation_id u.id type title body
        f.id u.email (some u.id) (some (ownership c)) db
  where
    no_notice_lem : (r : Outcome Notification) → (no_notice r).1.files ≡ r.1.files
    no_notice_lem (ok n, db) = refl
    no_notice_lem (err e, db) = refl

-- The row that a file is processed under is the one that the organisation sees.
to_processing-row :
    (env : Env) (s : FileStatus) (f row : File) (db : AppDb)
    → (to_processing env s f db).0 ≡ ok row
    → (row.id ≡ f.id) × (row.object_key ≡ f.object_key)
unfolding to_processing moved
to_processing-row env FileStatus.processing f row db h = (cc, cc)
to_processing-row env FileStatus.ready f row db h = (cc, cc)
to_processing-row env FileStatus.uploaded f row db h = (cc, cc)
to_processing-row env _ f row db h = (cc, cc)

pub mark_file_processing-row :
    (env : Env) (o j : ℕ) (own : Option JobOwnership) (db : AppDb) (row : File)
    → (mark_file_processing env o j own db).0 ≡ ok row
    → (f : File) × (get_file o j db ≡ ok f) × (row.id ≡ f.id) × (row.object_key ≡ f.object_key)
unfolding mark_file_processing
mark_file_processing-row env o j own db row =
    owned_file_lem o j own (λ f. to_processing env f.status f) db
      (λ out.
        out.0 ≡ ok row
        → (f : File) × (get_file o j db ≡ ok f) × (row.id ≡ f.id) × (row.object_key ≡ f.object_key))
      (λ e h. absurd cc)
      λ f read h.
        let (named, key) = to_processing-row env f.status f row db h in (f, read, named, key)

pub get_file-found :
    (o j : ℕ) (f : File) (db : AppDb) → get_file o j db ≡ ok f → find_file o j db.files ≡ some f
unfolding get_file
get_file-found o j f db read = or_raise-ok file_not_found (find_file o j db.files) read
