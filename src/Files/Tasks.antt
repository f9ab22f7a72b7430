-- ===== src/Files/Tasks.antt =====
-- backend/app/modules/files/tasks.py: one attempt of the job that processes an uploaded file.
use Prim.Native.String.{◌++◌ as joined}
use app_template.Prelude.{
  ℕ, String, not, Option, none, some, List, ◌==◌, is_some, str_eq, find_first, if◌then◌else◌,
}
use app_template.Prelude.Int.{ℤ}
use app_template.Models.Files.{File, ObjectKey, ObjectInfo, text_eq}
use app_template.Models.Notifications.{Notification, User}
use app_template.Models.Errors.{not_found, failure, Result, ok, err}
use app_template.Database.{Env}
use app_template.Database.App.{AppDb, Outcome}
use app_template.Jobs.Settle.{fail, succeed, update_progress}
use app_template.Jobs.Execution.{DurableJobContext, HandlerEnd, ownership}
use app_template.Notifications.Service.{commit, in_core, Fresh, create_file_notification}
use app_template.Files.Tables.{get_file}
use app_template.Files.Upload.{job_type_file_processing}
use app_template.Files.Lifecycle.{
  mark_file_processing, mark_file_ready, mark_file_failed, mark_file_quarantined,
}

-- `ScanVerdict`
pub data ScanVerdict : Type 0 where
  clean quarantined not_required : ScanVerdict

-- The clock of each transaction and what other processes commit after it; the parser and the writer
-- of identifiers; the storage and the scanner, which may raise; the identifiers of the
-- notification.
pub record ProcessWorld : Type 0 where
  pub env : ℕ → Env
  pub meanwhile : ℕ → AppDb → AppDb
  pub parse : String → Option ℕ
  pub str : ℕ → String
  pub head : ObjectKey → Result (Option ObjectInfo)
  pub scan : ObjectKey → String → Result ScanVerdict
  pub fresh : Fresh

abbrev pub Attempt : Type 0
Attempt = HandlerEnd × AppDb

-- A transaction, and the rest of the attempt where it does not raise.
unfoldable pub step {ℓ} :
    {A : Type ℓ} → (AppDb → AppDb) → Outcome A → (A → AppDb → Attempt) → Attempt
step meanwhile (err e, db) rest = (HandlerEnd.raised e, db)
step meanwhile (ok a, db) rest = rest a (meanwhile db)

-- A request outside the database.
unfoldable pub ask {ℓ} : {A : Type ℓ} → AppDb → Result A → (A → Attempt) → Attempt
ask db (err e) rest = (HandlerEnd.raised e, db)
ask db (ok a) rest = rest a

-- The job fails for good.
unfoldable pub give_up :
    ProcessWorld
    → (n : ℕ) → DurableJobContext
    → (error_code error_message reason : String) → AppDb
    → Attempt
unfolding step
give_up w n c code message reason db =
    step (w.meanwhile n)
      (commit db (in_core (fail (w.env n) c.job_id code message (some c.owner_token)) db))
      λ _ db'. (HandlerEnd.permanent reason, db')

unfoldable pub progress :
    ProcessWorld → (n : ℕ) → DurableJobContext → ℕ → AppDb → (AppDb → Attempt) → Attempt
unfolding step
progress w n c percent db rest =
    step (w.meanwhile n)
      (commit db
        (in_core (update_progress (w.env n) c.job_id (ℤ.pos percent) (some c.owner_token)) db))
      λ _. rest

abbrev pub no_notice : Outcome Notification → Outcome (Unit {0})
no_notice (ok n, db) = (ok tt, db)
no_notice (err e, db) = (err e, db)

abbrev pub find_user : ℕ → List User → Option User
find_user k = find_first (λ u. u.id == k)

-- The uploader's row, where there is one.
unfoldable pub notify_user :
    ProcessWorld
    → (n : ℕ) → DurableJobContext
    → File
    → (type title body : String) → Option User
    → AppDb
    → Outcome (Unit {0})
notify_user w n c file type title body none db = (ok tt, db)
notify_user w n c file type title body (some u) db = no_notice (
    create_file_notification (w.env n) w.str w.fresh c.organisation_id u.id type title body file.id
      u.email (some u.id) (some (ownership c)) db)

abbrev pub uploader_of : Option ℕ → AppDb → Option User
uploader_of none db = none
uploader_of (some k) db = find_user k db.users

-- `_notify_uploader`
unfoldable pub notify_uploader :
    ProcessWorld
    → (n : ℕ) → DurableJobContext
    → File
    → (type title body : String) → AppDb
    → Outcome (Unit {0})
unfolding notify_user
notify_uploader w n c file type title body db =
    notify_user w n c file type title body (uploader_of file.created_by_user_id db) db

abbrev pub failed_body : File → String
failed_body file = joined "Your file " (joined file.original_filename " could not be processed.")

abbrev pub ready_body : File → String
ready_body file = joined "Your file " (joined file.original_filename " is ready.")

-- The reason that a stored object is refused for; `none` where it is verified.
unfoldable pub refusal_reason : File → Option ObjectInfo → Option String
refusal_reason file none = some "object_missing"
refusal_reason file (some i) =
    if not (i.size_bytes == file.size_bytes)
    then some "size_mismatch"
    else if not (is_some file.content_identity)
    then some "identity_missing"
    else if not (text_eq i.checksum file.content_identity)
    then some "identity_mismatch"
    else none

-- The file is failed, its uploader told, and the job given up.
unfoldable pub refuse_object :
    ProcessWorld → DurableJobContext → File → (reason : String) → AppDb → Attempt
unfolding step give_up notify_uploader
refuse_object w c file reason db =
    step (w.meanwhile 1)
      (mark_file_failed (w.env 1) c.organisation_id file.id reason (some (ownership c)) db)
      λ _ db₁.
        step (w.meanwhile 2)
          (notify_uploader w 2 c file "file.failed" "File failed" (failed_body file) db₁)
          λ _ db₂.
            give_up w 3 c "file_verification_failed"
              "The stored object could not be verified while processing."
              (joined "the stored object could not be verified (" (joined reason ")")) db₂

-- What follows the verdict of the scanner.
unfoldable pub after_verdict :
    ProcessWorld → DurableJobContext → File → ScanVerdict → AppDb → Attempt
unfolding step give_up notify_uploader
after_verdict w c file ScanVerdict.quarantined db =
    step (w.meanwhile 4)
      (mark_file_quarantined (w.env 4) c.organisation_id file.id "scanner_rejected"
        (some (ownership c)) db)
      λ _ db₁.
        step (w.meanwhile 5)
          (notify_uploader w 5 c file "file.failed" "File failed" (failed_body file) db₁)
          λ _ db₂.
            give_up w 6 c "file_quarantined" "The stored object was rejected by the upload scanner."
              "the stored object was quarantined" db₂
after_verdict w c file _ db =
    step (w.meanwhile 4)
      (mark_file_ready (w.env 4) c.organisation_id file.id (some (ownership c)) db)
      λ _ db₁.
        step (w.meanwhile 5)
          (notify_uploader w 5 c file "file.ready" "File ready" (ready_body file) db₁)
          λ _ db₂.
            step (w.meanwhile 6)
              (commit db₂ (
                in_core (succeed (w.env 6) c.job_id (some (w.str file.id)) (some c.owner_token))
                  db₂))
              λ _ db₃. (HandlerEnd.returned, db₃)

-- A verified object on its way to the scanner.
unfoldable pub process_object : ProcessWorld → DurableJobContext → File → AppDb → Attempt
unfolding step ask progress after_verdict
process_object w c file db = progress w 1 c 50 db λ db₁.
    step (w.meanwhile 2)
      (mark_file_processing (w.env 2) c.organisation_id file.id (some (ownership c)) db₁)
      λ row db₂. progress w 3 c 80 db₂ λ db₃.
        ask db₃ (w.scan row.object_key row.content_type)
          λ verdict. after_verdict w c row verdict db₃

unfoldable pub after_inspection :
    ProcessWorld → DurableJobContext → File → Option String → AppDb → Attempt
unfolding refuse_object process_object
after_inspection w c file (some reason) db = refuse_object w c file reason db
after_inspection w c file none db = process_object w c file db

unfoldable pub process_row : ProcessWorld → DurableJobContext → Result File → AppDb → Attempt
unfolding ask give_up progress refusal_reason after_inspection
process_row w c (ok file) db = progress w 0 c 10 db λ db₁.
    ask db₁ (w.head file.object_key)
      λ info. after_inspection w c file (refusal_reason file info) db₁
process_row w c (err (not_found m)) db =
    give_up w 0 c "file_not_found" "The file this job processes no longer exists."
      "the file referenced by the job does not exist" db
process_row w c (err e) db = (HandlerEnd.raised e, db)

unfoldable pub process_reference : ProcessWorld → DurableJobContext → Option ℕ → AppDb → Attempt
unfolding process_row
process_reference w c none db = (HandlerEnd.raised (failure "ValueError"), db)
process_reference w c (some k) db = process_row w c (get_file c.organisation_id k db) db

-- `_process_file_attempt`
unfoldable pub process_file_attempt : ProcessWorld → DurableJobContext → AppDb → Attempt
unfolding give_up process_reference
process_file_attempt w c db =
    if not (str_eq c.job_type job_type_file_processing)
    then give_up w 0 c "invalid_file_job_context" "The file job has an invalid task type."
        "the file job context is invalid" db
    else process_reference w c (w.parse c.input_reference) db
