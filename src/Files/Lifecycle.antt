-- ===== src/Files/Lifecycle.antt =====
-- backend/app/modules/files/service.py and authority.py: deletion, download, and the transitions
-- that the worker makes.
use app_template.Prelude.{
  ℕ, String, Bool, true, false, ◌&&◌, ◌||◌, not, Option, none, some, ◌∷◌, ◌==◌, is_some,
}
use app_template.Models.Files.{File, FileStatus, ObjectKey, ObjectInfo, is_ready, text_eq}
use app_template.Models.Audit.{file_named, file_rejected}
use app_template.Models.Errors.{Error, conflict, ai_input, Result, ok, err, raise_if, ◌>>=◌, ◌>>◌}
use app_template.Database.{Env}
use app_template.Jobs.Policy.{JobOwnership}
use app_template.Jobs.Lookup.{verify_ownership}
use app_template.Database.App.{AppDb, Outcome, check}
use app_template.Files.Tables.{get_file}
use app_template.Files.Upload.{file_event, write_file}

-- A row under a status, with its audit row.
unfoldable pub moved : Env → FileStatus → (action : String) → File → AppDb → Outcome File
moved env status action file db =
    let row = record file { status = status } in
    (
      ok row,
      write_file
          (file_event env file.organisation_id none action file.id
            (file_named file.object_key file.original_filename))
          row db,
    )

unfoldable pub rejected_as :
    Env → FileStatus → (action reason : String) → File → AppDb → Outcome File
rejected_as env status action reason file db =
    let row = record file { status = status } in
    (
      ok row,
      write_file
          (file_event env file.organisation_id none action file.id
            (file_rejected file.object_key reason))
          row db,
    )

-- `ownership` is verified in the transaction of the transition.
unfoldable pub verify_optional : Option JobOwnership → AppDb → Result (Unit {0})
verify_optional none db = ok tt
verify_optional (some o) db = do _ ← verify_ownership o true db.core; ok tt

-- The ownership, then the row, then the transition of that row.
unfoldable pub owned_file :
    (organisation_id file_id : ℕ)
    → Option JobOwnership
    → (File → AppDb → Outcome File)
    → AppDb
    → Outcome File
unfolding verify_optional
owned_file organisation_id file_id ownership transition db =
    check db (verify_optional ownership db)
      λ _. check db (get_file organisation_id file_id db) λ file. transition file db

unfoldable pub to_processing : Env → FileStatus → File → AppDb → Outcome File
unfolding moved
to_processing env FileStatus.processing file db = (ok file, db)
to_processing env FileStatus.ready file db = (ok file, db)
to_processing env FileStatus.uploaded file db =
    moved env FileStatus.processing "file.processing" file db
to_processing env _ file db = (err (conflict "file_not_processing"), db)

unfoldable pub mark_file_processing :
    Env → (organisation_id file_id : ℕ) → Option JobOwnership → AppDb → Outcome File
unfolding owned_file to_processing
mark_file_processing env organisation_id file_id ownership =
    owned_file organisation_id file_id ownership λ file. to_processing env file.status file

unfoldable pub to_ready : Env → FileStatus → File → AppDb → Outcome File
unfolding moved
to_ready env FileStatus.ready file db = (ok file, db)
to_ready env FileStatus.processing file db = moved env FileStatus.ready "file.ready" file db
to_ready env _ file db = (err (conflict "file_not_ready"), db)

unfoldable pub mark_file_ready :
    Env → (organisation_id file_id : ℕ) → Option JobOwnership → AppDb → Outcome File
unfolding owned_file to_ready
mark_file_ready env organisation_id file_id ownership =
    owned_file organisation_id file_id ownership λ file. to_ready env file.status file

unfoldable pub to_failed : Env → (reason : String) → FileStatus → File → AppDb → Outcome File
unfolding rejected_as
to_failed env reason FileStatus.failed file db = (ok file, db)
to_failed env reason FileStatus.deleted file db = (ok file, db)
to_failed env reason _ file db =
    rejected_as env FileStatus.failed "file.upload_failed" reason file db

unfoldable pub mark_file_failed :
    Env
    → (organisation_id file_id : ℕ) (reason : String) → Option JobOwnership
    → AppDb
    → Outcome File
unfolding owned_file to_failed
mark_file_failed env organisation_id file_id reason ownership =
    owned_file organisation_id file_id ownership λ file. to_failed env reason file.status file

unfoldable pub to_quarantined : Env → (reason : String) → FileStatus → File → AppDb → Outcome File
unfolding rejected_as
to_quarantined env reason FileStatus.quarantined file db = (ok file, db)
to_quarantined env reason FileStatus.failed file db = (ok file, db)
to_quarantined env reason FileStatus.deleted file db = (ok file, db)
to_quarantined env reason _ file db =
    rejected_as env FileStatus.quarantined "file.quarantined" reason file db

unfoldable pub mark_file_quarantined :
    Env
    → (organisation_id file_id : ℕ) (reason : String) → Option JobOwnership
    → AppDb
    → Outcome File
unfolding owned_file to_quarantined
mark_file_quarantined env organisation_id file_id reason ownership =
    owned_file organisation_id file_id ownership λ file. to_quarantined env reason file.status file

unfoldable pub deleted_file : Env → File → File
deleted_file env file = record file { status = FileStatus.deleted; deleted_at = some env.now }

-- `removed` is the answer of the storage, which is asked first.
unfoldable pub delete_file :
    Env
    → (organisation_id file_id : ℕ) (actor_user_id : Option ℕ) (removed : Result (Unit {0})) → AppDb
    → Outcome (Unit {0})
unfolding deleted_file
delete_file env organisation_id file_id actor removed db =
    check db (get_file organisation_id file_id db) λ file. check db removed λ _. (
      ok tt,
      write_file
          (file_event env file.organisation_id actor "document.deleted" file.id
            (file_named file.object_key file.original_filename))
          (deleted_file env file)
          (record db { deleted_objects = file.object_key ∷ db.deleted_objects }),
    )

abbrev pub denied : Error
denied = ai_input "the referenced storage object is not accessible to this organisation"

-- The stored object still has the pinned identity.
abbrev pub matches_pin : Option String → Option ObjectInfo → Bool
matches_pin identity none = false
matches_pin identity (some i) = is_some i.checksum && text_eq i.checksum identity

-- `DocumentSourceAuthority.authorize_file`; `head` is the answer of the storage.
unfoldable pub authorize_file :
    (organisation_id : ℕ) → Option File → (head : Result (Option ObjectInfo)) → Result (Unit {0})
authorize_file organisation_id none head = err denied
authorize_file organisation_id (some file) head = do
  raise_if
      (not (file.organisation_id == organisation_id)
        || (not (is_ready file.status) || not (is_some file.content_identity)))
      denied
  info ← head
  raise_if (not (matches_pin file.content_identity info)) denied
  ok tt

-- The denial becomes a conflict; any other exception passes.
abbrev pub downloadable : Result (Unit {0}) → Result (Unit {0})
downloadable (err (ai_input m)) = err (conflict "file_not_downloadable")
downloadable r = r

-- The key that a URL is signed for; `head` answers for that key.
unfoldable pub create_download_url :
    (organisation_id file_id : ℕ) (head : ObjectKey → Result (Option ObjectInfo))
    → AppDb
    → Result ObjectKey
unfolding authorize_file
create_download_url organisation_id file_id head db = do
  file ← get_file organisation_id file_id db
  _ ← downloadable (authorize_file organisation_id (some file) (head file.object_key))
  ok file.object_key
