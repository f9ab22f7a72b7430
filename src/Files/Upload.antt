-- ===== src/Files/Upload.antt =====
-- backend/app/modules/files/service.py: the upload intent, and the failure of a completion.
use app_template.Prelude.{ℕ, String, Option, none, some, ◌∷◌}
use app_template.Models.Files.{File, FileStatus, ObjectKey}
use app_template.Models.Audit.{AuditEvent, Metadata, upload_started, upload_failed}
use app_template.Models.Errors.{Error, invalid, Result, ok}
use app_template.Database.{Env}
use app_template.Database.App.{AppDb, Outcome, check}
use app_template.Files.Tables.{put_file, insert_file}
use app_template.Files.Validation.{StorageSettings, validate_declared_upload}

abbrev pub job_type_file_processing : String
job_type_file_processing = "file.processing"

-- `record_event` for a file.
abbrev pub file_event :
    Env
    → (organisation_id : ℕ) (actor_user_id : Option ℕ) (action : String) (file_id : ℕ) → Metadata
    → AuditEvent
file_event env organisation_id actor_user_id action file_id metadata = record {
  organisation_id = some organisation_id;
  actor_user_id = actor_user_id;
  action = action;
  resource_type = "file";
  resource_id = file_id;
  metadata = metadata;
  request_id = env.request_id;
}

abbrev pub with_event : AuditEvent → AppDb → AppDb
with_event e db = record db { core = record db.core { audit = e ∷ db.core.audit } }

-- The flush of a changed row with its audit row.
abbrev pub write_file : AuditEvent → File → AppDb → AppDb
write_file e f db = with_event e (record db { files = put_file f db.files })

unfoldable pub pending_file :
    StorageSettings
    → (organisation_id : ℕ) (original_filename content_type : String) (size_bytes : ℕ)
      (actor_user_id : Option ℕ) (file_id token : ℕ)
    → File
pending_file settings organisation_id original_filename content_type size_bytes actor file_id
      token =
    record {
      id = file_id;
      organisation_id = organisation_id;
      storage_provider = settings.storage_provider;
      storage_bucket = settings.storage_bucket;
      object_key = ObjectKey.staging organisation_id file_id token;
      original_filename = original_filename;
      content_type = content_type;
      size_bytes = size_bytes;
      checksum = none;
      content_identity = none;
      status = FileStatus.pending;
      created_by_user_id = actor;
      deleted_at = none;
    }

-- `signed` is the answer to `create_upload_url`; a signed URL is a text.
unfoldable pub create_upload_intent :
    Env
    → StorageSettings
    → (organisation_id : ℕ) (original_filename content_type : String) (size_bytes : ℕ)
      (actor_user_id : Option ℕ) (file_id token : ℕ) (signed : Result String)
    → AppDb
    → Outcome (File × String)
unfolding pending_file
create_upload_intent env settings organisation_id name content_type size_bytes actor file_id token
      signed db =
    let file =
      pending_file settings organisation_id name content_type size_bytes actor file_id token in
    check db (validate_declared_upload settings name content_type size_bytes) λ _.
      check db (insert_file file db) λ db₁. check db signed λ url. (
        ok (file, url),
        with_event
            (file_event env organisation_id actor "file.upload_started" file_id (
              upload_started file.object_key (ObjectKey.final organisation_id file_id) name
                content_type size_bytes))
            db₁,
      )

-- `_fail_completion`, and the 422 that follows it.
unfoldable pub fail_completion :
    Env
    → (actor_user_id : Option ℕ) → File
    → (object_key : ObjectKey) (reason : String) (actual_size_bytes : Option ℕ) → AppDb
    → AppDb
fail_completion env actor file object_key reason actual db =
    write_file
      (file_event env file.organisation_id actor "file.upload_failed" file.id
        (upload_failed object_key file.size_bytes actual reason))
      (record file { status = FileStatus.failed }) db

abbrev pub verification_failed : Error
verification_failed = invalid "upload_verification_failed"
