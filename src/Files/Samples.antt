-- ===== src/Files/Samples.antt =====
-- A stored file on its way, and an object of the storage.
use app_template.Prelude.{ℕ, String, Option, none, some, [], ◌∷◌}
use app_template.Models.Files.{File, FileStatus, ObjectKey, ObjectInfo}
use app_template.Models.Errors.{Result, ok}
use app_template.Database.App.{AppDb}
use app_template.Jobs.Calls.{empty_db}

-- The file 3 of the organisation 1, which waits for its upload.
abbrev pub awaited : File
awaited = record {
  id = 3;
  organisation_id = 1;
  storage_provider = "s3";
  storage_bucket = "documents";
  object_key = ObjectKey.staging 1 3 9;
  original_filename = "report.pdf";
  content_type = "application/pdf";
  size_bytes = 10;
  checksum = none;
  content_identity = none;
  status = FileStatus.pending;
  created_by_user_id = some 5;
  deleted_at = none;
}

-- The same file once it is ready.
abbrev pub served : File
served = record awaited {
  object_key = ObjectKey.final 1 3;
  checksum = some "abc";
  content_identity = some "abc";
  status = FileStatus.ready;
}

abbrev pub holding : File → AppDb
holding f = record {
  core = empty_db;
  files = f ∷ [];
  deleted_objects = [];
  notifications = [];
  deliveries = [];
  users = [];
}

abbrev pub object_of_ten : ObjectInfo
object_of_ten = record { size_bytes = 10; checksum = some "abc" }

abbrev pub same_text : ℕ → String
same_text k = "file:3"

abbrev pub stored : ObjectKey → Result (Option ObjectInfo)
stored key = ok (some object_of_ten)
