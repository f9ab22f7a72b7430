-- ===== src/Models/Files.antt =====
-- backend/app/modules/files/models.py: the row of `files`, and what the object storage says of an
-- object (backend/app/storage/types.py). Object keys are compared as wholes, so the two templates
-- of backend/app/modules/files/service.py are constructors.
use app_template.Prelude.{ℕ, String, Bool, true, false, ◌&&◌, ◌==◌, Option, none, some, str_eq}

pub data FileStatus : Type 0 where
  pending uploaded processing ready failed quarantined deleted : FileStatus

pub data ObjectKey : Type 0 where
  -- organisations/{organisation_id}/documents/{file_id}/original
  final : (organisation_id file_id : ℕ) → ObjectKey
  -- organisations/{organisation_id}/documents/{file_id}/staging/{token}
  staging : (organisation_id file_id token : ℕ) → ObjectKey

pub record File : Type 0 where
  pub id : ℕ
  pub organisation_id : ℕ
  pub storage_provider : String
  pub storage_bucket : String
  pub object_key : ObjectKey
  pub original_filename : String
  pub content_type : String
  pub size_bytes : ℕ
  pub checksum : Option String
  pub content_identity : Option String
  pub status : FileStatus
  pub created_by_user_id : Option ℕ
  pub deleted_at : Option ℕ

-- `ObjectInfo`; the size of an object is known, its checksum need not be.
pub record ObjectInfo : Type 0 where
  pub size_bytes : ℕ
  pub checksum : Option String

abbrev pub key_of : ObjectKey → ObjectKey → Bool
key_of (final o f) (final p g) = o == p && f == g
key_of (staging o f t) (staging p g u) = o == p && (f == g && t == u)
key_of _ _ = false

abbrev pub is_pending : FileStatus → Bool
is_pending FileStatus.pending = true
is_pending _ = false

abbrev pub is_ready : FileStatus → Bool
is_ready FileStatus.ready = true
is_ready _ = false

-- `a == b` between a nullable text and another.
abbrev pub text_eq : Option String → Option String → Bool
text_eq none none = true
text_eq none (some _) = false
text_eq (some _) none = false
text_eq (some a) (some b) = str_eq a b
