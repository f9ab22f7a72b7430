-- ===== src/Models/Audit.antt =====
-- The rows that backend/app/modules/audit/service.py appends for jobs, files and notifications.
use app_template.Prelude.{ℕ, String, Option}
use app_template.Models.Files.{ObjectKey}

-- The `metadata` dictionaries of the events.
pub data Metadata : Type 0 where
  job_succeeded :
      (job_type input_reference : String) (result_reference : Option String) (attempt_count : ℕ)
      → Metadata
  job_failed :
      (job_type input_reference error_code error_message : String) (attempt_count : ℕ) → Metadata
  upload_started :
      (staging_object_key final_object_key : ObjectKey) (original_filename content_type : String)
      (size_bytes : ℕ)
      → Metadata
  upload_failed :
      (object_key : ObjectKey) (expected_size_bytes : ℕ) (actual_size_bytes : Option ℕ)
      (reason : String)
      → Metadata
  file_uploaded :
      (object_key : ObjectKey) (size_bytes : ℕ) (checksum content_identity : Option String)
      → Metadata
  file_named : (object_key : ObjectKey) (original_filename : String) → Metadata
  notification_test : (channel recipient : String) → Metadata
  delivery_failed : (channel : String) (delivery_id : ℕ) (error_code : String) → Metadata
  file_rejected : (object_key : ObjectKey) (reason : String) → Metadata

pub record AuditEvent : Type 0 where
  pub organisation_id : Option ℕ
  pub actor_user_id : Option ℕ
  pub action : String
  pub resource_type : String
  pub resource_id : ℕ
  pub metadata : Metadata
  pub request_id : Option String
