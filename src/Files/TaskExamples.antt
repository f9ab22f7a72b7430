-- ===== src/Files/TaskExamples.antt =====
-- A concrete run of the processing of one stored file.
use app_template.Prelude.{◌+◌, ◌*◌, some, [], ◌∷◌, ◌≡◌, refl, true}
use app_template.Models.Files.{FileStatus}
use app_template.Models.Errors.{ok}
use app_template.Database.{insert_job, insert_event}
use app_template.Database.App.{AppDb, check}
use app_template.Outbox.Contracts.{
  dispatch_payload, json_chars, entries_chars, value_chars, escaped_chars,
}
use app_template.Outbox.Service.{create_dispatch_event, check_payload_size, dispatch_event}
use app_template.Jobs.Claim.{schedule_job, queued_job}
use app_template.Jobs.Samples.{at, running_db}
use app_template.Jobs.Execution.{DurableJobContext, ownership}
use app_template.Jobs.Policy.{is_terminal}
use app_template.Jobs.Lookup.{
  get_job_locked, verify_owner, running_attempt, write_attempt, verify_ownership, read_job,
  check_ownership,
}
use app_template.Jobs.Settle.{update_progress, in_range, magnitude, progress_row}
use app_template.Files.Tables.{find_file, get_file}
use app_template.Files.Lifecycle.{
  mark_file_processing, mark_file_ready, owned_file, verify_optional, to_processing, to_ready,
  moved,
}
use app_template.Files.Tasks.{
  ProcessWorld, ScanVerdict, step, ask, give_up, progress, notify_user, notify_uploader,
  refusal_reason, after_verdict, process_object, after_inspection, process_row, process_reference,
  process_file_attempt,
}
use app_template.Files.Readiness.{ready_at}
use app_template.Files.Trust.{IsCleared, ready_file-IsCleared}
use app_template.Notifications.Service.{
  create_file_notification, insert_notification, insert_delivery, add_with_email, new_notification,
  create_unless, is_notice, queued_delivery, verified,
}
use app_template.Jobs.Settle.{succeed, succeeded_row}
use app_template.Jobs.Lookup.{close_attempt}
use app_template.Files.Samples.{served, holding, same_text, stored}

-- The uploaded file, on the tables of a worker that owns the job 7, and its uploader.
abbrev uploaded_db : AppDb
uploaded_db = record (holding (record served { status = FileStatus.uploaded })) {
  core = running_db;
  users = record { id = 5; email = "user@example.org" } ∷ [];
}

abbrev processing_job : DurableJobContext
processing_job = record {
  job_id = 7;
  organisation_id = 1;
  job_type = "file.processing";
  input_reference = "file:3";
  created_by_user_id = some 5;
  dispatch_id = 10;
  owner_token = 21;
}

abbrev scanning_world : ProcessWorld
scanning_world = record {
  env = λ n. at (100 + n) (1000 + (10 * n));
  meanwhile = λ n db. db;
  parse = λ s. some 3;
  str = same_text;
  head = stored;
  scan = λ key content_type. ok ScanVerdict.clean;
  fresh = record { notification = 51; delivery = 52; identity = 53; job = 54 };
}

file_becomes_ready :
    ready_at 3 (process_file_attempt scanning_world processing_job uploaded_db).1.files ≡ true
unfolding process_file_attempt process_reference process_row after_inspection refusal_reason
    process_object after_verdict ask step progress give_up notify_uploader notify_user
    mark_file_processing mark_file_ready owned_file verify_optional to_processing to_ready moved
    check get_file find_file update_progress get_job_locked verify_owner is_terminal running_attempt
    in_range magnitude write_attempt progress_row verify_ownership read_job check_ownership
    ownership create_file_notification insert_notification insert_delivery add_with_email
    new_notification create_unless is_notice queued_delivery verified schedule_job queued_job
    insert_job insert_event create_dispatch_event check_payload_size dispatch_event dispatch_payload
    json_chars entries_chars value_chars escaped_chars succeed succeeded_row close_attempt
file_becomes_ready = refl

ready_file-IsCleared_example : IsCleared scanning_world processing_job 3 uploaded_db
ready_file-IsCleared_example =
    ready_file-IsCleared scanning_world processing_job 3 uploaded_db (λ n x ready. ready)
      (λ n x key h. h) refl file_becomes_ready
