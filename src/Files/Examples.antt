-- ===== src/Files/Examples.antt =====
-- Concrete runs of the calls on one stored file.
use app_template.Prelude.{
  ℕ, String, Option, none, some, List, [], ◌∷◌, ◌≡◌, ◌↔◌, refl, subst, arith,
}
use app_template.Models.Files.{FileStatus, File, ObjectKey}
use app_template.Models.Errors.{ok, err}
use app_template.Database.{Env, insert_job, insert_event}
use app_template.Database.App.{check}
use app_template.Outbox.Contracts.{
  dispatch_payload, json_chars, entries_chars, value_chars, escaped_chars,
}
use app_template.Outbox.Service.{create_dispatch_event, check_payload_size, dispatch_event}
use app_template.Jobs.Claim.{schedule_job, queued_job}
use app_template.Jobs.Samples.{at}
use app_template.Files.Tables.{file_by_id, find_file, get_file, file_not_found}
use app_template.Files.Service.{
  CompletionAnswers, CopyAnswer, complete_upload, complete_file, after_head, after_copy, promote,
  promoted_reason, staged_reason, is_post_completion, finish_completion, with_upload, with_job,
  uploaded_file,
}
use app_template.Files.Lifecycle.{
  delete_file, create_download_url, mark_file_processing, mark_file_ready, mark_file_failed,
  mark_file_quarantined,
}
use app_template.Files.Calls.{FileCall, file_steps}
use app_template.Files.Invariant.{FilesAreValid, FileIsValid, Evolves}
use app_template.Files.History.{file_steps-AreValid, file_steps-Evolves, foreign_calls_spare}
use app_template.Files.Finishing.{IsOneJob}
use app_template.Files.Completion.{completed_is_verified}
use app_template.Files.Verification.{IsVerified}
use app_template.Jobs.Policy.{JobOwnership}
use app_template.Files.Access.{
  Refused, create_download_url_iff, foreign_file_is_missing, IsDownloadable,
}
use app_template.Files.Samples.{awaited, served, holding, object_of_ten, same_text, stored}

abbrev good_answers : CompletionAnswers
good_answers = record {
  staged = ok (some object_of_ten);
  copy = CopyAnswer.copied;
  promoted = ok (some object_of_ten);
}

abbrev upload_calls : List (Env × FileCall)
upload_calls =
    (at 10 40, FileCall.completes same_text 1 3 (some "abc") (some 5) 7 good_answers)
    ∷ (at 20 50, FileCall.processes 1 3 none)
    ∷ (at 30 60, FileCall.readies 1 3 none)
    ∷ (at 40 70, FileCall.deletes 1 3 (some 5) (ok tt))
    ∷ []

abbrev other_calls : List (Env × FileCall)
other_calls =
    (at 10 40, FileCall.deletes 2 3 (some 6) (ok tt))
    ∷ (at 20 50, FileCall.fails 2 3 "unknown" none)
    ∷ []

holding-found : (f g : File) (k : ℕ) → file_by_id k (f ∷ []) ≡ some g → f ≡ g
holding-found f g k h = ground arith

pub holding-AreValid : (f : File) → FileIsValid f → FilesAreValid (holding f).files
holding-AreValid f v = record {
  keyed = (refl, tt);
  each = λ k g h. subst FileIsValid (holding-found f g k h) v;
}

awaited-IsValid : FileIsValid awaited
awaited-IsValid = record { sized = omega arith; phase = refl; marked = refl }

served-IsValid : FileIsValid served
served-IsValid = record { sized = omega arith; phase = (refl, refl, refl); marked = refl }

file_steps-AreValid_example : FilesAreValid (file_steps upload_calls (holding awaited)).files
file_steps-AreValid_example =
    file_steps-AreValid upload_calls (holding awaited) (holding-AreValid awaited awaited-IsValid)

file_steps-Evolves_example :
    (g : File) × (file_by_id 3 (file_steps upload_calls (holding awaited)).files ≡ some g)
    × Evolves awaited g
file_steps-Evolves_example =
    file_steps-Evolves upload_calls (holding awaited) 3 awaited
      (holding-AreValid awaited awaited-IsValid) refl

foreign_calls_spare_example :
    file_by_id 3 (file_steps other_calls (holding served)).files ≡ some served
foreign_calls_spare_example =
    foreign_calls_spare other_calls (holding served) 3 served
      (holding-AreValid served served-IsValid) refl (ground arith, (ground arith, tt))

awaited-read : get_file 1 3 (holding awaited) ≡ ok awaited
unfolding get_file find_file
awaited-read = refl

awaited-completed :
    (complete_upload
      (at 10 40)
      same_text
      1
      3
      (some "abc")
      (some 5)
      7
      good_answers
      (holding awaited)).0
    ≡ ok (uploaded_file awaited (some "abc"), some 7)
unfolding complete_upload complete_file after_head after_copy promote promoted_reason staged_reason
    is_post_completion finish_completion with_upload with_job uploaded_file check get_file find_file
    schedule_job queued_job insert_job insert_event create_dispatch_event check_payload_size
    dispatch_event dispatch_payload json_chars entries_chars value_chars escaped_chars
awaited-completed = refl

completed_is_verified_example :
    ((identity : Option String) × (uploaded_file awaited (some "abc") ≡ record awaited {
      object_key = ObjectKey.final 1 3;
      status = FileStatus.uploaded;
      checksum = identity;
      content_identity = identity;
    })
      × IsVerified awaited (some "abc") good_answers identity)
    × (file_by_id 3
          (complete_upload
            (at 10 40)
            same_text
            1
            3
            (some "abc")
            (some 5)
            7
            good_answers
            (holding awaited)).1.files
        ≡ some (uploaded_file awaited (some "abc")))
    × IsOneJob awaited
        (same_text 3)
        (holding awaited)
        (complete_upload
          (at 10 40)
          same_text
          1
          3
          (some "abc")
          (some 5)
          7
          good_answers
          (holding awaited)).1
        (some 7)
    × (complete_upload
          (at 20 50)
          same_text
          1
          3
          none
          none
          8
          good_answers
          (complete_upload
            (at 10 40)
            same_text
            1
            3
            (some "abc")
            (some 5)
            7
            good_answers
            (holding awaited)).1
        ≡ (
          ok (uploaded_file awaited (some "abc"), some 7),
          (complete_upload
              (at 10 40)
              same_text
              1
              3
              (some "abc")
              (some 5)
              7
              good_answers
              (holding awaited)).1,
        ))
completed_is_verified_example =
    completed_is_verified (at 10 40) (at 20 50) same_text 1 3 (some "abc") none (some 5) none 7 8
      good_answers good_answers awaited (uploaded_file awaited (some "abc")) (some 7)
      (holding awaited) (holding-AreValid awaited awaited-IsValid) awaited-read refl
      awaited-completed

create_download_url_iff_example :
    (create_download_url 1 3 stored (holding served) ≡ ok (ObjectKey.final 1 3))
    ↔ IsDownloadable 1 3 stored (holding served) (ObjectKey.final 1 3)
create_download_url_iff_example =
    create_download_url_iff 1 3 stored (holding served) (ObjectKey.final 1 3)
      (holding-AreValid served served-IsValid)

-- A worker of organisation 2 whose job does not exist.
abbrev strange : JobOwnership
strange = record { job_id = 99; organisation_id = 2; owner_token = 1 }

foreign_file_is_missing_example :
    (complete_upload (at 10 40) same_text 2 3 none (some 6) 7 good_answers (holding served)
      ≡ (err file_not_found, holding served))
    × (delete_file (at 10 40) 2 3 (some 6) (ok tt) (holding served)
        ≡ (err file_not_found, holding served))
    × (create_download_url 2 3 stored (holding served) ≡ err file_not_found)
    × Refused
        (some strange)
        (holding served)
        (mark_file_processing (at 10 40) 2 3 (some strange) (holding served))
    × Refused
        (some strange)
        (holding served)
        (mark_file_ready (at 10 40) 2 3 (some strange) (holding served))
    × Refused
        (some strange)
        (holding served)
        (mark_file_failed (at 10 40) 2 3 "unknown" (some strange) (holding served))
    × Refused
        (some strange)
        (holding served)
        (mark_file_quarantined (at 10 40) 2 3 "unknown" (some strange) (holding served))
foreign_file_is_missing_example =
    foreign_file_is_missing (at 10 40) 2 3 served (holding served) same_text none (some 6) 7
      good_answers (ok tt) stored "unknown" (some strange) (holding-AreValid served served-IsValid)
      refl (ground arith)
