-- ===== src/Files/Service.antt =====
-- backend/app/modules/files/service.py: the completion of an upload. Each
-- call is one transaction; what the object storage answers to its requests is an argument, so
-- another writer may change an object between two of them.
use app_template.Prelude.{
  ℕ, String, Bool, true, false, ◌&&◌, not, Option, none, some, List, ◌∷◌, ◌==◌, str_eq, find_first,
  if◌then◌else◌,
}
use app_template.Models.Jobs.{Job}
use app_template.Models.Files.{File, FileStatus, ObjectKey, ObjectInfo, is_pending, text_eq}
use app_template.Models.Audit.{file_uploaded}
use app_template.Models.Errors.{Error, conflict, Result, ok, err}
use app_template.Database.{Db, Env}
use app_template.Jobs.Claim.{schedule_job}
use app_template.Database.App.{AppDb, Outcome, check}
use app_template.Files.Tables.{get_file}
use app_template.Files.Upload.{
  fail_completion, file_event, job_type_file_processing, verification_failed, write_file,
}

-- The answers to the three requests of a completion. A copy raises `KeyError` where the source is
-- missing.
pub data CopyAnswer : Type 0 where
  copied missing : CopyAnswer
  raises : Error → CopyAnswer

pub record CompletionAnswers : Type 0 where
  pub staged : Result (Option ObjectInfo)
  pub copy : CopyAnswer
  pub promoted : Result (Option ObjectInfo)

unfoldable pub is_post_completion : FileStatus → Bool
is_post_completion FileStatus.uploaded = true
is_post_completion FileStatus.processing = true
is_post_completion FileStatus.ready = true
is_post_completion _ = false

-- The newest job of an organisation, type and input; new rows stand first.
unfoldable pub find_job_by_input_reference :
    (organisation_id : ℕ) (job_type input_reference : String) → List Job → Option Job
find_job_by_input_reference organisation_id job_type input_reference = find_first (λ (j : Job).
    j.organisation_id == organisation_id
    && (str_eq j.job_type job_type && str_eq j.input_reference input_reference))

abbrev pub job_id_of : Option Job → Option ℕ
job_id_of none = none
job_id_of (some j) = some j.id

abbrev pub size_of : Option ObjectInfo → Option ℕ
size_of none = none
size_of (some i) = some i.size_bytes

abbrev pub checksum_of : Option ObjectInfo → Option String
checksum_of none = none
checksum_of (some i) = i.checksum

-- `checksum is None or info.checksum == checksum`
abbrev pub agrees_with : (checksum actual : Option String) → Bool
agrees_with none actual = true
agrees_with (some c) actual = text_eq (some c) actual

abbrev pub has_size : ℕ → Option ObjectInfo → Bool
has_size n none = false
has_size n (some i) = i.size_bytes == n

-- The reason that the staging object is refused for; `none` is the verified object.
unfoldable pub staged_reason : File → (checksum : Option String) → Option ObjectInfo → Option String
staged_reason file checksum none = some "object_missing"
staged_reason file checksum (some i) =
    if not (i.size_bytes == file.size_bytes)
    then some "size_mismatch"
    else if not (agrees_with checksum i.checksum)
    then some "checksum_mismatch"
    else none

-- `not promoted.checksum`: no checksum, or an empty one.
abbrev pub is_blank : Option String → Bool
is_blank none = true
is_blank (some c) = str_eq c ""

-- The reason that the promoted object is refused for.
unfoldable pub promoted_reason :
    File
    → (checksum : Option String) (verified_identity : Option String) → Option ObjectInfo
    → Option String
promoted_reason file checksum verified promoted =
    if not (has_size file.size_bytes promoted)
    then some "promotion_failed"
    else if is_blank (checksum_of promoted)
    then some "promotion_identity_missing"
    else if not
        (agrees_with verified (checksum_of promoted) && agrees_with checksum (checksum_of promoted))
    then some "promotion_identity_mismatch"
    else none

unfoldable pub uploaded_file : File → (identity : Option String) → File
uploaded_file file identity = record file {
  object_key = ObjectKey.final file.organisation_id file.id;
  status = FileStatus.uploaded;
  checksum = identity;
  content_identity = identity;
}

-- The tables with the uploaded row and its audit row.
unfoldable pub with_upload : Env → (actor_user_id : Option ℕ) → File → AppDb → AppDb
with_upload env actor row db =
    write_file
      (file_event env row.organisation_id actor "file.uploaded" row.id
        (file_uploaded row.object_key row.size_bytes row.checksum row.content_identity))
      row db

-- The commit, and the deletion of the staging object after it.
unfoldable pub with_job :
    (staging_key : ObjectKey) → (row : File) → AppDb → Job × Db → Outcome (File × Option ℕ)
with_job staging_key row written (job, core) = (
  ok (row, some job.id),
  record written { core = core; deleted_objects = staging_key ∷ written.deleted_objects },
)

-- The transaction of a verified upload: the row, its audit row, the job and its dispatch event.
unfoldable pub finish_completion :
    Env
    → (actor_user_id : Option ℕ) (input_reference : String) (fresh_job : ℕ) → File
    → (identity : Option String) → AppDb
    → Outcome (File × Option ℕ)
unfolding uploaded_file with_upload with_job
finish_completion env actor input_reference fresh_job file identity db =
    let row = uploaded_file file identity in
    let written = with_upload env actor row db in
    check db
      (schedule_job env file.organisation_id job_type_file_processing input_reference actor none
        fresh_job written.core)
      (with_job file.object_key row written)

unfoldable pub promote :
    Env
    → (actor_user_id : Option ℕ) (input_reference : String) (fresh_job : ℕ)
      (checksum : Option String) (verified_identity : Option String)
    → File
    → Option ObjectInfo
    → Option String
    → AppDb
    → Outcome (File × Option ℕ)
unfolding fail_completion finish_completion
promote env actor input_reference fresh_job checksum verified file promoted (some reason) db = (
  err verification_failed,
  fail_completion env actor file (ObjectKey.final file.organisation_id file.id) reason
      (size_of promoted) db,
)
promote env actor input_reference fresh_job checksum verified file promoted none db =
    finish_completion env actor input_reference fresh_job file (checksum_of promoted) db

unfoldable pub after_copy :
    Env
    → (actor_user_id : Option ℕ) (input_reference : String) (fresh_job : ℕ)
      (checksum : Option String) (verified_identity : Option String)
    → File
    → CopyAnswer
    → Result (Option ObjectInfo)
    → AppDb
    → Outcome (File × Option ℕ)
unfolding fail_completion promote promoted_reason
after_copy env actor input_reference fresh_job checksum verified file CopyAnswer.copied answer db =
    check db answer λ promoted.
      promote env actor input_reference fresh_job checksum verified file promoted
        (promoted_reason file checksum verified promoted) db
after_copy env actor input_reference fresh_job checksum verified file CopyAnswer.missing answer db =
    (
      err verification_failed,
      fail_completion env actor file file.object_key "object_missing" none db,
    )
after_copy env actor input_reference fresh_job checksum verified file (CopyAnswer.raises e) answer
      db =
    (err e, db)

unfoldable pub after_head :
    Env
    → (actor_user_id : Option ℕ) (input_reference : String) (fresh_job : ℕ)
      (checksum : Option String)
    → File
    → CompletionAnswers
    → (staged : Option ObjectInfo) → Option String
    → AppDb
    → Outcome (File × Option ℕ)
unfolding fail_completion after_copy
after_head env actor input_reference fresh_job checksum file answers staged (some reason) db = (
  err verification_failed,
  fail_completion env actor file file.object_key reason (size_of staged) db,
)
after_head env actor input_reference fresh_job checksum file answers staged none db =
    after_copy env actor input_reference fresh_job checksum (checksum_of staged) file answers.copy
      answers.promoted db

-- The completion of a visible row. A replay returns the job that the first call scheduled.
unfoldable pub complete_file :
    Env
    → (checksum : Option String) (actor_user_id : Option ℕ) (input_reference : String)
      (fresh_job : ℕ)
    → CompletionAnswers
    → File
    → AppDb
    → Outcome (File × Option ℕ)
unfolding after_head staged_reason is_post_completion find_job_by_input_reference
complete_file env checksum actor input_reference fresh_job answers file db =
    if is_post_completion file.status
    then (
      ok (
        file,
        job_id_of (
            find_job_by_input_reference file.organisation_id job_type_file_processing
              input_reference db.core.jobs),
      ),
      db,
    )
    else if not (is_pending file.status)
    then (err (conflict "file_not_pending"), db)
    else check db answers.staged λ staged.
      after_head env actor input_reference fresh_job checksum file answers staged
        (staged_reason file checksum staged) db

-- `input_reference` is `str(file_id)`.
unfoldable pub complete_upload :
    Env
    → (str : ℕ → String) (organisation_id file_id : ℕ) (checksum : Option String)
      (actor_user_id : Option ℕ) (fresh_job : ℕ)
    → CompletionAnswers
    → AppDb
    → Outcome (File × Option ℕ)
unfolding complete_file
complete_upload env str organisation_id file_id checksum actor fresh_job answers db =
    check db (get_file organisation_id file_id db)
      λ file. complete_file env checksum actor (str file.id) fresh_job answers file db
