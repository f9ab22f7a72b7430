-- ===== src/Files/Calls.antt =====
-- Sequences of calls on the stored files.
use app_template.Prelude.{ℕ, String, Option, List, [], ◌∷◌}
use app_template.Models.Errors.{Result}
use app_template.Database.{Env}
use app_template.Jobs.Policy.{JobOwnership}
use app_template.Database.App.{AppDb}
use app_template.Files.Validation.{StorageSettings}
use app_template.Files.Service.{complete_upload, CompletionAnswers}
use app_template.Files.Upload.{create_upload_intent}
use app_template.Files.Lifecycle.{
  delete_file, mark_file_processing, mark_file_ready, mark_file_failed, mark_file_quarantined,
}

pub data FileCall : Type 0 where
  intends :
      StorageSettings
      → (organisation_id : ℕ) (original_filename content_type : String) (size_bytes : ℕ)
        (actor_user_id : Option ℕ) (file_id token : ℕ) (signed : Result String)
      → FileCall
  completes :
      (str : ℕ → String) (organisation_id file_id : ℕ) (checksum : Option String)
      (actor_user_id : Option ℕ) (fresh_job : ℕ)
      → CompletionAnswers
      → FileCall
  deletes :
      (organisation_id file_id : ℕ) (actor_user_id : Option ℕ) (removed : Result (Unit {0}))
      → FileCall
  processes readies : (organisation_id file_id : ℕ) → Option JobOwnership → FileCall
  fails quarantines :
      (organisation_id file_id : ℕ) (reason : String) → Option JobOwnership → FileCall

-- The organisation that a call acts for.
abbrev pub caller : FileCall → ℕ
caller (FileCall.intends s o n c b a f t u) = o
caller (FileCall.completes str o k c a j answers) = o
caller (FileCall.deletes o k a r) = o
caller (FileCall.processes o k w) = o
caller (FileCall.readies o k w) = o
caller (FileCall.fails o k r w) = o
caller (FileCall.quarantines o k r w) = o

-- One call and the tables that it leaves.
unfoldable pub file_step : Env × FileCall → AppDb → AppDb
file_step (env, FileCall.intends s o n c b a f t u) db =
    (create_upload_intent env s o n c b a f t u db).1
file_step (env, FileCall.completes str o k c a j answers) db =
    (complete_upload env str o k c a j answers db).1
file_step (env, FileCall.deletes o k a r) db = (delete_file env o k a r db).1
file_step (env, FileCall.processes o k w) db = (mark_file_processing env o k w db).1
file_step (env, FileCall.readies o k w) db = (mark_file_ready env o k w db).1
file_step (env, FileCall.fails o k r w) db = (mark_file_failed env o k r w db).1
file_step (env, FileCall.quarantines o k r w) db = (mark_file_quarantined env o k r w db).1

unfoldable pub file_steps : List (Env × FileCall) → AppDb → AppDb
file_steps [] db = db
file_steps (c ∷ cs) db = file_steps cs (file_step c db)
