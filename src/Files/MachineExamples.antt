-- ===== src/Files/MachineExamples.antt =====
-- A concrete run of the state machine of a file.
use app_template.Prelude.{none, some, List, [], ◌∷◌, ◌≡◌, refl, arith}
use app_template.Models.Files.{FileStatus}
use app_template.Database.{Env}
use app_template.Database.App.{AppDb, check}
use app_template.Jobs.Samples.{at}
use app_template.Files.Tables.{find_file, get_file}
use app_template.Files.Lifecycle.{
  mark_file_processing, mark_file_ready, owned_file, verify_optional, to_processing, to_ready,
  moved,
}
use app_template.Files.Calls.{FileCall, file_step, file_steps}
use app_template.Files.Invariant.{FileIsValid}
use app_template.Files.Refinement.{FileRun, status_at, file_steps-FileRun}
use app_template.Files.Samples.{served, holding}
use app_template.Files.Examples.{holding-AreValid}

uploaded-IsValid : FileIsValid (record served { status = FileStatus.uploaded })
uploaded-IsValid = record { sized = omega arith; phase = (refl, refl, refl); marked = refl }

-- The worker takes the uploaded file up and finds it sound.
abbrev worker_calls : List (Env × FileCall)
worker_calls = (at 20 50, FileCall.processes 1 3 none) ∷ (at 30 60, FileCall.readies 1 3 none) ∷ []

abbrev uploaded_db : AppDb
uploaded_db = holding (record served { status = FileStatus.uploaded })

worker_calls-ready : status_at 3 (file_steps worker_calls uploaded_db).files ≡ some FileStatus.ready
unfolding file_steps file_step mark_file_processing mark_file_ready owned_file verify_optional
    to_processing to_ready moved check get_file find_file
worker_calls-ready = refl

file_steps-FileRun_example :
    FileRun 2 (some FileStatus.uploaded) (status_at 3 (file_steps worker_calls uploaded_db).files)
file_steps-FileRun_example =
    file_steps-FileRun worker_calls uploaded_db 3
      (holding-AreValid (record served { status = FileStatus.uploaded }) uploaded-IsValid)
