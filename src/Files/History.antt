-- ===== src/Files/History.antt =====
-- What every sequence of calls keeps of the stored files.
use app_template.Prelude.{ℕ, List, [], ◌∷◌, some, ◌≡◌, ◌≢◌, ◌∙◌, ap}
use app_template.Models.Files.{File}
use app_template.Database.{Env}
use app_template.Database.App.{AppDb}
use app_template.Files.Tables.{file_by_id}
use app_template.Files.Calls.{FileCall, caller, file_step, file_steps}
use app_template.Files.Invariant.{FilesAreValid, Evolves, Evolves-refl, Evolves-trans}
use app_template.Files.Preservation.{FilesStep-AreValid, FilesStep-Evolves}
use app_template.Files.Transitions.{file_step-FilesStep}

pub file_step-AreValid :
    (env : Env) (c : FileCall) (db : AppDb)
    → FilesAreValid db.files
    → FilesAreValid (file_step (env, c) db).files
file_step-AreValid env c db v =
    FilesStep-AreValid (caller c) db.files _ (file_step-FilesStep env c db v) v

-- Every sequence of calls on the files, whatever the storage answers to them, keeps the identifiers
-- unique and every row well formed: its size is positive, it carries a deletion time exactly when
-- it is deleted, a pending row has no identity, and an uploaded, processing or ready row stands
-- under its final key with a pinned identity that is not blank and is its checksum.
pub file_steps-AreValid :
    (cs : List (Env × FileCall)) (db : AppDb)
    → FilesAreValid db.files
    → FilesAreValid (file_steps cs db).files
unfolding file_steps
file_steps-AreValid [] db v = v
file_steps-AreValid ((env, c) ∷ cs) db v =
    file_steps-AreValid cs (file_step (env, c) db) (file_step-AreValid env c db v)

-- No sequence of calls loses a row or moves it back: the row keeps its identifier, organisation,
-- size and name; once it is no longer pending it stays so and keeps its key and pinned identity; a
-- failed, quarantined or deleted file never becomes anything else than these; a deleted one stays
-- as it is.
pub file_steps-Evolves :
    (cs : List (Env × FileCall)) (db : AppDb) (k : ℕ) (f : File)
    → FilesAreValid db.files
    → file_by_id k db.files ≡ some f
    → (g : File) × (file_by_id k (file_steps cs db).files ≡ some g) × Evolves f g
unfolding file_steps
file_steps-Evolves [] db k f v found = (f, found, Evolves-refl f)
file_steps-Evolves ((env, c) ∷ cs) db k f v found =
    let (g, there, evolves, _) =
      FilesStep-Evolves (caller c) k db.files _ f (file_step-FilesStep env c db v) found in
    let (h, last, more) =
      file_steps-Evolves cs (file_step (env, c) db) k g (file_step-AreValid env c db v) there in
    (h, last, Evolves-trans f g h evolves more)

-- No call of the sequence is made for the organisation.
abbrev pub AllForeign : (organisation_id : ℕ) → List (Env × FileCall) → Type 0
AllForeign o [] = Unit
AllForeign o ((env, c) ∷ cs) = (o ≢ caller c) × AllForeign o cs

-- Calls for other organisations leave a row exactly as it is.
pub foreign_calls_spare :
    (cs : List (Env × FileCall)) (db : AppDb) (k : ℕ) (f : File)
    → FilesAreValid db.files
    → file_by_id k db.files ≡ some f
    → AllForeign f.organisation_id cs
    → file_by_id k (file_steps cs db).files ≡ some f
unfolding file_steps
foreign_calls_spare [] db k f v found foreign = found
foreign_calls_spare ((env, c) ∷ cs) db k f v found (other, foreign) =
    let (g, there, evolves, spared) =
      FilesStep-Evolves (caller c) k db.files _ f (file_step-FilesStep env c db v) found in
    let kept : file_by_id k (file_step (env, c) db).files ≡ some f =
      there ∙ ap some (spared other) in
    foreign_calls_spare cs (file_step (env, c) db) k f (file_step-AreValid env c db v) kept foreign
