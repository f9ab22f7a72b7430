-- ===== src/Files/Refinement.antt =====
-- backend/app/modules/files/service.py against the abstract machine of StateMachine.
use app_template.Prelude.{
  ℕ, zero, suc, Option, none, some, List, [], ◌∷◌, ◌==◌, ◌≡◌, refl, sym, ◌∙◌, ap, subst, inl, inr,
  Bool-cases, ==→eq, length,
}
use app_template.Models.Files.{File, FileStatus}
use app_template.Database.{Env}
use app_template.Database.App.{AppDb}
use app_template.Files.Tables.{file_by_id, put_file}
use app_template.Files.StateMachine.{FileMove}
use app_template.Files.Calls.{FileCall, caller, file_step, file_steps}
use app_template.Files.Invariant.{
  FilesAreValid, FilesStep, file_by_id-any, file_by_id-put, unchanged, rewritten, inserted,
}
use app_template.Files.Transitions.{file_step-FilesStep}
use app_template.Files.History.{file_step-AreValid}

abbrev status_of : Option File → Option FileStatus
status_of none = none
status_of (some f) = some f.status

-- What the machine sees of file `k`: nothing, or its state.
abbrev pub status_at : ℕ → List File → Option FileStatus
status_at k fs = status_of (file_by_id k fs)

-- One turn of the machine: it rests, starts a file as pending, or makes one move.
pub data FileTurn (s t : Option FileStatus) : Type 0 where
  rests : t ≡ s → FileTurn s t
  creates : s ≡ none → t ≡ some FileStatus.pending → FileTurn s t
  moves_once : (x y : FileStatus) → s ≡ some x → t ≡ some y → FileMove x y → FileTurn s t

-- A run of as many turns.
abbrev pub FileRun : (turns : ℕ) (s t : Option FileStatus) → Type 0
FileRun zero s t = t ≡ s
FileRun (suc n) s u = (t : Option FileStatus) × FileTurn s t × FileRun n t u

FilesStep-FileTurn :
    (o k : ℕ) (fs fs' : List File)
    → FilesStep o fs fs'
    → FileTurn (status_at k fs) (status_at k fs')
FilesStep-FileTurn o k fs fs' (unchanged e) = FileTurn.rests (ap (status_at k) e)
FilesStep-FileTurn o k fs fs' (rewritten f f' row owned evolves valid move e) =
    elim (Bool-cases (k == f'.id)) [
      | inl y ↦
          let named : k ≡ f.id = ==→eq k f'.id y ∙ evolves.same_id in
          let found : file_by_id k fs ≡ some f =
            subst (λ i. file_by_id i fs ≡ some f) (sym named) row in
          let now : file_by_id k (put_file f' fs) ≡ some f' =
            file_by_id-put k f' fs ∙ rw (y, found) refl in
          FileTurn.moves_once f.status f'.status (ap status_of found)
            (ap (status_at k) e ∙ ap status_of now) move
      | inr n ↦
          let same : file_by_id k (put_file f' fs) ≡ file_by_id k fs =
            file_by_id-put k f' fs ∙ rw n refl in
          FileTurn.rests (ap (status_at k) e ∙ ap status_of same)
    ]
FilesStep-FileTurn o k fs fs' (inserted f new valid started e) = elim (Bool-cases (f.id == k)) [
  | inl y ↦
      let absent : file_by_id k fs ≡ none =
        subst (λ i. file_by_id i fs ≡ none) (==→eq f.id k y) (file_by_id-any f.id fs new) in
      FileTurn.creates (ap status_of absent) (ap (status_at k) e ∙ (rw y (ap some started)))
  | inr n ↦ FileTurn.rests (ap (status_at k) e ∙ (rw n refl))
]

-- A sequence of calls refines the abstract machine, turn by turn: on what the machine sees of a
-- file, each call rests, creates the file as pending, or makes exactly one of the machine's moves,
-- so that no call skips a state.
pub file_steps-FileRun :
    (cs : List (Env × FileCall)) (db : AppDb) (k : ℕ)
    → FilesAreValid db.files
    → FileRun (length cs) (status_at k db.files) (status_at k (file_steps cs db).files)
unfolding file_steps
file_steps-FileRun [] db k v = refl
file_steps-FileRun ((env, c) ∷ cs) db k v = (
  status_at k (file_step (env, c) db).files,
  FilesStep-FileTurn (caller c) k db.files _ (file_step-FilesStep env c db v),
  file_steps-FileRun cs (file_step (env, c) db) k (file_step-AreValid env c db v),
)
