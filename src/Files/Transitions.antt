-- ===== src/Files/Transitions.antt =====
-- What each transition and the creation of a row does to the table of files.
use app_template.Prelude.{ap, ℕ, ◌<◌, String, false, Option, ◌∷◌, ◌≡◌, refl, subst, arith}
use app_template.Models.Files.{File, FileStatus}
use app_template.Models.Errors.{Result, ok}
use app_template.Database.{Env, any}
use app_template.Jobs.Policy.{JobOwnership}
use app_template.Database.App.{AppDb, Outcome}
use app_template.Files.Tables.{insert_file}
use app_template.Files.Validation.{StorageSettings, validate_declared_upload}
use app_template.Files.Upload.{pending_file, create_upload_intent}
use app_template.Files.Lifecycle.{
  moved, rejected_as, owned_file, to_processing, to_ready, to_failed, to_quarantined,
  mark_file_processing, mark_file_ready, mark_file_failed, mark_file_quarantined, delete_file,
  deleted_file,
}
use app_template.Files.StateMachine.{is_settled, FileMove, stays, moves}
use app_template.Files.Calls.{FileCall, caller, file_step}
use app_template.Files.Invariant.{
  FilePhase, FileIsValid, FilesAreValid, FilesStep, IsSeen, has_file_id, unchanged, inserted,
}
use app_template.Files.Steps.{
  Steps, checked, by_row, rewrite, restate, seen_alive, complete_upload-Steps,
}

insert_file-ok :
    (f : File) (db db' : AppDb)
    → insert_file f db ≡ ok db'
    → (any (has_file_id f.id) db.files ≡ false) × (0 < f.size_bytes) × (db'.files ≡ f ∷ db.files)
unfolding insert_file
insert_file-ok f db db' h = ground arith

module _ (o k : ℕ) (db : AppDb) (v : FilesAreValid db.files) where
  owned_file-Steps :
      (ownership : Option JobOwnership) (transition : File → AppDb → Outcome File)
      → ((f : File) → IsSeen o k db f → Steps o db (transition f db))
      → Steps o db (owned_file o k ownership transition db)
  unfolding owned_file
  owned_file-Steps ownership transition h = checked o k db v _ _ λ _ _. by_row o k db v _ h

  mark_file_processing-Steps :
      (env : Env) (ownership : Option JobOwnership)
      → Steps o db (mark_file_processing env o k ownership db)
  unfolding mark_file_processing to_processing moved
  mark_file_processing-Steps env ownership =
      owned_file-Steps ownership (λ f. to_processing env f.status f)
        λ f seen. go f seen f.status refl
    where
      go :
          (f : File)
          → IsSeen o k db f
          → (s : FileStatus) → f.status ≡ s
          → Steps o db (to_processing env s f db)
      go f seen FileStatus.processing e = unchanged refl
      go f seen FileStatus.ready e = unchanged refl
      go f seen FileStatus.uploaded e =
          restate o k db v f FileStatus.processing seen (λ h. refl) (λ h. ground (arith, h, e)) refl
            (subst (λ s. FilePhase s f) e seen.valid.phase) (FileMove.starts e refl)
      go f seen FileStatus.pending e = unchanged refl
      go f seen FileStatus.failed e = unchanged refl
      go f seen FileStatus.quarantined e = unchanged refl
      go f seen FileStatus.deleted e = unchanged refl

  mark_file_ready-Steps :
      (env : Env) (ownership : Option JobOwnership)
      → Steps o db (mark_file_ready env o k ownership db)
  unfolding mark_file_ready to_ready moved
  mark_file_ready-Steps env ownership =
      owned_file-Steps ownership (λ f. to_ready env f.status f) λ f seen. go f seen f.status refl
    where
      go :
          (f : File)
          → IsSeen o k db f
          → (s : FileStatus) → f.status ≡ s
          → Steps o db (to_ready env s f db)
      go f seen FileStatus.ready e = unchanged refl
      go f seen FileStatus.processing e =
          restate o k db v f FileStatus.ready seen (λ h. refl) (λ h. ground (arith, h, e)) refl
            (subst (λ s. FilePhase s f) e seen.valid.phase) (FileMove.passes e refl)
      go f seen FileStatus.uploaded e = unchanged refl
      go f seen FileStatus.pending e = unchanged refl
      go f seen FileStatus.failed e = unchanged refl
      go f seen FileStatus.quarantined e = unchanged refl
      go f seen FileStatus.deleted e = unchanged refl

  to_failed-Steps :
      (env : Env) (reason : String) (s : FileStatus) (f : File)
      → IsSeen o k db f
      → Steps o db (to_failed env reason s f db)
  unfolding to_failed rejected_as
  to_failed-Steps env reason FileStatus.failed f seen = unchanged refl
  to_failed-Steps env reason FileStatus.deleted f seen = unchanged refl
  to_failed-Steps env reason _ f seen =
      restate o k db v f FileStatus.failed seen (λ h. refl) (λ h. refl) refl tt
        (FileMove.fails (seen_alive o k db v f seen) refl)

  to_quarantined-Steps :
      (env : Env) (reason : String) (s : FileStatus) (f : File)
      → IsSeen o k db f
      → f.status ≡ s
      → Steps o db (to_quarantined env reason s f db)
  unfolding to_quarantined rejected_as
  to_quarantined-Steps env reason FileStatus.quarantined f seen e = unchanged refl
  to_quarantined-Steps env reason FileStatus.failed f seen e = unchanged refl
  to_quarantined-Steps env reason FileStatus.deleted f seen e = unchanged refl
  to_quarantined-Steps env reason _ f seen e =
      restate o k db v f FileStatus.quarantined seen (λ h. refl) (λ h. refl) refl tt
        (FileMove.quarantines (ap is_settled e) refl)

  mark_file_failed-Steps :
      (env : Env) (reason : String) (ownership : Option JobOwnership)
      → Steps o db (mark_file_failed env o k reason ownership db)
  unfolding mark_file_failed
  mark_file_failed-Steps env reason ownership =
      owned_file-Steps ownership (λ f. to_failed env reason f.status f)
        λ f seen. to_failed-Steps env reason f.status f seen

  mark_file_quarantined-Steps :
      (env : Env) (reason : String) (ownership : Option JobOwnership)
      → Steps o db (mark_file_quarantined env o k reason ownership db)
  unfolding mark_file_quarantined
  mark_file_quarantined-Steps env reason ownership =
      owned_file-Steps ownership (λ f. to_quarantined env reason f.status f)
        λ f seen. to_quarantined-Steps env reason f.status f seen refl

  delete_file-Steps :
      (env : Env) (actor : Option ℕ) (removed : Result (Unit {0}))
      → Steps o db (delete_file env o k actor removed db)
  unfolding delete_file deleted_file
  delete_file-Steps env actor removed = by_row o k db v _ λ f seen.
      checked o k db v removed _ λ _ _.
        rewrite o k db v f (deleted_file env f) seen
          (record {
            same_id = refl;
            same_organisation = refl;
            same_size = refl;
            same_name = refl;
            completed = λ h. refl;
            same_key = λ h. refl;
            same_identity = λ h. refl;
            rejected = λ h. refl;
            gone = λ h. absurd (ground (arith, h, seen.present));
            lifecycle = moves stays (FileMove.deletes (seen_alive o k db v f seen) refl);
          })
          (record { sized = seen.valid.sized; phase = tt; marked = refl })
          (FileMove.deletes (seen_alive o k db v f seen) refl)

  create_upload_intent-Steps :
      (env : Env) (settings : StorageSettings) (name content_type : String) (size : ℕ)
      (actor : Option ℕ) (token : ℕ) (signed : Result String)
      → Steps o db
          (create_upload_intent env settings o name content_type size actor k token signed db)
  unfolding create_upload_intent
  create_upload_intent-Steps env settings name content_type size actor token signed =
      let file = pending_file settings o name content_type size actor k token in
      checked o k db v (validate_declared_upload settings name content_type size) _ λ _ _.
        checked o k db v (insert_file file db) _ λ db₁ added. checked o k db v signed _ λ url _.
          let (new, sized, rows) = insert_file-ok file db db₁ added in
          inserted file new (pending_file-IsValid settings name content_type size actor token sized)
            (unfold pending_file in refl) rows
    where
      pending_file-IsValid :
          (settings : StorageSettings) (name content_type : String) (size : ℕ) (actor : Option ℕ)
          (token : ℕ)
          → 0 < size
          → FileIsValid (pending_file settings o name content_type size actor k token)
      pending_file-IsValid settings name content_type size actor token sized =
          unfold pending_file in (record { sized = sized; phase = refl; marked = refl })

-- A call keeps the table well formed and lets a row only evolve.
pub file_step-FilesStep :
    (env : Env) (c : FileCall) (db : AppDb)
    → FilesAreValid db.files
    → FilesStep (caller c) db.files (file_step (env, c) db).files
unfolding file_step
file_step-FilesStep env (FileCall.intends s o n c b a f t u) db v =
    create_upload_intent-Steps o f db v env s n c b a t u
file_step-FilesStep env (FileCall.completes str o k c a j answers) db v =
    complete_upload-Steps o k db v env str a j c answers
file_step-FilesStep env (FileCall.deletes o k a r) db v = delete_file-Steps o k db v env a r
file_step-FilesStep env (FileCall.processes o k w) db v = mark_file_processing-Steps o k db v env w
file_step-FilesStep env (FileCall.readies o k w) db v = mark_file_ready-Steps o k db v env w
file_step-FilesStep env (FileCall.fails o k r w) db v = mark_file_failed-Steps o k db v env r w
file_step-FilesStep env (FileCall.quarantines o k r w) db v =
    mark_file_quarantined-Steps o k db v env r w
