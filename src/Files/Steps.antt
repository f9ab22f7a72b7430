-- ===== src/Files/Steps.antt =====
-- What each call on a stored file makes of the table.
use app_template.Prelude.{
  ap, sym, ◌∙◌, is_some, ℕ, String, Bool, true, false, not, Option, none, some, ◌≡◌, refl, arith,
  inl, inr, Bool-cases, if◌then◌else◌,
}
use app_template.Models.Files.{File, FileStatus, ObjectKey, ObjectInfo, is_pending}
use app_template.Models.Errors.{Result, ok, err}
use app_template.Database.{Env}
use app_template.Database.App.{AppDb, Outcome, check}
use app_template.Files.Tables.{put_file, get_file}
use app_template.Files.Service.{
  finish_completion, uploaded_file, promote, promoted_reason, after_copy, after_head, complete_file,
  complete_upload, CopyAnswer, CompletionAnswers, is_post_completion, staged_reason, checksum_of,
  size_of, is_blank, has_size,
}
use app_template.Files.Upload.{fail_completion}
use app_template.Files.StateMachine.{is_deleted, FileMove, stays, moves}
use app_template.Files.Invariant.{
  FilePhase, FileIsValid, FilesAreValid, Evolves, FilesStep, IsSeen, get_file-IsSeen, is_rejected,
  unchanged, rewritten,
}

-- The tables of an outcome.
abbrev pub Steps {ℓ} : {A : Type ℓ} → ℕ → AppDb → Outcome A → Type 0
Steps o db out = FilesStep o db.files out.1.files

-- An accepted promotion has an identity.
promoted-solid :
    (f : File) (checksum verified : Option String) (promoted : Option ObjectInfo)
    → promoted_reason f checksum verified promoted ≡ none
    → is_blank (checksum_of promoted) ≡ false
unfolding promoted_reason
promoted-solid f checksum verified promoted h =
    by_test (not (has_size f.size_bytes promoted)) (is_blank (checksum_of promoted)) _ h
  where
    by_test :
        (a b : Bool) (rest : Option String)
        → (if a
            then some "promotion_failed"
            else if b
            then some "promotion_identity_missing"
            else rest)
          ≡ none
        → b ≡ false
    by_test true b rest e = cc
    by_test false true rest e = cc
    by_test false false rest e = refl

is_pending-eq : (s : FileStatus) → is_pending s ≡ true → s ≡ FileStatus.pending
is_pending-eq FileStatus.pending h = refl
is_pending-eq _ h = cc

module _ (o k : ℕ) (db : AppDb) (v : FilesAreValid db.files) where
  pub checked {ℓ κ} :
      {A : Type ℓ} {B : Type κ} (r : Result A) (rest : A → Outcome B)
      → ((a : A) → r ≡ ok a → Steps o db (rest a))
      → Steps o db (check db r rest)
  unfolding check
  checked (err e) rest h = unchanged refl
  checked (ok a) rest h = h a refl

  -- A call that reads the row before it writes.
  pub by_row {ℓ} :
      {A : Type ℓ} (rest : File → Outcome A)
      → ((f : File) → IsSeen o k db f → Steps o db (rest f))
      → Steps o db (check db (get_file o k db) rest)
  by_row rest h = checked (get_file o k db) rest λ f read. h f (get_file-IsSeen o k db f v read)

  pub seen_alive : (f : File) → IsSeen o k db f → is_deleted f.status ≡ false
  seen_alive f seen = sym seen.valid.marked ∙ ap is_some seen.present

  pub rewrite :
      (f f' : File)
      → IsSeen o k db f
      → Evolves f f'
      → FileIsValid f'
      → FileMove f.status f'.status
      → FilesStep o db.files (put_file f' db.files)
  rewrite f f' seen evolves valid move = rewritten f f' seen.row seen.owned evolves valid move refl

  -- A change of the status alone.
  pub restate :
      (f : File) (s : FileStatus)
      → IsSeen o k db f
      → (is_pending f.status ≡ false → is_pending s ≡ false)
      → (is_rejected f.status ≡ true → is_rejected s ≡ true)
      → is_deleted s ≡ false
      → FilePhase s (record f { status = s })
      → FileMove f.status s
      → FilesStep o db.files (put_file (record f { status = s }) db.files)
  restate f s seen completed rejected alive phase move =
      rewrite f (record f { status = s }) seen
        (record {
          same_id = refl;
          same_organisation = refl;
          same_size = refl;
          same_name = refl;
          completed = completed;
          same_key = λ h. refl;
          same_identity = λ h. refl;
          rejected = rejected;
          gone = λ h. absurd (ground (arith, h, seen.present));
          lifecycle = moves stays move;
        })
        (record { sized = seen.valid.sized; phase = phase; marked = rw (seen.present, alive) refl })
        move

  fail_completion-Steps :
      (env : Env) (actor : Option ℕ) (f : File) (key : ObjectKey) (reason : String)
      (actual : Option ℕ)
      → IsSeen o k db f
      → FilesStep o db.files (fail_completion env actor f key reason actual db).files
  unfolding fail_completion
  fail_completion-Steps env actor f key reason actual seen =
      restate f FileStatus.failed seen (λ h. refl) (λ h. refl) refl tt
        (FileMove.fails (seen_alive f seen) refl)

  uploaded_file-Evolves :
      (f : File) (identity : Option String)
      → IsSeen o k db f
      → is_pending f.status ≡ true
      → Evolves f (uploaded_file f identity)
  unfolding uploaded_file
  uploaded_file-Evolves f identity seen waiting = record {
    same_id = refl;
    same_organisation = refl;
    same_size = refl;
    same_name = refl;
    completed = λ h. refl;
    same_key = λ h. cc;
    same_identity = λ h. cc;
    rejected = λ h. ground (arith, h, waiting);
    gone = λ h. absurd (ground (arith, h, seen.present));
    lifecycle = moves stays (FileMove.uploads (is_pending-eq f.status waiting) refl);
  }

  uploaded_file-IsValid :
      (f : File) (identity : Option String)
      → IsSeen o k db f
      → is_blank identity ≡ false
      → FileIsValid (uploaded_file f identity)
  unfolding uploaded_file
  uploaded_file-IsValid f identity seen solid = record {
    sized = seen.valid.sized;
    phase = (refl, solid, refl);
    marked = rw seen.present refl;
  }

  finish_completion-Steps :
      (env : Env) (actor : Option ℕ) (ref : String) (fresh : ℕ) (f : File)
      (identity : Option String)
      → IsSeen o k db f
      → is_pending f.status ≡ true
      → is_blank identity ≡ false
      → Steps o db (finish_completion env actor ref fresh f identity db)
  unfolding finish_completion
  finish_completion-Steps env actor ref fresh f identity seen waiting solid =
      checked _ _ λ made scheduled.
        rewrite f (uploaded_file f identity) seen (uploaded_file-Evolves f identity seen waiting)
          (uploaded_file-IsValid f identity seen solid)
          (unfold uploaded_file in (FileMove.uploads (is_pending-eq f.status waiting) refl))

  promote-Steps :
      (env : Env) (actor : Option ℕ) (ref : String) (fresh : ℕ) (checksum verified : Option String)
      (f : File) (promoted : Option ObjectInfo)
      → IsSeen o k db f
      → is_pending f.status ≡ true
      → Steps o db (
          promote env actor ref fresh checksum verified f promoted
            (promoted_reason f checksum verified promoted)
            db)
  promote-Steps env actor ref fresh checksum verified f promoted seen waiting =
      go (promoted_reason f checksum verified promoted) refl
    where
      go :
          (reason : Option String)
          → promoted_reason f checksum verified promoted ≡ reason
          → Steps o db (promote env actor ref fresh checksum verified f promoted reason db)
      go (some reason) e =
          unfold promote in
          (fail_completion-Steps env actor f (ObjectKey.final f.organisation_id f.id) reason
            (size_of promoted) seen)
      go none e =
          unfold promote in
          (finish_completion-Steps env actor ref fresh f (checksum_of promoted) seen waiting
            (promoted-solid f checksum verified promoted e))

  after_copy-Steps :
      (env : Env) (actor : Option ℕ) (ref : String) (fresh : ℕ) (checksum verified : Option String)
      (f : File) (answer : CopyAnswer) (promoted : Result (Option ObjectInfo))
      → IsSeen o k db f
      → is_pending f.status ≡ true
      → Steps o db (after_copy env actor ref fresh checksum verified f answer promoted db)
  unfolding after_copy
  after_copy-Steps env actor ref fresh checksum verified f CopyAnswer.copied promoted seen waiting =
      checked promoted _
        λ found _. promote-Steps env actor ref fresh checksum verified f found seen waiting
  after_copy-Steps env actor ref fresh checksum verified f CopyAnswer.missing promoted seen
        waiting =
      fail_completion-Steps env actor f f.object_key "object_missing" none seen
  after_copy-Steps env actor ref fresh checksum verified f (CopyAnswer.raises e) promoted seen
        waiting =
      unchanged refl

  after_head-Steps :
      (env : Env) (actor : Option ℕ) (ref : String) (fresh : ℕ) (checksum : Option String)
      (f : File) (answers : CompletionAnswers) (staged : Option ObjectInfo) (reason : Option String)
      → IsSeen o k db f
      → is_pending f.status ≡ true
      → Steps o db (after_head env actor ref fresh checksum f answers staged reason db)
  unfolding after_head
  after_head-Steps env actor ref fresh checksum f answers staged (some reason) seen waiting =
      fail_completion-Steps env actor f f.object_key reason (size_of staged) seen
  after_head-Steps env actor ref fresh checksum f answers staged none seen waiting =
      after_copy-Steps env actor ref fresh checksum (checksum_of staged) f answers.copy
        answers.promoted seen waiting

  complete_file-Steps :
      (env : Env) (actor : Option ℕ) (ref : String) (fresh : ℕ) (checksum : Option String)
      (f : File) (answers : CompletionAnswers)
      → IsSeen o k db f
      → Steps o db (complete_file env checksum actor ref fresh answers f db)
  unfolding complete_file
  complete_file-Steps env actor ref fresh checksum f answers seen =
      elim (Bool-cases (is_post_completion f.status)) [
        | inl y ↦ rw y (unchanged refl)
        | inr n ↦ rw n (elim (Bool-cases (is_pending f.status)) [
          | inr m ↦ rw m (unchanged refl)
          | inl waiting ↦ rw waiting (
              checked answers.staged _ λ staged _.
                after_head-Steps env actor ref fresh checksum f answers staged
                  (staged_reason f checksum staged) seen waiting)
        ])
      ]

  pub complete_upload-Steps :
      (env : Env) (str : ℕ → String) (actor : Option ℕ) (fresh : ℕ) (checksum : Option String)
      (answers : CompletionAnswers)
      → Steps o db (complete_upload env str o k checksum actor fresh answers db)
  unfolding complete_upload
  complete_upload-Steps env str actor fresh checksum answers =
      by_row _ λ f seen. complete_file-Steps env actor (str f.id) fresh checksum f answers seen
