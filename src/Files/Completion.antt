-- ===== src/Files/Completion.antt =====
-- What a completed upload has been through, and the replay of its completion.
use app_template.Prelude.{
  ℕ, String, true, false, Option, none, some, ◌≡◌, refl, sym, ◌∙◌, ap, subst, arith,
}
use app_template.Models.Files.{File, FileStatus, ObjectInfo, ObjectKey, is_pending}
use app_template.Models.Errors.{Result, ok}
use app_template.Database.{Env}
use app_template.Database.App.{AppDb, Outcome, check}
use app_template.Files.Tables.{file_by_id, find_file, get_file}
use app_template.Files.Service.{
  complete_upload, complete_file, after_head, after_copy, promote, uploaded_file, CopyAnswer,
  CompletionAnswers, is_post_completion, staged_reason, promoted_reason, checksum_of, is_blank,
  agrees_with,
}
use app_template.Files.Invariant.{FilesAreValid, IsSeen, get_file-IsSeen}
use app_template.Files.Preservation.{after_check}
use app_template.Files.Verification.{IsVerified, promoted_reason-none, staged_reason-none}
use app_template.Files.Finishing.{IsCompleted, IsFinished, IsOneJob, finish_completion-ok}

pending_only : (s : FileStatus) → is_pending s ≡ true → is_post_completion s ≡ false
unfolding is_post_completion
pending_only s h = ground arith

module _ (env : Env) (checksum : Option String) (actor : Option ℕ) (ref : String) (fresh o k : ℕ)
    (answers : CompletionAnswers) (f : File) (db : AppDb) (seen : IsSeen o k db f) where
  -- An outcome that, where it is a success, is a completion.
  abbrev Completes : Outcome (File × Option ℕ) → Type 0
  Completes out =
      (g : File) (job : Option ℕ)
      → out.0 ≡ ok (g, job)
      → IsCompleted f checksum ref answers db out.1 g job

  by_check {ℓ} :
      {A : Type ℓ} (r : Result A) (rest : A → Outcome (File × Option ℕ))
      → ((a : A) → r ≡ ok a → Completes (rest a))
      → Completes (check db r rest)
  by_check r rest h = after_check Completes db r rest (λ e g job raised. cc) h

  promote-Completes :
      (s : ObjectInfo) (promoted : Option ObjectInfo)
      → answers.staged ≡ ok (some s)
      → s.size_bytes ≡ f.size_bytes
      → answers.copy ≡ CopyAnswer.copied
      → answers.promoted ≡ ok promoted
      → Completes (
          promote env actor ref fresh checksum s.checksum f promoted
            (promoted_reason f checksum s.checksum promoted)
            db)
  promote-Completes s promoted staged sized copied answer =
      go (promoted_reason f checksum s.checksum promoted) refl
    where
      go :
          (reason : Option String)
          → promoted_reason f checksum s.checksum promoted ≡ reason
          → Completes (promote env actor ref fresh checksum s.checksum f promoted reason db)
      go (some reason) e = unfold promote in (λ g job h. cc)
      go none e =
          unfold promote in
          (λ g job h.
            let (p, there, p_sized, solid, as_staged, as_claimed) =
              promoted_reason-none f checksum s.checksum promoted e in
            let (up, fin) =
              finish_completion-ok env actor ref fresh o k f g (checksum_of promoted) job db seen
                h in
            let pin : p.checksum ≡ checksum_of promoted = sym (ap checksum_of there) in
            record {
              identity = checksum_of promoted;
              verified = record {
                staged = s;
                promoted = p;
                staged_answer = staged;
                staged_size = sized;
                copied = copied;
                promoted_answer = answer ∙ ap (λ x. ok x) there;
                promoted_size = p_sized;
                pinned = pin;
                solid = subst (λ x. is_blank x ≡ false) pin solid;
                as_staged = subst (λ x. agrees_with s.checksum x ≡ true) pin as_staged;
                as_claimed = subst (λ x. agrees_with checksum x ≡ true) pin as_claimed;
              };
              uploaded = up;
              finished = fin;
            })

  after_copy-Completes :
      (s : ObjectInfo) (c : CopyAnswer)
      → answers.staged ≡ ok (some s)
      → s.size_bytes ≡ f.size_bytes
      → answers.copy ≡ c
      → Completes (after_copy env actor ref fresh checksum s.checksum f c answers.promoted db)
  unfolding after_copy
  after_copy-Completes s CopyAnswer.copied staged sized copied =
      by_check answers.promoted _
        λ promoted answer. promote-Completes s promoted staged sized copied answer
  after_copy-Completes s CopyAnswer.missing staged sized copied = λ g job h. cc
  after_copy-Completes s (CopyAnswer.raises e) staged sized copied = λ g job h. cc

  after_head-Completes :
      (staged : Option ObjectInfo) (reason : Option String)
      → answers.staged ≡ ok staged
      → staged_reason f checksum staged ≡ reason
      → Completes (after_head env actor ref fresh checksum f answers staged reason db)
  unfolding after_head
  after_head-Completes staged (some reason) answer e = λ g job h. cc
  after_head-Completes staged none answer e =
      let (s, there, sized) = staged_reason-none f checksum staged e in
      subst
        (λ (c : Option String).
          Completes (after_copy env actor ref fresh checksum c f answers.copy answers.promoted db))
        (sym (ap checksum_of there))
        (after_copy-Completes s answers.copy (answer ∙ ap (λ x. ok x) there) sized refl)

  complete_file-Completes :
      is_pending f.status ≡ true
      → Completes (complete_file env checksum actor ref fresh answers f db)
  unfolding complete_file
  complete_file-Completes waiting =
      let before : is_post_completion f.status ≡ false = pending_only f.status waiting in
      rw (before, waiting)
        (by_check answers.staged _ λ staged answer.
          after_head-Completes staged (staged_reason f checksum staged) answer refl)

complete_upload_read :
    (env : Env) (str : ℕ → String) (o k : ℕ) (checksum : Option String) (actor : Option ℕ)
    (fresh : ℕ) (answers : CompletionAnswers) (f : File) (db : AppDb)
    → get_file o k db ≡ ok f
    → complete_upload env str o k checksum actor fresh answers db
      ≡ complete_file env checksum actor (str f.id) fresh answers f db
unfolding complete_upload check
complete_upload_read env str o k checksum actor fresh answers f db read = rw read refl

replayed :
    (env : Env) (checksum : Option String) (actor : Option ℕ) (ref : String) (fresh : ℕ)
    (answers : CompletionAnswers) (f g : File) (identity : Option String) (job : Option ℕ)
    (before db : AppDb)
    → g ≡ uploaded_file f identity
    → IsFinished f ref before db g job
    → complete_file env checksum actor ref fresh answers g db ≡ (ok (g, job), db)
unfolding complete_file uploaded_file
replayed env checksum actor ref fresh answers f g identity job before db up fin =
    rw up (rw fin.scheduled refl)

get_file-visible :
    (o k : ℕ) (g : File) (db : AppDb) → find_file o k db.files ≡ some g → get_file o k db ≡ ok g
unfolding get_file
get_file-visible o k g db h = rw h refl

uploaded_file_lem :
    (f : File) (identity : Option String)
    → uploaded_file f identity ≡ record f {
      object_key = ObjectKey.final f.organisation_id f.id;
      status = FileStatus.uploaded;
      checksum = identity;
      content_identity = identity;
    }
unfolding uploaded_file
uploaded_file_lem f identity = refl

-- A completion that returns on a pending file verified the stored object first, whatever the
-- storage answered. The row that it returns is then that file, uploaded, under its final key, with
-- the identity of the promoted object as its checksum and its pinned identity, and all else as it
-- was; it stands so in the table. The table of jobs has one job more, queued for the processing of
-- this file, and that is the job returned. Repeating the call, with any checksum, actor and answers
-- of the storage, returns the same row and job and changes nothing.
pub completed_is_verified :
    (env env₂ : Env) (str : ℕ → String) (o k : ℕ) (checksum checksum₂ : Option String)
    (actor actor₂ : Option ℕ) (fresh fresh₂ : ℕ) (answers answers₂ : CompletionAnswers) (f g : File)
    (job : Option ℕ) (db : AppDb)
    → FilesAreValid db.files
    → get_file o k db ≡ ok f
    → is_pending f.status ≡ true
    → (complete_upload env str o k checksum actor fresh answers db).0 ≡ ok (g, job)
    → ((identity : Option String) × (g ≡ record f {
      object_key = ObjectKey.final f.organisation_id f.id;
      status = FileStatus.uploaded;
      checksum = identity;
      content_identity = identity;
    })
        × IsVerified f checksum answers identity)
      × (file_by_id k (complete_upload env str o k checksum actor fresh answers db).1.files
          ≡ some g)
      × IsOneJob f (str f.id) db (complete_upload env str o k checksum actor fresh answers db).1 job
      × (complete_upload env₂ str o k checksum₂ actor₂ fresh₂ answers₂
            (complete_upload env str o k checksum actor fresh answers db).1
          ≡ (ok (g, job), (complete_upload env str o k checksum actor fresh answers db).1))
completed_is_verified env env₂ str o k checksum checksum₂ actor actor₂ fresh fresh₂ answers answers₂
      f g job db v read waiting h =
    let seen = get_file-IsSeen o k db f v read in
    let first = complete_upload_read env str o k checksum actor fresh answers f db read in
    let done =
      complete_file-Completes env checksum actor (str f.id) fresh o k answers f db seen waiting g
        job (ap (λ (x : Outcome (File × Option ℕ)). x.0) (sym first) ∙ h) in
    let d = (complete_file env checksum actor (str f.id) fresh answers f db).1 in
    let same_id : g.id ≡ f.id = unfold uploaded_file in (ap (λ (x : File). x.id) done.uploaded) in
    let visible : find_file o k d.files ≡ some g =
      subst (λ i. find_file o i d.files ≡ some g) seen.named
        (subst (λ i. find_file i f.id d.files ≡ some g) seen.owned done.finished.visible) in
    let again =
      complete_upload_read env₂ str o k checksum₂ actor₂ fresh₂ answers₂ g d
        (get_file-visible o k g d visible) in
    let replay =
      subst
        (λ i. complete_file env₂ checksum₂ actor₂ (str i) fresh₂ answers₂ g d ≡ (ok (g, job), d))
        (sym same_id)
        (replayed env₂ checksum₂ actor₂ (str f.id) fresh₂ answers₂ f g done.identity job db d
          done.uploaded done.finished) in
    (
      (done.identity, done.uploaded ∙ uploaded_file_lem f done.identity, done.verified),
      subst (λ (x : Outcome (File × Option ℕ)). file_by_id k x.1.files ≡ some g) (sym first)
          (subst (λ i. file_by_id i d.files ≡ some g) seen.named done.finished.row),
      subst (λ (x : Outcome (File × Option ℕ)). IsOneJob f (str f.id) db x.1 job) (sym first)
          done.finished.scheduled_one,
      subst
          (λ (x : AppDb).
            complete_upload env₂ str o k checksum₂ actor₂ fresh₂ answers₂ x ≡ (ok (g, job), x))
          (sym (ap (λ (x : Outcome (File × Option ℕ)). x.1) first)) (again ∙ replay),
    )
