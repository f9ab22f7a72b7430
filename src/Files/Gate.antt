-- ===== src/Files/Gate.antt =====
-- backend/app/modules/files/tasks.py: the readiness of a file through an attempt.
use app_template.Prelude.{
  ℕ, String, true, Option, none, some, List, ◌==◌, ◌≡◌, ◌≢◌, refl, sym, ◌∙◌, subst, inl, inr,
  Bool-cases, ==→eq,
}
use app_template.Models.Files.{File, ObjectKey, ObjectInfo}
use app_template.Models.Errors.{not_found, Result, ok, err}
use app_template.Database.App.{AppDb, Outcome}
use app_template.Jobs.Settle.{fail, succeed}
use app_template.Jobs.Execution.{DurableJobContext, HandlerEnd, ownership}
use app_template.Notifications.Service.{commit, in_core}
use app_template.Files.Tables.{find_file}
use app_template.Files.Lifecycle.{
  mark_file_processing, mark_file_ready, mark_file_failed, mark_file_quarantined,
}
use app_template.Files.Invariant.{find_file-visible}
use app_template.Files.Tasks.{
  ProcessWorld, ScanVerdict, Attempt, step, give_up, notify_user, notify_uploader, uploader_of,
  refusal_reason, refuse_object, after_verdict, process_object, after_inspection, process_row,
  failed_body, ready_body,
}
use app_template.Files.Readiness.{
  ready_at, Unready, mark_file_processing-Unready, mark_file_failed-Unready,
  mark_file_quarantined-Unready, mark_file_ready-Unready,
}
use app_template.Files.Transactions.{
  refusal_reason-none, notify_user-files, mark_file_processing-row, get_file-found, step_lem,
  ask_lem, core_lem, progress_lem,
}

-- The organisation finds the file under no other key.
abbrev pub KeyIs : (k organisation_id : ℕ) → ObjectKey → List File → Type 0
KeyIs k o key fs = (g : File) → find_file o k fs ≡ some g → g.object_key ≡ key

-- The attempt at file `k`, whatever `V` it has to show for its readiness.
module _ (w : ProcessWorld) (c : DurableJobContext) (k : ℕ) (V : Type 0)
    (unready : (n : ℕ) (x : AppDb)
      → ready_at k (w.meanwhile n x).files ≡ true
      → ready_at k x.files ≡ true) where
  abbrev pub Gate : List File → Type 0
  Gate fs = ready_at k fs ≡ true → V

  abbrev pub Gated : Attempt → Type 0
  Gated a = Gate a.1.files

  pub give_up-Gated :
      (n : ℕ) (code message reason : String) (db : AppDb)
      → Gate db.files
      → Gated (give_up w n c code message reason db)
  unfolding give_up
  give_up-Gated n code message reason db gate =
      core_lem Gated (w.meanwhile n) db
        (fail (w.env n) c.job_id code message (some c.owner_token) db.core) _ (λ e. gate)
        λ j core ready. gate (unready n _ ready)

  notified_lem :
      (n : ℕ) (f : File) (type title body : String) (db : AppDb) (rest : Unit {0} → AppDb → Attempt)
      → Gate db.files
      → ((x : AppDb) → Gate x.files → Gated (rest tt x))
      → Gated (step (w.meanwhile n) (notify_uploader w n c f type title body db) rest)
  unfolding notify_uploader
  notified_lem n f type title body db rest gate good =
      let user = uploader_of f.created_by_user_id db in
      let kept = notify_user-files w n c f type title body user db in
      let still : Gate (notify_user w n c f type title body user db).1.files =
        subst Gate (sym kept) gate in
      step_lem Gated (w.meanwhile n) (notify_user w n c f type title body user db) rest
        (λ e raised. still) λ u done. good _ (λ ready. still (unready n _ ready))

  -- A transition that makes no file ready.
  moved_lem :
      (n : ℕ) (r : Outcome File) (db : AppDb) (rest : File → AppDb → Attempt)
      → Unready k db r
      → Gate db.files
      → ((row : File)
          → r.0 ≡ ok row
          → Gate (w.meanwhile n r.1).files
          → Gated (rest row (w.meanwhile n r.1)))
      → Gated (step (w.meanwhile n) r rest)
  unfolding Unready
  moved_lem n r db rest calm gate good =
      step_lem Gated (w.meanwhile n) r rest (λ e raised ready. gate (calm ready))
        λ row done. good row done (λ ready. gate (calm (unready n _ ready)))

  refuse_object-Gated :
      (f : File) (reason : String) (db : AppDb)
      → Gate db.files
      → Gated (refuse_object w c f reason db)
  unfolding refuse_object
  refuse_object-Gated f reason db gate =
      moved_lem 1 (mark_file_failed (w.env 1) c.organisation_id f.id reason (some (ownership c)) db)
        db _
        (mark_file_failed-Unready k (w.env 1) db c.organisation_id f.id reason (some (ownership c)))
        gate
        λ row done gate₁.
          notified_lem 2 f "file.failed" "File failed" (failed_body f) _ _ gate₁
            λ x gate₂. give_up-Gated 3 _ _ _ x gate₂

  -- The end of an attempt on an object that the scanner passed.
  ready_lem :
      (f : File) (db : AppDb)
      → Gate db.files
      → ((k == f.id) ≡ true → V)
      → Gated (
          step
            (w.meanwhile 4)
            (mark_file_ready (w.env 4) c.organisation_id f.id (some (ownership c)) db)
            λ _ db₁.
              step
                (w.meanwhile 5)
                (notify_uploader w 5 c f "file.ready" "File ready" (ready_body f) db₁)
                λ _ db₂.
                  step
                    (w.meanwhile 6)
                    (commit db₂ (
                      in_core
                        (succeed (w.env 6) c.job_id (some (w.str f.id)) (some c.owner_token))
                        db₂))
                    λ _ db₃. (HandlerEnd.returned, db₃))
  ready_lem f db gate cleared =
      let out = mark_file_ready (w.env 4) c.organisation_id f.id (some (ownership c)) db in
      let gate₁ : Gate out.1.files = elim (Bool-cases (k == f.id)) [
        | inl y ↦ λ ready. cleared y
        | inr other ↦
            let calm =
              mark_file_ready-Unready k (w.env 4) db c.organisation_id f.id (some (ownership c))
                other in
            λ ready. gate (unfold Unready in calm ready)
      ] in
      step_lem Gated (w.meanwhile 4) out _ (λ e raised. gate₁)
        λ row done.
          notified_lem 5 f "file.ready" "File ready" (ready_body f) _ _
            (λ ready. gate₁ (unready 4 _ ready))
            λ x gate₂.
              core_lem Gated (w.meanwhile 6) x
                (succeed (w.env 6) c.job_id (some (w.str f.id)) (some c.owner_token) x.core) _
                (λ e. gate₂) λ j core ready. gate₂ (unready 6 _ ready)

  -- The last transition, on a file whose readiness the attempt can show.
  after_verdict-Gated :
      (f : File) (verdict : ScanVerdict) (db : AppDb)
      → Gate db.files
      → (verdict ≢ ScanVerdict.quarantined → (k == f.id) ≡ true → V)
      → Gated (after_verdict w c f verdict db)
  unfolding after_verdict
  after_verdict-Gated f ScanVerdict.quarantined db gate cleared =
      moved_lem 4
        (mark_file_quarantined (w.env 4) c.organisation_id f.id "scanner_rejected"
          (some (ownership c)) db)
        db _
        (mark_file_quarantined-Unready k (w.env 4) db c.organisation_id f.id "scanner_rejected"
          (some (ownership c)))
        gate
        λ row done gate₁.
          notified_lem 5 f "file.failed" "File failed" (failed_body f) _ _ gate₁
            λ x gate₂. give_up-Gated 6 _ _ _ x gate₂
  after_verdict-Gated f ScanVerdict.clean db gate cleared = ready_lem f db gate (cleared (λ h. cc))
  after_verdict-Gated f ScanVerdict.not_required db gate cleared =
      ready_lem f db gate (cleared (λ h. cc))

  module _
      (same_key : (n : ℕ) (x : AppDb) (key : ObjectKey)
        → KeyIs k c.organisation_id key x.files
        → KeyIs k c.organisation_id key (w.meanwhile n x).files) where
    process_object-Gated :
        (f : File) (db : AppDb)
        → Gate db.files
        → ((k == f.id) ≡ true → KeyIs k c.organisation_id f.object_key db.files)
        → ((content_type : String) (verdict : ScanVerdict)
            → w.scan f.object_key content_type ≡ ok verdict
            → verdict ≢ ScanVerdict.quarantined
            → (k == f.id) ≡ true
            → V)
        → Gated (process_object w c f db)
    unfolding process_object
    process_object-Gated f db gate keyed cleared =
        progress_lem Gated w 1 c 50 db _ (λ e. gate)
          λ core.
            let x = w.meanwhile 1 (record db { core = core }) in
            let gate₁ : Gate x.files =
              λ ready. gate (unready 1 (record db { core = core }) ready) in
            let keyed₁ : (k == f.id) ≡ true → KeyIs k c.organisation_id f.object_key x.files =
              λ y. same_key 1 (record db { core = core }) f.object_key (keyed y) in
            moved_lem 2
              (mark_file_processing (w.env 2) c.organisation_id f.id (some (ownership c)) x) x _
              (mark_file_processing-Unready k (w.env 2) x c.organisation_id f.id
                (some (ownership c)))
              gate₁
              λ row done gate₂.
                progress_lem Gated w 3 c 80 _ _ (λ e. gate₂)
                  λ core₂.
                    ask_lem Gated _ (w.scan row.object_key row.content_type) _
                      (λ e ready. gate₂ (unready 3 _ ready))
                      λ verdict scanned.
                        after_verdict-Gated row verdict _ (λ ready. gate₂ (unready 3 _ ready))
                          λ passed y.
                            let (g, read, named, key) =
                              mark_file_processing-row (w.env 2) c.organisation_id f.id
                                (some (ownership c)) x row done in
                            let found = get_file-found c.organisation_id f.id g x read in
                            let (seen, _, _) =
                              find_file-visible c.organisation_id f.id g x.files found in
                            let same : (k == f.id) ≡ true =
                              subst (λ i. (k == i) ≡ true) (named ∙ seen) y in
                            let at_k =
                              subst (λ i. find_file c.organisation_id i x.files ≡ some g)
                                (sym (==→eq k f.id same)) found in
                            let one_key = key ∙ keyed₁ same g at_k in
                            cleared row.content_type verdict
                              (subst (λ i. w.scan i row.content_type ≡ ok verdict) one_key scanned)
                              passed same

    after_inspection-Gated :
        (f : File) (info : Option ObjectInfo) (reason : Option String) (db : AppDb)
        → Gate db.files
        → ((k == f.id) ≡ true → KeyIs k c.organisation_id f.object_key db.files)
        → (reason ≡ none
            → (content_type : String) (verdict : ScanVerdict)
            → w.scan f.object_key content_type ≡ ok verdict
            → verdict ≢ ScanVerdict.quarantined
            → (k == f.id) ≡ true
            → V)
        → Gated (after_inspection w c f reason db)
    unfolding after_inspection
    after_inspection-Gated f info (some reason) db gate keyed cleared =
        refuse_object-Gated f reason db gate
    after_inspection-Gated f info none db gate keyed cleared =
        process_object-Gated f db gate keyed (cleared refl)

    pub process_row-Gated :
        (r : Result File) (db : AppDb)
        → Gate db.files
        → ((f : File)
            → r ≡ ok f
            → (k == f.id) ≡ true
            → KeyIs k c.organisation_id f.object_key db.files)
        → ((f : File) (object : ObjectInfo) (content_type : String) (verdict : ScanVerdict)
            → r ≡ ok f
            → w.head f.object_key ≡ ok (some object)
            → refusal_reason f (some object) ≡ none
            → w.scan f.object_key content_type ≡ ok verdict
            → verdict ≢ ScanVerdict.quarantined
            → (k == f.id) ≡ true
            → V)
        → Gated (process_row w c r db)
    unfolding process_row
    process_row-Gated (err (not_found m)) db gate keyed cleared = give_up-Gated 0 _ _ _ db gate
    process_row-Gated (err e) db gate keyed cleared = gate
    process_row-Gated (ok f) db gate keyed cleared =
        progress_lem Gated w 0 c 10 db _ (λ e. gate)
          λ core.
            let x = w.meanwhile 0 (record db { core = core }) in
            let gate₁ : Gate x.files =
              λ ready. gate (unready 0 (record db { core = core }) ready) in
            ask_lem Gated x (w.head f.object_key) _ (λ e. gate₁)
              λ info stored.
                after_inspection-Gated f info (refusal_reason f info) x gate₁
                  (λ y. same_key 0 (record db { core = core }) f.object_key (keyed f refl y))
                  λ verified content_type verdict scanned passed y.
                    let (object, there, _, _, _) = refusal_reason-none f info verified in
                    cleared f object content_type verdict refl
                      (subst (λ i. w.head f.object_key ≡ ok i) there stored)
                      (subst (λ i. refusal_reason f i ≡ none) there verified) scanned passed y
