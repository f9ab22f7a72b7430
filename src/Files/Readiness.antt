-- ===== src/Files/Readiness.antt =====
-- backend/app/modules/files/service.py: which transitions make a file ready.
use app_template.Prelude.{
  ℕ, String, Bool, true, false, Option, none, some, List, ◌==◌, ◌≡◌, refl, sym, subst, arith,
}
use app_template.Models.Files.{File, FileStatus, is_ready}
use app_template.Models.Errors.{Error, conflict, Result, ok, err, or_raise-ok}
use app_template.Database.{Env}
use app_template.Database.App.{AppDb, Outcome}
use app_template.Jobs.Policy.{JobOwnership}
use app_template.Files.Tables.{file_by_id, put_file, find_file, get_file, file_not_found}
use app_template.Files.Lifecycle.{
  moved, rejected_as, owned_file, verify_optional, to_processing, to_ready, to_failed,
  to_quarantined, mark_file_processing, mark_file_ready, mark_file_failed, mark_file_quarantined,
}
use app_template.Files.Invariant.{file_by_id-put, find_file-visible}
use app_template.Files.Preservation.{after_check}

abbrev ready_row : Option File → Bool
ready_row none = false
ready_row (some f) = is_ready f.status

-- The file is ready, whoever asks.
abbrev pub ready_at : ℕ → List File → Bool
ready_at k fs = ready_row (file_by_id k fs)

put_unready :
    (k : ℕ) (f : File) (fs : List File)
    → is_ready f.status ≡ false
    → ready_at k (put_file f fs) ≡ true
    → ready_at k fs ≡ true
put_unready k f fs h ready = ground (arith, file_by_id-put k f fs)

put_other :
    (k : ℕ) (f : File) (fs : List File)
    → (k == f.id) ≡ false
    → ready_at k (put_file f fs) ≡ true
    → ready_at k fs ≡ true
put_other k f fs h ready = ground (arith, file_by_id-put k f fs)

-- A file that is ready after a call was ready before it.
unfoldable pub Unready {ℓ} : {A : Type ℓ} → ℕ → AppDb → Outcome A → Type 0
Unready k db out = ready_at k out.1.files ≡ true → ready_at k db.files ≡ true

pub owned_file_lem {κ} :
    (o j : ℕ) (own : Option JobOwnership) (transition : File → AppDb → Outcome File) (db : AppDb)
    (P : Outcome File → Type κ)
    → ((e : Error) → P (err e, db))
    → ((f : File) → get_file o j db ≡ ok f → P (transition f db))
    → P (owned_file o j own transition db)
unfolding owned_file
owned_file_lem o j own transition db P bad good =
    after_check P db (verify_optional own db) _ bad
      λ u passed. after_check P db (get_file o j db) _ bad λ f read. good f read

module _ (k : ℕ) (env : Env) (db : AppDb) where
  moved-Unready :
      (s : FileStatus) (action : String) (f : File)
      → is_ready s ≡ false
      → Unready k db (moved env s action f db)
  unfolding moved Unready
  moved-Unready s action f h = put_unready k (record f { status = s }) db.files h

  rejected_as-Unready :
      (s : FileStatus) (action reason : String) (f : File)
      → is_ready s ≡ false
      → Unready k db (rejected_as env s action reason f db)
  unfolding rejected_as Unready
  rejected_as-Unready s action reason f h = put_unready k (record f { status = s }) db.files h

  same-Unready {ℓ} : {A : Type ℓ} (r : Result A) → Unready k db (r, db)
  unfolding Unready
  same-Unready r h = h

  to_processing-Unready : (s : FileStatus) (f : File) → Unready k db (to_processing env s f db)
  unfolding to_processing
  to_processing-Unready FileStatus.processing f = same-Unready (ok f)
  to_processing-Unready FileStatus.ready f = same-Unready (ok f)
  to_processing-Unready FileStatus.uploaded f = moved-Unready FileStatus.processing _ f refl
  to_processing-Unready _ f = same-Unready _

  to_failed-Unready :
      (reason : String) (s : FileStatus) (f : File) → Unready k db (to_failed env reason s f db)
  unfolding to_failed
  to_failed-Unready reason FileStatus.failed f = same-Unready (ok f)
  to_failed-Unready reason FileStatus.deleted f = same-Unready (ok f)
  to_failed-Unready reason _ f = rejected_as-Unready FileStatus.failed _ reason f refl

  to_quarantined-Unready :
      (reason : String) (s : FileStatus) (f : File)
      → Unready k db (to_quarantined env reason s f db)
  unfolding to_quarantined
  to_quarantined-Unready reason FileStatus.quarantined f = same-Unready (ok f)
  to_quarantined-Unready reason FileStatus.failed f = same-Unready (ok f)
  to_quarantined-Unready reason FileStatus.deleted f = same-Unready (ok f)
  to_quarantined-Unready reason _ f = rejected_as-Unready FileStatus.quarantined _ reason f refl

  to_ready-Unready :
      (s : FileStatus) (f : File) → (k == f.id) ≡ false → Unready k db (to_ready env s f db)
  unfolding to_ready moved Unready
  to_ready-Unready FileStatus.ready f other = same-Unready (ok f)
  to_ready-Unready FileStatus.processing f other =
      put_other k (record f { status = FileStatus.ready }) db.files other
  to_ready-Unready _ f other = same-Unready {A = File} (err (conflict "file_not_ready"))

  pub mark_file_processing-Unready :
      (o j : ℕ) (own : Option JobOwnership) → Unready k db (mark_file_processing env o j own db)
  unfolding mark_file_processing
  mark_file_processing-Unready o j own =
      owned_file_lem o j own (λ f. to_processing env f.status f) db (Unready k db)
        (λ e. same-Unready (err e)) λ f read. to_processing-Unready f.status f

  pub mark_file_failed-Unready :
      (o j : ℕ) (reason : String) (own : Option JobOwnership)
      → Unready k db (mark_file_failed env o j reason own db)
  unfolding mark_file_failed
  mark_file_failed-Unready o j reason own =
      owned_file_lem o j own (λ f. to_failed env reason f.status f) db (Unready k db)
        (λ e. same-Unready (err e)) λ f read. to_failed-Unready reason f.status f

  pub mark_file_quarantined-Unready :
      (o j : ℕ) (reason : String) (own : Option JobOwnership)
      → Unready k db (mark_file_quarantined env o j reason own db)
  unfolding mark_file_quarantined
  mark_file_quarantined-Unready o j reason own =
      owned_file_lem o j own (λ f. to_quarantined env reason f.status f) db (Unready k db)
        (λ e. same-Unready (err e)) λ f read. to_quarantined-Unready reason f.status f

  -- Readiness of another file.
  pub mark_file_ready-Unready :
      (o j : ℕ) (own : Option JobOwnership)
      → (k == j) ≡ false
      → Unready k db (mark_file_ready env o j own db)
  unfolding mark_file_ready get_file
  mark_file_ready-Unready o j own other =
      owned_file_lem o j own (λ f. to_ready env f.status f) db (Unready k db)
        (λ e. same-Unready (err e))
        λ f read.
          let (named, _, _) =
            find_file-visible o j f db.files
              (or_raise-ok file_not_found (find_file o j db.files) read) in
          to_ready-Unready f.status f (subst (λ i. (k == i) ≡ false) (sym named) other)
