-- ===== src/Files/Access.antt =====
-- Who may read a stored file, and what another organisation sees of it.
use app_template.Prelude.{
  ℕ, String, true, false, Option, none, some, List, [], ◌∷◌, ◌==◌, ◌≡◌, ◌≢◌, ◌↔◌, refl, sym, ◌∙◌,
  ap, subst, arith, inl, inr, ◌⊎◌, Bool-cases, is_some, eq_iff, ==→eq,
}
use text.Mathlib.TextPositions.{eq_refl}
use app_template.Models.Files.{File, FileStatus, ObjectKey, ObjectInfo, text_eq}
use app_template.Models.Errors.{Error, ai_input, Result, ok, err, bind-ok}
use app_template.Database.{Env, any}
use app_template.Database.App.{AppDb, Outcome, check}
use app_template.Jobs.Policy.{JobOwnership}
use app_template.Files.Tables.{file_by_id, find_file, is_visible, get_file, file_not_found}
use app_template.Files.Service.{complete_upload, CompletionAnswers}
use app_template.Files.Lifecycle.{
  create_download_url, authorize_file, downloadable, delete_file, owned_file, verify_optional,
  mark_file_processing, mark_file_ready, mark_file_failed, mark_file_quarantined, to_processing,
  to_ready, to_failed, to_quarantined,
}
use app_template.Files.Invariant.{
  FileIsValid, FilesAreValid, FilesAreKeyed, FilePhase, get_file-IsSeen, file_by_id-id, has_file_id,
}

find_file-any :
    (o k : ℕ) (fs : List File) → any (has_file_id k) fs ≡ false → find_file o k fs ≡ none
unfolding find_file
find_file-any o k [] h = refl
find_file-any o k (x ∷ fs) h = ground (arith, find_file-any o k fs)

-- Every row of another organisation is as good as missing.
find_file-foreign :
    (o k : ℕ) (f : File) (fs : List File)
    → FilesAreKeyed fs
    → file_by_id k fs ≡ some f
    → f.organisation_id ≢ o
    → find_file o k fs ≡ none
unfolding find_file
find_file-foreign o k f [] keyed found other = refl
find_file-foreign o k f (x ∷ fs) (new, keyed) found other = elim (Bool-cases (x.id == k)) [
  | inl y ↦
      let alone : any (has_file_id k) fs ≡ false =
        subst (λ i. any (has_file_id i) fs ≡ false) (==→eq x.id k y) new in
      let same : x ≡ f = ground (arith, y, found) in
      let away : (x.organisation_id == o) ≡ false =
        subst (λ (z : File). (z.organisation_id == o) ≡ false) (sym same) (ground (arith, other)) in
      rw (y, away) (find_file-any o k fs alone)
  | inr n ↦ rw n (find_file-foreign o k f fs keyed (ground (arith, n, found)) other)
]

find_file-own :
    (o k : ℕ) (f : File) (fs : List File)
    → file_by_id k fs ≡ some f
    → f.organisation_id ≡ o
    → f.deleted_at ≡ none
    → find_file o k fs ≡ some f
unfolding find_file
find_file-own o k f [] found own present = cc
find_file-own o k f (x ∷ fs) found own present = elim (Bool-cases (x.id == k)) [
  | inl y ↦
      let same : x ≡ f = ground (arith, y, found) in
      let mine : x.organisation_id ≡ o =
        subst (λ (z : File). z.organisation_id ≡ o) (sym same) own in
      let unmarked : x.deleted_at ≡ none =
        subst (λ (z : File). z.deleted_at ≡ none) (sym same) present in
      let seen : is_visible o k x ≡ true = ground (arith, y, mine, unmarked) in
      rw seen (ap some same)
  | inr n ↦ rw n (find_file-own o k f fs (ground (arith, n, found)) own present)
]

-- What a signed URL asks for.
pub record IsDownloadable (o k : ℕ) (head : ObjectKey → Result (Option ObjectInfo)) (db : AppDb)
    (key : ObjectKey) : Type 0 where
  pub file : File
  pub object : ObjectInfo
  pub row : file_by_id k db.files ≡ some file
  pub owned : file.organisation_id ≡ o
  pub is_trusted : file.status ≡ FileStatus.ready
  pub under_key : key ≡ ObjectKey.final o k
  pub stored : head key ≡ ok (some object)
  pub identified : is_some object.checksum ≡ true
  pub pinned : object.checksum ≡ file.content_identity

pub text_eq-eq : (a b : Option String) → text_eq a b ≡ true → a ≡ b
text_eq-eq none none h = refl
text_eq-eq none (some b) h = cc
text_eq-eq (some a) none h = cc
text_eq-eq (some a) (some b) h = ap some ((eq_iff a b).0 h)

authorize_file-ok :
    (o : ℕ) (f : File) (head : Result (Option ObjectInfo))
    → authorize_file o (some f) head ≡ ok tt
    → (f.organisation_id ≡ o)
      × (f.status ≡ FileStatus.ready)
      × (i : ObjectInfo) × (head ≡ ok (some i))
      × (is_some i.checksum ≡ true)
      × (text_eq i.checksum f.content_identity ≡ true)
unfolding authorize_file
authorize_file-ok o f (err e) h = ground arith
authorize_file-ok o f (ok none) h = ground arith
authorize_file-ok o f (ok (some i)) h =
    (ground arith, ground arith, i, refl, ground arith, ground arith)

text_eq_refl : (a : Option String) → text_eq a a ≡ true
text_eq_refl none = refl
text_eq_refl (some a) = eq_refl a

authorize_file-passes :
    (o : ℕ) (f : File) (head : Result (Option ObjectInfo)) (i : ObjectInfo)
    → f.organisation_id ≡ o
    → f.status ≡ FileStatus.ready
    → head ≡ ok (some i)
    → is_some i.checksum ≡ true
    → i.checksum ≡ f.content_identity
    → authorize_file o (some f) head ≡ ok tt
unfolding authorize_file
authorize_file-passes o f head i own trusted stored identified pinned =
    let same : text_eq i.checksum f.content_identity ≡ true =
      subst (λ c. text_eq i.checksum c ≡ true) pinned (text_eq_refl i.checksum) in
    let there : is_some f.content_identity ≡ true =
      subst (λ (c : Option String). is_some c ≡ true) pinned identified in
    rw stored (ground (arith, same, there, own, trusted))

downloadable-ok : (r : Result (Unit {0})) (u : Unit {0}) → downloadable r ≡ ok u → r ≡ ok tt
downloadable-ok (ok tt) u h = refl
downloadable-ok (err (ai_input m)) u h = cc
downloadable-ok (err e) u h = cc

unmarked_ready : (f : File) → FileIsValid f → f.status ≡ FileStatus.ready → f.deleted_at ≡ none
unmarked_ready f valid trusted = ground (arith, valid.marked, trusted)

download-IsDownloadable :
    (o k : ℕ) (head : ObjectKey → Result (Option ObjectInfo)) (db : AppDb) (key : ObjectKey)
    → FilesAreValid db.files
    → create_download_url o k head db ≡ ok key
    → IsDownloadable o k head db key
unfolding create_download_url
download-IsDownloadable o k head db key v h =
    let (f, read, rest) = bind-ok (get_file o k db) _ h in
    let (u, passed, same) =
      bind-ok (downloadable (authorize_file o (some f) (head f.object_key))) _ rest in
    let (own, trusted, i, stored, identified, pinned) =
      authorize_file-ok o f (head f.object_key) (downloadable-ok _ u passed) in
    let seen = get_file-IsSeen o k db f v read in
    let (under, solid, checksum) = subst (λ s. FilePhase s f) trusted seen.valid.phase in
    let asked : f.object_key ≡ key = (let equal = same in cc) in
    record {
      file = f;
      object = i;
      row = subst (λ n. file_by_id n db.files ≡ some f) seen.named seen.row;
      owned = own;
      is_trusted = trusted;
      under_key = sym asked ∙ (under ∙ rw (own, seen.named) refl);
      stored = subst (λ x. head x ≡ ok (some i)) asked stored;
      identified = identified;
      pinned = text_eq-eq i.checksum f.content_identity pinned;
    }

IsDownloadable-download :
    (o k : ℕ) (head : ObjectKey → Result (Option ObjectInfo)) (db : AppDb) (key : ObjectKey)
    → FilesAreValid db.files
    → IsDownloadable o k head db key
    → create_download_url o k head db ≡ ok key
unfolding create_download_url get_file
IsDownloadable-download o k head db key v d =
    let f = d.file in
    let valid = v.each k f d.row in
    let read = find_file-own o k f db.files d.row d.owned (unmarked_ready f valid d.is_trusted) in
    let (under, solid, checksum) = subst (λ s. FilePhase s f) d.is_trusted valid.phase in
    let named : f.id ≡ k = file_by_id-id k f db.files d.row in
    let asked : f.object_key ≡ key = under ∙ (rw (d.owned, named) refl ∙ sym d.under_key) in
    let stored : head f.object_key ≡ ok (some d.object) =
      subst (λ x. head x ≡ ok (some d.object)) (sym asked) d.stored in
    let passed =
      authorize_file-passes o f (head f.object_key) d.object d.owned d.is_trusted stored
        d.identified d.pinned in
    rw read (rw passed (ap (λ x. ok x) asked))

-- A download URL is signed exactly for the final key of an own file that is ready and whose object
-- still has the pinned identity.
pub create_download_url_iff :
    (o k : ℕ) (head : ObjectKey → Result (Option ObjectInfo)) (db : AppDb) (key : ObjectKey)
    → FilesAreValid db.files
    → (create_download_url o k head db ≡ ok key) ↔ IsDownloadable o k head db key
create_download_url_iff o k head db key v =
    (download-IsDownloadable o k head db key v, IsDownloadable-download o k head db key v)

-- A refused transition: the tables stay, and the error is "not found", or the one that the check of
-- the caller's ownership, which comes first, raised.
abbrev pub Refused {ℓ} : {A : Type ℓ} → Option JobOwnership → AppDb → Outcome A → Type ℓ
Refused ownership db out =
    (e : Error) × (out ≡ (err e, db))
    × (((verify_optional ownership db ≡ ok tt) × (e ≡ file_not_found))
        ⊎ (verify_optional ownership db ≡ err e))

owned_file-Refused :
    (o k : ℕ) (ownership : Option JobOwnership) (transition : File → AppDb → Outcome File)
    (db : AppDb)
    → get_file o k db ≡ err file_not_found
    → Refused ownership db (owned_file o k ownership transition db)
unfolding owned_file check
owned_file-Refused o k ownership transition db missing = go (verify_optional ownership db) refl
  where
    go :
        (r : Result (Unit {0}))
        → verify_optional ownership db ≡ r
        → Refused ownership db (owned_file o k ownership transition db)
    go (ok tt) e = (file_not_found, rw (e, missing) refl, inl (e, refl))
    go (err x) e = (x, rw e refl, inr e)

-- To another organisation a file is missing: its completion, deletion and download are refused as
-- not found, and so is every transition of a worker whose ownership, if it presents one, is
-- accepted; where it is not, its refusal is raised. No call changes anything.
pub foreign_file_is_missing :
    (env : Env) (o k : ℕ) (f : File) (db : AppDb) (str : ℕ → String) (checksum : Option String)
    (actor : Option ℕ) (fresh : ℕ) (answers : CompletionAnswers) (removed : Result (Unit {0}))
    (head : ObjectKey → Result (Option ObjectInfo)) (reason : String)
    (ownership : Option JobOwnership)
    → FilesAreValid db.files
    → file_by_id k db.files ≡ some f
    → f.organisation_id ≢ o
    → (complete_upload env str o k checksum actor fresh answers db ≡ (err file_not_found, db))
      × (delete_file env o k actor removed db ≡ (err file_not_found, db))
      × (create_download_url o k head db ≡ err file_not_found)
      × Refused ownership db (mark_file_processing env o k ownership db)
      × Refused ownership db (mark_file_ready env o k ownership db)
      × Refused ownership db (mark_file_failed env o k reason ownership db)
      × Refused ownership db (mark_file_quarantined env o k reason ownership db)
unfolding complete_upload delete_file create_download_url mark_file_processing mark_file_ready
    mark_file_failed mark_file_quarantined check get_file
foreign_file_is_missing env o k f db str checksum actor fresh answers removed head reason ownership
      v found other =
    let absent = find_file-foreign o k f db.files v.keyed found other in
    let missing : get_file o k db ≡ err file_not_found = rw absent refl in
    (
      rw absent refl,
      rw absent refl,
      rw absent refl,
      owned_file-Refused o k ownership (λ file. to_processing env file.status file) db missing,
      owned_file-Refused o k ownership (λ file. to_ready env file.status file) db missing,
      owned_file-Refused o k ownership (λ file. to_failed env reason file.status file) db missing,
      owned_file-Refused o k ownership (λ file. to_quarantined env reason file.status file) db
          missing,
    )
