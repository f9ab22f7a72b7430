-- ===== src/Files/Trust.antt =====
-- backend/app/modules/files/tasks.py: the evidence behind the readiness of a file.
use app_template.Prelude.{
  ℕ, String, true, false, Option, none, some, ◌==◌, ◌≡◌, ◌≢◌, refl, sym, ◌∙◌, ap, subst, inl, inr,
  Bool-cases, is_some, str_eq, ==→eq,
}
use app_template.Models.Files.{File, ObjectKey, ObjectInfo}
use app_template.Models.Errors.{ok}
use app_template.Database.App.{AppDb}
use app_template.Jobs.Execution.{DurableJobContext}
use app_template.Files.Tables.{find_file, get_file}
use app_template.Files.Upload.{job_type_file_processing}
use app_template.Files.Invariant.{find_file-visible}
use app_template.Files.Tasks.{ProcessWorld, ScanVerdict, process_reference, process_file_attempt}
use app_template.Files.Readiness.{ready_at}
use app_template.Files.Transactions.{refusal_reason-none, get_file-found}
use app_template.Files.Gate.{Gate, Gated, KeyIs, process_row-Gated, give_up-Gated}

-- The evidence that an attempt at file `k` has seen, on the tables it began with.
pub record IsCleared (w : ProcessWorld) (c : DurableJobContext) (k : ℕ) (db : AppDb) : Type 0 where
  pub file : File
  pub object : ObjectInfo
  pub content_type : String
  pub verdict : ScanVerdict
  pub typed : str_eq c.job_type job_type_file_processing ≡ true
  pub addressed : w.parse c.input_reference ≡ some k
  pub row : get_file c.organisation_id k db ≡ ok file
  pub stored : w.head file.object_key ≡ ok (some object)
  pub sized : object.size_bytes ≡ file.size_bytes
  pub identified : is_some file.content_identity ≡ true
  pub pinned : object.checksum ≡ file.content_identity
  pub scanned : w.scan file.object_key content_type ≡ ok verdict
  pub passed : verdict ≢ ScanVerdict.quarantined

-- The read at the identifier of a row finds that row.
seen_row :
    (o j k : ℕ) (f : File) (db : AppDb)
    → get_file o j db ≡ ok f
    → (k == f.id) ≡ true
    → (j ≡ k) × (find_file o k db.files ≡ some f)
seen_row o j k f db read y =
    let found = get_file-found o j f db read in
    let (named, _, _) = find_file-visible o j f db.files found in
    let same : j ≡ k = sym (==→eq k f.id y ∙ named) in
    (same, subst (λ i. find_file o i db.files ≡ some f) same found)

module _ (w : ProcessWorld) (c : DurableJobContext) (k : ℕ) (db : AppDb)
    (unready : (n : ℕ) (x : AppDb)
      → ready_at k (w.meanwhile n x).files ≡ true
      → ready_at k x.files ≡ true)
    (same_key : (n : ℕ) (x : AppDb) (key : ObjectKey)
      → KeyIs k c.organisation_id key x.files
      → KeyIs k c.organisation_id key (w.meanwhile n x).files) where
  process_reference-Gated :
      (target : Option ℕ)
      → str_eq c.job_type job_type_file_processing ≡ true
      → w.parse c.input_reference ≡ target
      → Gate w c k (IsCleared w c k db) unready db.files
      → Gated w c k (IsCleared w c k db) unready (process_reference w c target db)
  unfolding process_reference
  process_reference-Gated none typed addressed gate = gate
  process_reference-Gated (some j) typed addressed gate =
      process_row-Gated w c k (IsCleared w c k db) unready same_key
        (get_file c.organisation_id j db) db gate
        (λ f read y g found.
          let (_, here) = seen_row c.organisation_id j k f db read y in
          let same : g ≡ f = cc in ap (λ (x : File). x.object_key) same)
        λ f object content_type verdict read stored verified scanned passed y.
          let (at_k, _) = seen_row c.organisation_id j k f db read y in
          let (i, there, sized, identified, pinned) =
            refusal_reason-none f (some object) verified in
          record {
            file = f;
            object = i;
            content_type = content_type;
            verdict = verdict;
            typed = typed;
            addressed = addressed ∙ ap some at_k;
            row = subst (λ x. get_file c.organisation_id x db ≡ ok f) at_k read;
            stored = stored ∙ ap (λ x. ok x) there;
            sized = sized;
            identified = identified;
            pinned = pinned;
            scanned = scanned;
            passed = passed;
          }

-- A file that an attempt made ready was verified and scanned by it: the attempt was of the right
-- type and at this file, the storage had the object under the file's key with the declared size and
-- the pinned identity, and the scanner, asked for that key, did not reject it. Other processes may
-- commit anything between the transactions, except that they neither make the file ready nor move
-- it to another key.
pub ready_file-IsCleared :
    (w : ProcessWorld) (c : DurableJobContext) (k : ℕ) (db : AppDb)
    → ((n : ℕ) (x : AppDb) → ready_at k (w.meanwhile n x).files ≡ true → ready_at k x.files ≡ true)
    → ((n : ℕ) (x : AppDb) (key : ObjectKey)
        → KeyIs k c.organisation_id key x.files
        → KeyIs k c.organisation_id key (w.meanwhile n x).files)
    → ready_at k db.files ≡ false
    → ready_at k (process_file_attempt w c db).1.files ≡ true
    → IsCleared w c k db
unfolding process_file_attempt
ready_file-IsCleared w c k db unready same_key waiting =
    let gate : Gate w c k (IsCleared w c k db) unready db.files = λ ready. absurd cc in
    elim (Bool-cases (str_eq c.job_type job_type_file_processing)) [
      | inl y ↦ rw y (
          process_reference-Gated w c k db unready same_key (w.parse c.input_reference) y refl gate)
      | inr n ↦ rw n (give_up-Gated w c k (IsCleared w c k db) unready 0 _ _ _ db gate)
    ]
