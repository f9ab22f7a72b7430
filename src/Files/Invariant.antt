-- ===== src/Files/Invariant.antt =====
-- The well-formedness of a stored file, what any call may do to one, and the shape of a write.
use app_template.Prelude.{
  ℕ, ◌<◌, Bool, true, false, none, some, List, [], ◌∷◌, ◌==◌, ◌≡◌, refl, sym, ◌∙◌, subst, arith,
  inl, inr, Bool-cases, is_some, if◌then◌else◌, ==→eq,
}
use app_template.Models.Files.{File, FileStatus, ObjectKey, is_pending}
use app_template.Models.Errors.{ok, or_raise-ok}
use app_template.Database.{any}
use app_template.Database.App.{AppDb}
use app_template.Files.Tables.{file_by_id, put_file, find_file, get_file, file_not_found}
use app_template.Files.Service.{is_blank}
use app_template.Files.StateMachine.{is_deleted, FileMove, FilePath, stays, FilePath-trans}

abbrev pub is_rejected : FileStatus → Bool
is_rejected FileStatus.failed = true
is_rejected FileStatus.quarantined = true
is_rejected FileStatus.deleted = true
is_rejected _ = false

-- From the completion on a file stands under its final key, pinned to the identity of its object.
abbrev pub IsPinned : File → Type 0
IsPinned f =
    (f.object_key ≡ ObjectKey.final f.organisation_id f.id)
    × (is_blank f.content_identity ≡ false)
    × (f.checksum ≡ f.content_identity)

abbrev pub FilePhase : FileStatus → File → Type 0
FilePhase FileStatus.pending f = f.content_identity ≡ none
FilePhase FileStatus.uploaded f = IsPinned f
FilePhase FileStatus.processing f = IsPinned f
FilePhase FileStatus.ready f = IsPinned f
FilePhase FileStatus.failed f = Unit
FilePhase FileStatus.quarantined f = Unit
FilePhase FileStatus.deleted f = Unit

pub record FileIsValid (f : File) : Type 0 where
  pub sized : 0 < f.size_bytes
  pub phase : FilePhase f.status f
  pub marked : is_some f.deleted_at ≡ is_deleted f.status

abbrev pub has_file_id : ℕ → File → Bool
has_file_id k f = f.id == k

abbrev pub FilesAreKeyed : List File → Type 0
FilesAreKeyed [] = Unit
FilesAreKeyed (f ∷ fs) = (any (has_file_id f.id) fs ≡ false) × FilesAreKeyed fs

pub record FilesAreValid (fs : List File) : Type 0 where
  pub keyed : FilesAreKeyed fs
  pub each : (k : ℕ) (f : File) → file_by_id k fs ≡ some f → FileIsValid f

-- What any sequence of calls may make of a file: it keeps its identifier, organisation, size and
-- name; once it is no longer pending it keeps its key and its pinned identity; a rejected file
-- stays rejected; a deleted one stays as it is; its states are a path of the abstract machine.
pub record Evolves (f f' : File) : Type 0 where
  pub same_id : f'.id ≡ f.id
  pub same_organisation : f'.organisation_id ≡ f.organisation_id
  pub same_size : f'.size_bytes ≡ f.size_bytes
  pub same_name : f'.original_filename ≡ f.original_filename
  pub completed : is_pending f.status ≡ false → is_pending f'.status ≡ false
  pub same_key : is_pending f.status ≡ false → f'.object_key ≡ f.object_key
  pub same_identity : is_pending f.status ≡ false → f'.content_identity ≡ f.content_identity
  pub rejected : is_rejected f.status ≡ true → is_rejected f'.status ≡ true
  pub gone : is_some f.deleted_at ≡ true → f' ≡ f
  pub lifecycle : FilePath f.status f'.status

pub Evolves-refl : (f : File) → Evolves f f
Evolves-refl f = record {
  same_id = refl;
  same_organisation = refl;
  same_size = refl;
  same_name = refl;
  completed = λ h. h;
  same_key = λ h. refl;
  same_identity = λ h. refl;
  rejected = λ h. h;
  gone = λ h. refl;
  lifecycle = stays;
}

pub Evolves-trans : (f g h : File) → Evolves f g → Evolves g h → Evolves f h
Evolves-trans f g h p q = record {
  same_id = q.same_id ∙ p.same_id;
  same_organisation = q.same_organisation ∙ p.same_organisation;
  same_size = q.same_size ∙ p.same_size;
  same_name = q.same_name ∙ p.same_name;
  completed = λ s. q.completed (p.completed s);
  same_key = λ s. q.same_key (p.completed s) ∙ p.same_key s;
  same_identity = λ s. q.same_identity (p.completed s) ∙ p.same_identity s;
  rejected = λ s. q.rejected (p.rejected s);
  gone = λ s.
      let same = p.gone s in
      q.gone (subst (λ (x : File). is_some x.deleted_at ≡ true) (sym same) s) ∙ same;
  lifecycle = FilePath-trans p.lifecycle q.lifecycle;
}

-- The rows after a call of an organisation: as they were, one row of its own rewritten with one move
-- of its state, or one new row.
pub data FilesStep (organisation_id : ℕ) (fs fs' : List File) : Type 0 where
  unchanged : fs' ≡ fs → FilesStep organisation_id fs fs'
  rewritten :
      (f f' : File)
      → file_by_id f.id fs ≡ some f
      → f.organisation_id ≡ organisation_id
      → Evolves f f'
      → FileIsValid f'
      → FileMove f.status f'.status
      → fs' ≡ put_file f' fs
      → FilesStep organisation_id fs fs'
  inserted :
      (f : File)
      → any (has_file_id f.id) fs ≡ false
      → FileIsValid f
      → f.status ≡ FileStatus.pending
      → fs' ≡ f ∷ fs
      → FilesStep organisation_id fs fs'

pub file_by_id-put :
    (k : ℕ) (f : File) (fs : List File)
    → file_by_id k (put_file f fs) ≡ (
        if k == f.id then (if is_some (file_by_id k fs) then some f else none) else file_by_id k fs)
file_by_id-put k f [] = ground arith
file_by_id-put k f (x ∷ fs) = ground (arith, file_by_id-put k f fs)

pub file_by_id-id : (k : ℕ) (f : File) (fs : List File) → file_by_id k fs ≡ some f → f.id ≡ k
file_by_id-id k f [] h = cc
file_by_id-id k f (x ∷ fs) h = ground (arith, file_by_id-id k f fs)

pub file_by_id-any :
    (k : ℕ) (fs : List File) → any (has_file_id k) fs ≡ false → file_by_id k fs ≡ none
file_by_id-any k [] h = refl
file_by_id-any k (x ∷ fs) h = ground (arith, file_by_id-any k fs)

any-put :
    (k : ℕ) (f : File) (fs : List File)
    → any (has_file_id k) (put_file f fs) ≡ any (has_file_id k) fs
any-put k f [] = refl
any-put k f (x ∷ fs) = ground (arith, any-put k f fs)

pub FilesAreKeyed-put :
    (f : File) (fs : List File) → FilesAreKeyed fs → FilesAreKeyed (put_file f fs)
FilesAreKeyed-put f [] h = tt
FilesAreKeyed-put f (x ∷ fs) (h, rest) = elim (Bool-cases (x.id == f.id)) [
  | inl y ↦ rw y (subst (λ k. any (has_file_id k) fs ≡ false) (==→eq x.id f.id y) h, rest)
  | inr n ↦ rw n (any-put x.id f fs ∙ h, FilesAreKeyed-put f fs rest)
]

-- A row that the organisation sees.
pub find_file-visible :
    (o k : ℕ) (f : File) (fs : List File)
    → find_file o k fs ≡ some f
    → (f.id ≡ k) × (f.organisation_id ≡ o) × (f.deleted_at ≡ none)
unfolding find_file
find_file-visible o k f [] h = cc
find_file-visible o k f (x ∷ fs) h = ground (arith, find_file-visible o k f fs)

find_file-by_id :
    (o k : ℕ) (f : File) (fs : List File)
    → FilesAreKeyed fs
    → find_file o k fs ≡ some f
    → file_by_id k fs ≡ some f
unfolding find_file
find_file-by_id o k f [] keyed h = cc
find_file-by_id o k f (x ∷ fs) (new, keyed) h = elim (Bool-cases (x.id == k)) [
  | inl y ↦
      let alone : any (has_file_id k) fs ≡ false =
        subst (λ i. any (has_file_id i) fs ≡ false) (==→eq x.id k y) new in
      ground (arith, y, file_by_id-any k fs alone, find_file-by_id o k f fs keyed)
  | inr n ↦ ground (arith, n, find_file-by_id o k f fs keyed)
]

-- What the read of a call gives.
pub record IsSeen (organisation_id k : ℕ) (db : AppDb) (f : File) : Type 0 where
  pub named : f.id ≡ k
  pub owned : f.organisation_id ≡ organisation_id
  pub present : f.deleted_at ≡ none
  pub row : file_by_id f.id db.files ≡ some f
  pub valid : FileIsValid f

pub get_file-IsSeen :
    (o k : ℕ) (db : AppDb) (f : File)
    → FilesAreValid db.files
    → get_file o k db ≡ ok f
    → IsSeen o k db f
unfolding get_file
get_file-IsSeen o k db f v h =
    let found = or_raise-ok file_not_found (find_file o k db.files) h in
    let (named, owned, present) = find_file-visible o k f db.files found in
    let row = find_file-by_id o k f db.files v.keyed found in
    record {
      named = named;
      owned = owned;
      present = present;
      row = subst (λ i. file_by_id i db.files ≡ some f) (sym named) row;
      valid = v.each k f row;
    }
