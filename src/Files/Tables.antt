-- ===== src/Files/Tables.antt =====
-- The rows of the files module and its queries (backend/app/modules/files/queries.py).
use app_template.Prelude.{
  ℕ, Bool, ◌&&◌, not, Option, List, ◌∷◌, ◌==◌, is_some, find_first, update_first,
}
use app_template.Models.Files.{File, key_of}
use app_template.Models.Errors.{Error, not_found, integrity, Result, ok, or_raise, raise_if, ◌>>◌}
use app_template.Database.{any}
use app_template.Database.App.{AppDb}

-- `org_scoped_files_statement(organisation_id).where(File.id == file_id)`
abbrev pub is_visible : (organisation_id file_id : ℕ) → File → Bool
is_visible organisation_id file_id f =
    f.id == file_id && (f.organisation_id == organisation_id && not (is_some f.deleted_at))

unfoldable pub find_file : (organisation_id file_id : ℕ) → List File → Option File
find_file organisation_id file_id = find_first (is_visible organisation_id file_id)

-- The row of an identifier, whatever its organisation and state.
abbrev pub file_by_id : ℕ → List File → Option File
file_by_id k = find_first (λ f. f.id == k)

abbrev pub put_file : File → List File → List File
put_file f = update_first (λ r. r.id == f.id) (λ _. f)

abbrev pub file_not_found : Error
file_not_found = not_found "file_not_found"

-- `get_file` and `_get_file_locked`, which read the same row.
unfoldable pub get_file : (organisation_id file_id : ℕ) → AppDb → Result File
unfolding find_file
get_file organisation_id file_id db =
    or_raise (find_file organisation_id file_id db.files) file_not_found

-- `session.add` of a new file, with the primary key, the unique key and the check of the table.
unfoldable pub insert_file : File → AppDb → Result AppDb
insert_file f db = do
  raise_if (any (λ r. r.id == f.id) db.files) (integrity "pk_files")
  raise_if (any (λ r. key_of r.object_key f.object_key) db.files) (integrity "uq_files_object_key")
  raise_if (f.size_bytes == 0) (integrity "positive_size_bytes")
  ok (record db { files = f ∷ db.files })
