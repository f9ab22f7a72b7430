-- ===== src/Files/Validation.antt =====
-- backend/app/modules/files/service.py: the checks of a declared upload.
use Prim.Native.Char.{code}
use app_template.Prelude.{
  ℕ, ◌+◌, String, Bool, true, false, ◌&&◌, ◌||◌, not, Option, none, some, List, [], ◌∷◌, map, ltb,
  leb, ◌==◌, str_eq, if◌then◌else◌,
}
use app_template.Models.Errors.{invalid, Result, raise_if, or_raise, ◌>>=◌, ◌>>◌}
use app_template.Database.{any}

pub record StorageSettings : Type 0 where
  pub storage_provider : String
  pub storage_bucket : String
  pub max_upload_size : ℕ
  pub allowed_content_types : List String

abbrev pub listed : String → List String → Bool
listed s = any (λ t. str_eq t s)

-- `_EXTENSIONS_BY_CONTENT_TYPE.get(content_type)`
unfoldable pub extensions : String → Option (List String)
extensions content_type =
    if str_eq content_type "application/pdf"
    then some ("pdf" ∷ [])
    else if str_eq content_type "application/json"
    then some ("json" ∷ [])
    else if str_eq content_type "text/plain"
    then some ("txt" ∷ [])
    else if str_eq content_type "text/csv"
    then some ("csv" ∷ [])
    else if str_eq content_type "image/png"
    then some ("png" ∷ [])
    else if str_eq content_type "image/jpeg"
    then some ("jpg" ∷ "jpeg" ∷ [])
    else none

abbrev pub codes : String → List ℕ
codes String.[] = []
codes (String.◌∷◌ c s) = code c ∷ codes s

-- `lower()` on ASCII letters. No other letter has one of the extensions' letters as its lower case.
abbrev pub lower : ℕ → ℕ
lower c = if leb b'A' c && leb c b'Z' then c + 32 else c

abbrev dot_here : (c : ℕ) (rest : List ℕ) → Option (List ℕ) → Option (List ℕ)
dot_here c rest none = if c == b'.' then some rest else none
dot_here c rest (some s) = some s

-- What stands behind the last dot.
abbrev pub last_segment : List ℕ → Option (List ℕ)
last_segment [] = none
last_segment (c ∷ cs) = dot_here c cs (last_segment cs)

abbrev segment_or_empty : Option (List ℕ) → List ℕ
segment_or_empty none = []
segment_or_empty (some s) = map lower s

-- `original_filename.rsplit(".", 1)[-1].lower() if "." in original_filename else ""`
unfoldable pub suffix : String → List ℕ
suffix original_filename = segment_or_empty (last_segment (codes original_filename))

abbrev pub codes_eq : List ℕ → List ℕ → Bool
codes_eq [] [] = true
codes_eq [] (_ ∷ _) = false
codes_eq (_ ∷ _) [] = false
codes_eq (a ∷ as') (b ∷ bs) = a == b && codes_eq as' bs

abbrev pub is_empty : List ℕ → Bool
is_empty [] = true
is_empty (_ ∷ _) = false

unfoldable pub validate_declared_upload :
    StorageSettings → (original_filename content_type : String) (size_bytes : ℕ) → Result (Unit {0})
unfolding extensions suffix
validate_declared_upload settings original_filename content_type size_bytes = do
  raise_if (ltb settings.max_upload_size size_bytes) (invalid "file_too_large")
  raise_if (not (listed content_type settings.allowed_content_types))
      (invalid "unsupported_content_type")
  allowed ← or_raise (extensions content_type) (invalid "unsupported_content_type")
  raise_if
      (is_empty (suffix original_filename)
        || not (any (λ e. codes_eq (suffix original_filename) (codes e)) allowed))
      (invalid "unsupported_file_extension")
