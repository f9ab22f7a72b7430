-- ===== src/Files/Verification.antt =====
-- backend/app/modules/files/service.py: what the checks of a completion establish.
use app_template.Prelude.{
  String, Bool, true, false, ◌&&◌, not, Option, none, some, ◌==◌, ◌≡◌, refl, arith, if◌then◌else◌,
  ==→eq,
}
use app_template.Models.Files.{File, ObjectInfo}
use app_template.Models.Errors.{Result, ok, err}
use app_template.Database.App.{AppDb, Outcome, check}
use app_template.Files.Service.{
  CopyAnswer, CompletionAnswers, staged_reason, promoted_reason, is_blank, agrees_with,
}

-- A check that passed is followed by the rest of the call.
check-ok {ℓ κ} :
    {A : Type ℓ} {B : Type κ} (db : AppDb) (r : Result A) (rest : A → Outcome B) {b : B}
    → (check db r rest).0 ≡ ok b
    → (a : A) × (r ≡ ok a) × (check db r rest ≡ rest a)
unfolding check
check-ok db (err e) rest h = cc
check-ok db (ok a) rest h = (a, refl, refl)

-- The evidence on which a file was completed: the staging object had the declared size, the copy
-- was made, and the promoted object has the declared size and an identity, which is that of the
-- staging object, where this has one, and the caller's, where one was given.
pub record IsVerified (f : File) (checksum : Option String) (answers : CompletionAnswers)
    (identity : Option String) : Type 0 where
  pub staged : ObjectInfo
  pub promoted : ObjectInfo
  pub staged_answer : answers.staged ≡ ok (some staged)
  pub staged_size : staged.size_bytes ≡ f.size_bytes
  pub copied : answers.copy ≡ CopyAnswer.copied
  pub promoted_answer : answers.promoted ≡ ok (some promoted)
  pub promoted_size : promoted.size_bytes ≡ f.size_bytes
  pub pinned : promoted.checksum ≡ identity
  pub solid : is_blank identity ≡ false
  pub as_staged : agrees_with staged.checksum identity ≡ true
  pub as_claimed : agrees_with checksum identity ≡ true

pub staged_reason-none :
    (f : File) (checksum : Option String) (o : Option ObjectInfo)
    → staged_reason f checksum o ≡ none
    → (s : ObjectInfo) × (o ≡ some s) × (s.size_bytes ≡ f.size_bytes)
unfolding staged_reason
staged_reason-none f checksum none h = cc
staged_reason-none f checksum (some s) h = (s, refl, ground (arith, h))

-- The reason by the outcome of the four tests.
abbrev reason_of : (sized blank as_staged as_claimed : Bool) → Option String
reason_of a b c d =
    if not a
    then some "promotion_failed"
    else if b
    then some "promotion_identity_missing"
    else if not (c && d)
    then some "promotion_identity_mismatch"
    else none

pub promoted_reason-none :
    (f : File) (checksum verified : Option String) (o : Option ObjectInfo)
    → promoted_reason f checksum verified o ≡ none
    → (p : ObjectInfo) × (o ≡ some p)
      × (p.size_bytes ≡ f.size_bytes)
      × (is_blank p.checksum ≡ false)
      × (agrees_with verified p.checksum ≡ true)
      × (agrees_with checksum p.checksum ≡ true)
unfolding promoted_reason
promoted_reason-none f checksum verified none h = cc
promoted_reason-none f checksum verified (some p) h =
    by_tests (p.size_bytes == f.size_bytes) (is_blank p.checksum) (agrees_with verified p.checksum)
      (agrees_with checksum p.checksum) refl refl refl refl h
  where
    by_tests :
        (a b c d : Bool)
        → (p.size_bytes == f.size_bytes) ≡ a
        → is_blank p.checksum ≡ b
        → agrees_with verified p.checksum ≡ c
        → agrees_with checksum p.checksum ≡ d
        → reason_of a b c d ≡ none
        → (q : ObjectInfo) × (some p ≡ some q)
          × (q.size_bytes ≡ f.size_bytes)
          × (is_blank q.checksum ≡ false)
          × (agrees_with verified q.checksum ≡ true)
          × (agrees_with checksum q.checksum ≡ true)
    by_tests false b c d ea eb ec ed e = cc
    by_tests true true c d ea eb ec ed e = cc
    by_tests true false false d ea eb ec ed e = cc
    by_tests true false true false ea eb ec ed e = cc
    by_tests true false true true ea eb ec ed e =
        (p, refl, ==→eq p.size_bytes f.size_bytes ea, eb, ec, ed)
