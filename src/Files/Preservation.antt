-- ===== src/Files/Preservation.antt =====
-- What a write to the table of files keeps, and what it makes of a row.
use app_template.Prelude.{
  ℕ, false, some, List, ◌==◌, ◌≡◌, ◌≢◌, refl, sym, ◌∙◌, ap, subst, arith, inl, inr, Bool-cases,
  ==→eq,
}
use app_template.Models.Files.{File}
use app_template.Models.Errors.{Error, Result, ok, err}
use app_template.Database.{any}
use app_template.Database.App.{AppDb, Outcome, check}
use app_template.Files.Tables.{file_by_id}
use app_template.Files.Invariant.{
  unchanged, rewritten, inserted, Evolves, Evolves-refl, FileIsValid, FilesAreKeyed-put,
  FilesAreValid, FilesStep, file_by_id-any, file_by_id-put, has_file_id,
}

-- The rest of a call, where the check raised and where it passed.
pub after_check {ℓ κ μ} :
    {A : Type ℓ} {B : Type κ} (P : Outcome B → Type μ) (db : AppDb) (r : Result A)
    (rest : A → Outcome B)
    → ((e : Error) → P (err e, db))
    → ((a : A) → r ≡ ok a → P (rest a))
    → P (check db r rest)
unfolding check
after_check P db (err e) rest bad good = bad e
after_check P db (ok a) rest bad good = good a refl

-- A write that keeps the well-formedness of the table.
pub FilesStep-AreValid :
    (o : ℕ) (fs fs' : List File) → FilesStep o fs fs' → FilesAreValid fs → FilesAreValid fs'
FilesStep-AreValid o fs fs' (unchanged e) v = subst FilesAreValid (sym e) v
FilesStep-AreValid o fs fs' (rewritten f f' row owned evolves valid move e) v =
    subst FilesAreValid (sym e) (record {
      keyed = FilesAreKeyed-put f' fs v.keyed;
      each = λ k g found. elim (Bool-cases (k == f'.id)) [
        | inl y ↦
            let same : f' ≡ g = ground (arith, y, found, file_by_id-put k f' fs) in
            subst FileIsValid same valid
        | inr n ↦ v.each k g (ground (arith, n, found, file_by_id-put k f' fs))
      ];
    })
FilesStep-AreValid o fs fs' (inserted f new valid started e) v =
    subst FilesAreValid (sym e) (record {
      keyed = (new, v.keyed);
      each = λ k g found. elim (Bool-cases (f.id == k)) [
        | inl y ↦ let same : f ≡ g = ground (arith, y, found) in subst FileIsValid same valid
        | inr n ↦ v.each k g (ground (arith, n, found))
      ];
    })

-- A row survives every write and evolves; rows of other organisations stay as they are.
pub FilesStep-Evolves :
    (o k : ℕ) (fs fs' : List File) (f : File)
    → FilesStep o fs fs'
    → file_by_id k fs ≡ some f
    → (g : File) × (file_by_id k fs' ≡ some g) × Evolves f g × (f.organisation_id ≢ o → g ≡ f)
FilesStep-Evolves o k fs fs' f (unchanged e) found =
    (f, subst (λ x. file_by_id k x ≡ some f) (sym e) found, Evolves-refl f, λ _. refl)
FilesStep-Evolves o k fs fs' f (rewritten g g' row owned evolves valid move e) found =
    elim (Bool-cases (k == g'.id)) [
      | inl y ↦
          let named : k ≡ g.id = ==→eq k g'.id y ∙ evolves.same_id in
          let again : file_by_id k fs ≡ some g =
            subst (λ i. file_by_id i fs ≡ some g) (sym named) row in
          let same : f ≡ g = cc in
          (
            g',
            subst (λ x. file_by_id k x ≡ some g') (sym e)
                (file_by_id-put k g' fs ∙ rw (y, found) refl),
            subst (λ x. Evolves x g') (sym same) evolves,
            λ other. absurd (other (ap (λ (x : File). x.organisation_id) same ∙ owned)),
          )
      | inr n ↦ (
        f,
        subst (λ x. file_by_id k x ≡ some f) (sym e) (file_by_id-put k g' fs ∙ rw n found),
        Evolves-refl f,
        λ _. refl,
      )
    ]
FilesStep-Evolves o k fs fs' f (inserted g new valid started e) found =
    elim (Bool-cases (g.id == k)) [
      | inl y ↦
          let none_there =
            file_by_id-any k fs
              (subst (λ i. any (has_file_id i) fs ≡ false) (==→eq g.id k y) new) in
          absurd (cc)
      | inr n ↦
          (f, subst (λ x. file_by_id k x ≡ some f) (sym e) (rw n found), Evolves-refl f, λ _. refl)
    ]
