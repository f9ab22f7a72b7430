-- ===== src/Prelude/All.antt =====
-- A property of every element of a list, through the filters, the orders and the limits of a query.
use mathlib.Core.Path.{◌≡◌, sym, subst}
use mathlib.Core.Logic.{inl, inr}
use mathlib.Core.Bool.{Bool, true}
use mathlib.Core.List.{List, [], ◌∷◌, Memᴰ}
use Prim.Native.Nat.{ℕ, zero, suc}
use app_template.Prelude.Tests.{Bool-cases}
use app_template.Prelude.Lists.{keep, take, insert_by, sort_by}

module _ {ℓ κ} {A : Type ℓ} where
  abbrev pub All : (A → Type κ) → List A → Type κ
  All P [] = Unit
  All P (x ∷ xs) = P x × All P xs

  pub All-imp : {P Q : A → Type κ} → ((x : A) → P x → Q x) → (xs : List A) → All P xs → All Q xs
  All-imp f [] h = tt
  All-imp f (x ∷ xs) (p, h) = (f x p, All-imp f xs h)

  pub All-zip :
      {P Q R : A → Type κ}
      → ((x : A) → P x → Q x → R x)
      → (xs : List A) → All P xs
      → All Q xs
      → All R xs
  All-zip f [] h k = tt
  All-zip f (x ∷ xs) (p, h) (q, k) = (f x p q, All-zip f xs h k)

  pub All-keep :
      {P Q : A → Type κ} (p : A → Bool)
      → ((x : A) → P x → p x ≡ true → Q x)
      → (xs : List A) → All P xs
      → All Q (keep p xs)
  All-keep p f [] h = tt
  All-keep p f (x ∷ xs) (a, h) = elim (Bool-cases (p x)) [
    | inl e ↦ rw e (f x a e, All-keep p f xs h)
    | inr e ↦ rw e (All-keep p f xs h)
  ]

module _ {ℓ κ} {A : Type ℓ} (P : A → Type κ) where
  pub All-Mem : {x : A} {xs : List A} → Memᴰ x xs → All P xs → P x
  All-Mem (Memᴰ.head e) (p, h) = subst P (sym e) p
  All-Mem (Memᴰ.tail m) (p, h) = All-Mem m h

  pub All-take : (n : ℕ) (xs : List A) → All P xs → All P (take n xs)
  All-take zero xs h = tt
  All-take (suc n) [] h = tt
  All-take (suc n) (x ∷ xs) (a, h) = (a, All-take n xs h)

  pub All-insert_by :
      (after : A → A → Bool) (x : A) (xs : List A) → P x → All P xs → All P (insert_by after x xs)
  All-insert_by after x [] a h = (a, tt)
  All-insert_by after x (y ∷ ys) a (b, h) = elim (Bool-cases (after x y)) [
    | inl e ↦ rw e (b, All-insert_by after x ys a h)
    | inr e ↦ rw e (a, (b, h))
  ]

  pub All-sort_by : (after : A → A → Bool) (xs : List A) → All P xs → All P (sort_by after xs)
  All-sort_by after [] h = tt
  All-sort_by after (x ∷ xs) (a, h) =
      All-insert_by after x (sort_by after xs) a (All-sort_by after xs h)
