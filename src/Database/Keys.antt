-- ===== src/Database/Keys.antt =====
-- The primary key of the outbox: no two rows of the table share an identifier.
use app_template.Prelude.{
  ℕ, zero, suc, Bool, true, false, ◌||◌, none, some, List, [], ◌∷◌, ◌==◌, ◌≡◌, refl, sym, subst,
  arith, inl, inr, Bool-cases, keep, take, insert_by, sort_by, update_first,
}
use app_template.Prelude.All.{All, All-zip}
use app_template.Models.Outbox.{OutboxEvent}
use app_template.Database.Tables.{any, find_event, put_event}

abbrev pub has_id : ℕ → OutboxEvent → Bool
has_id k e = e.id == k

abbrev pub AreKeyed : List OutboxEvent → Type 0
AreKeyed [] = Unit
AreKeyed (e ∷ es) = (any (has_id e.id) es ≡ false) × AreKeyed es

pub update_first-none {ℓ} :
    {A : Type ℓ} (p : A → Bool) (f : A → A) (xs : List A)
    → any p xs ≡ false
    → update_first p f xs ≡ xs
update_first-none p f [] h = refl
update_first-none p f (x ∷ xs) h = ground (arith, update_first-none p f xs)

pub find_event-none :
    (k : ℕ) (es : List OutboxEvent) → any (has_id k) es ≡ false → find_event k es ≡ none
find_event-none k [] h = refl
find_event-none k (e ∷ es) h = ground (arith, find_event-none k es)

-- A write that keeps identifiers.
module _ (p : OutboxEvent → Bool) (f : OutboxEvent → OutboxEvent)
    (keeps : (e : OutboxEvent) → p e ≡ true → (f e).id ≡ e.id) where
  any-id-update :
      (k : ℕ) (es : List OutboxEvent) → any (has_id k) (update_first p f es) ≡ any (has_id k) es
  any-id-update k [] = refl
  any-id-update k (e ∷ es) = ground (arith, keeps e, any-id-update k es)

  pub AreKeyed-update : (es : List OutboxEvent) → AreKeyed es → AreKeyed (update_first p f es)
  AreKeyed-update [] h = tt
  AreKeyed-update (e ∷ es) (h, rest) = elim (Bool-cases (p e)) [
    | inl y ↦ rw y (subst (λ i. any (has_id i) es ≡ false) (sym (keeps e y)) h, rest)
    | inr n ↦ rw n (rw (any-id-update e.id es) (h, AreKeyed-update es rest))
  ]

pub AreKeyed-put :
    (e : OutboxEvent) (es : List OutboxEvent) → AreKeyed es → AreKeyed (put_event e es)
AreKeyed-put e es h = AreKeyed-update (λ r. r.id == e.id) (λ _. e) (λ r y. ground (arith, y)) es h

module _ (p : OutboxEvent → Bool) where
  any-keep :
      (k : ℕ) (es : List OutboxEvent)
      → any (has_id k) es ≡ false
      → any (has_id k) (keep p es) ≡ false
  any-keep k [] h = refl
  any-keep k (e ∷ es) h = ground (arith, any-keep k es)

  pub AreKeyed-keep : (es : List OutboxEvent) → AreKeyed es → AreKeyed (keep p es)
  AreKeyed-keep [] h = tt
  AreKeyed-keep (e ∷ es) (h, rest) = elim (Bool-cases (p e)) [
    | inl y ↦ rw y (any-keep e.id es h, AreKeyed-keep es rest)
    | inr n ↦ rw n (AreKeyed-keep es rest)
  ]

any-take :
    (k n : ℕ) (es : List OutboxEvent)
    → any (has_id k) es ≡ false
    → any (has_id k) (take n es) ≡ false
any-take k zero es h = refl
any-take k (suc n) [] h = refl
any-take k (suc n) (e ∷ es) h = ground (arith, any-take k n es)

pub AreKeyed-take : (n : ℕ) (es : List OutboxEvent) → AreKeyed es → AreKeyed (take n es)
AreKeyed-take zero es h = tt
AreKeyed-take (suc n) [] h = tt
AreKeyed-take (suc n) (e ∷ es) (h, rest) = (any-take e.id n es h, AreKeyed-take n es rest)

module _ (after : OutboxEvent → OutboxEvent → Bool) where
  any-insert_by :
      (k : ℕ) (x : OutboxEvent) (es : List OutboxEvent)
      → any (has_id k) (insert_by after x es) ≡ (has_id k x || any (has_id k) es)
  any-insert_by k x [] = refl
  any-insert_by k x (e ∷ es) = ground (arith, any-insert_by k x es)

  any-sort_by :
      (k : ℕ) (es : List OutboxEvent) → any (has_id k) (sort_by after es) ≡ any (has_id k) es
  any-sort_by k [] = refl
  any-sort_by k (e ∷ es) = rw (any-insert_by k e (sort_by after es)) (rw (any-sort_by k es) refl)

  AreKeyed-insert_by :
      (x : OutboxEvent) (es : List OutboxEvent)
      → any (has_id x.id) es ≡ false
      → AreKeyed es
      → AreKeyed (insert_by after x es)
  AreKeyed-insert_by x [] h k = (h, tt)
  AreKeyed-insert_by x (e ∷ es) h (k, rest) = elim (Bool-cases (after x e)) [
    | inl y ↦
        rw y
          (rw (any-insert_by e.id x es) (ground arith), AreKeyed-insert_by x es (ground arith) rest)
    | inr n ↦ rw n (h, (k, rest))
  ]

  pub AreKeyed-sort_by : (es : List OutboxEvent) → AreKeyed es → AreKeyed (sort_by after es)
  AreKeyed-sort_by [] h = tt
  AreKeyed-sort_by (e ∷ es) (h, rest) =
      AreKeyed-insert_by e (sort_by after es) (rw (any-sort_by e.id es) h)
        (AreKeyed-sort_by es rest)

pub none_has :
    (k : ℕ) (es : List OutboxEvent) → any (has_id k) es ≡ false → All (λ e. (k == e.id) ≡ false) es
none_has k [] h = tt
none_has k (e ∷ es) h = (ground arith, none_has k es (ground arith))

-- Every row is the one that its identifier finds.
pub rows_are_found :
    (es : List OutboxEvent) → AreKeyed es → All (λ e. find_event e.id es ≡ some e) es
rows_are_found [] h = tt
rows_are_found (x ∷ es) (h, rest) =
    (ground arith, All-zip (λ e a b. rw a b) es (none_has x.id es h) (rows_are_found es rest))
