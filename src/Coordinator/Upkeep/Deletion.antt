-- ===== src/Coordinator/Upkeep/Deletion.antt =====
-- How many rows the deletion of a list of identifiers takes.
use app_template.Prelude.{
  ℕ, suc, ◌+◌, ◌≤◌, true, false, not, List, [], ◌∷◌, ◌==◌, ◌≡◌, refl, sym, ap, subst, arith, inl,
  inr, Bool-cases, length, keep, ==→eq,
}
use app_template.Models.Outbox.{OutboxEvent}
use app_template.Database.{any}
use app_template.Database.Keys.{AreKeyed, AreKeyed-keep, has_id}

length-keep_absent :
    (i : ℕ) (es : List OutboxEvent)
    → any (has_id i) es ≡ false
    → length (keep (λ (e : OutboxEvent). not (i == e.id)) es) ≡ length es
length-keep_absent i [] h = refl
length-keep_absent i (e ∷ es) h = ground (arith, length-keep_absent i es)

-- Deleting one identifier takes one row at most.
length-keep_one :
    (i : ℕ) (es : List OutboxEvent)
    → AreKeyed es
    → length es ≤ suc (length (keep (λ e. not (i == e.id)) es))
length-keep_one i [] keyed = omega arith
length-keep_one i (e ∷ es) (new, keyed) = elim (Bool-cases (i == e.id)) [
  | inl y ↦
      let alone : any (has_id i) es ≡ false =
        subst (λ k. any (has_id k) es ≡ false) (sym (==→eq i e.id y)) new in
      rw y (omega (arith, length-keep_absent i es alone))
  | inr n ↦ rw n (omega (arith, length-keep_one i es keyed))
]

keep-cons :
    (i : ℕ) (is : List ℕ) (es : List OutboxEvent)
    → keep (λ (e : OutboxEvent). not (any (λ k. k == e.id) (i ∷ is))) es
      ≡ keep (λ e. not (i == e.id)) (keep (λ (e : OutboxEvent). not (any (λ k. k == e.id) is)) es)
keep-cons i is [] = refl
keep-cons i is (e ∷ es) = ground (arith, keep-cons i is es)

length-keep_all : (es : List OutboxEvent) → length (keep (λ (e : OutboxEvent). true) es) ≡ length es
length-keep_all [] = refl
length-keep_all (e ∷ es) = ap suc (length-keep_all es)

-- A deletion takes no more rows than it lists identifiers.
pub length-delete :
    (is : List ℕ) (es : List OutboxEvent)
    → AreKeyed es
    → length es ≤ length (keep (λ (e : OutboxEvent). not (any (λ k. k == e.id) is)) es) + length is
length-delete [] es keyed = omega (arith, length-keep_all es)
length-delete (i ∷ is) es keyed =
    let before = keep (λ (e : OutboxEvent). not (any (λ k. k == e.id) is)) es in
    let one = length-keep_one i before (AreKeyed-keep _ es keyed) in
    let rest = length-delete is es keyed in rw (keep-cons i is es) (omega (arith, one, rest))
