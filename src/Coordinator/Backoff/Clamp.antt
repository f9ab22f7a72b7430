-- ===== src/Coordinator/Backoff/Clamp.antt =====
-- The clamp of the exponent never shortens a delay, and the delay never exceeds the maximum.
use app_template.Prelude.{
  ℕ, zero, suc, ◌*◌, ◌^◌, ◌<◌, ◌≤◌, min, ◌||◌, ◌==◌, leb, ◌≡◌, sym, ◌∙◌, ap, subst, arith, inl, inr,
  Bool-cases, leb→le,
}
use native.Mathlib.Nat.{
  pow-le-pow_right, pow-succ', mul-le-mul_left, mul-le-mul_right, mul_assoc, mul_comm,
}
use app_template.Coordinator.Backoff.{doublings, cap_exponent, backoff_cap, backoff_delay}

double_power : (r k : ℕ) → r * 2 ^ suc k ≡ (2 * r) * 2 ^ k
double_power r k =
    ap (λ x. r * x) (pow-succ' 2 k)
    ∙ (sym (mul_assoc r 2 (2 ^ k)) ∙ ap (λ x. x * 2 ^ k) (mul_comm r 2))

doublings_reach : (fuel r m : ℕ) → m ≤ r * 2 ^ fuel → m ≤ r * 2 ^ doublings fuel r m
unfolding doublings
doublings_reach zero r m h = h
doublings_reach (suc fuel) r m h = elim (Bool-cases (leb m r)) [
  | inl y ↦ rw y (omega (arith, leb→le m r y))
  | inr n ↦ rw n (
      subst (λ x. m ≤ x) (sym (double_power r (doublings fuel (2 * r) m)))
        (doublings_reach fuel (2 * r) m (subst (λ x. m ≤ x) (double_power r fuel) h)))
]

self_power : (m : ℕ) → m ≤ 2 ^ m
self_power zero = omega arith
self_power (suc m) =
    subst (λ x. suc m ≤ x) (sym (pow-succ' 2 m))
      (omega
        (arith, self_power m, pow-le-pow_right {n = 2} (omega arith) {i = 0} {j = m} (omega arith)))

-- The fuel of the exponent is enough: that many doublings reach the maximum.
cap_exponent-reach : (i m : ℕ) → 0 < i → m ≤ i * 2 ^ cap_exponent i m
unfolding cap_exponent
cap_exponent-reach i m pos =
    doublings_reach m i m
      (omega (arith, self_power m, mul-le-mul_right {m = 1} {n = i} (2 ^ m) (omega arith)))

clamped : (n e i m : ℕ) → m ≤ i * 2 ^ e → min (i * 2 ^ min n e) m ≡ min (i * 2 ^ n) m
clamped n e i m reach = elim (Bool-cases (leb n e)) [
  | inl y ↦ ap (λ x. min (i * 2 ^ x) m) (omega (arith, leb→le n e y))
  | inr z ↦
      let more : e ≤ n = ground (arith, z) in
      let less : min n e ≡ e = omega (arith, more) in
      let grown = mul-le-mul_left i (pow-le-pow_right {n = 2} (omega arith) {i = e} {j = n} more) in
      ap (λ x. min (i * 2 ^ x) m) less ∙ omega (arith, reach, grown)
]

-- From the first failure on, the bound of the delay is the exponential one, capped, as if the
-- exponent were not clamped, however many failures there were; and the delay itself, for a jitter
-- that stays within its bound, exceeds neither that bound nor the maximum.
pub backoff_delay_lem :
    (jitter : ℕ → ℕ) (n initial max_seconds : ℕ)
    → ((cap : ℕ) → jitter cap ≤ cap)
    → 0 < initial
    → (backoff_cap (suc n) initial max_seconds ≡ min (initial * 2 ^ n) max_seconds)
      × (backoff_delay jitter (suc n) initial max_seconds ≤ min (initial * 2 ^ n) max_seconds)
unfolding backoff_cap backoff_delay
backoff_delay_lem jitter n i m uniform pos =
    let same = clamped n (cap_exponent i m) i m (cap_exponent-reach i m pos) in
    (
      same,
      elim (Bool-cases (i == 0 || m == 0)) [
        | inl y ↦ rw y (omega arith)
        | inr z ↦
            rw z
              (subst (λ x. jitter (min (i * 2 ^ min n (cap_exponent i m)) m) ≤ x) same (uniform _))
      ],
    )
