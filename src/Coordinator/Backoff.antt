-- ===== src/Coordinator/Backoff.antt =====
-- backend/app/job_coordinator/loop.py: the delay after a transient failure. Times are in a unit in
-- which both settings are whole numbers; `jitter` is `uniform(0, cap)`.
pub mod Clamp
use app_template.Prelude.{
  ℕ, zero, suc, ◌*◌, ◌/◌, ◌^◌, ◌-◌, min, Bool, ltb, leb, ◌==◌, ◌||◌, if◌then◌else◌,
}

-- `max(ceil(log2(max / reach)), 0)`: the doublings that take `reach` to `max_seconds`. The fuel is
-- `max_seconds`, which doublings of a positive number reach in as many steps.
unfoldable pub doublings : (fuel reach max_seconds : ℕ) → ℕ
doublings zero reach max_seconds = 0
doublings (suc fuel) reach max_seconds =
    let more = doublings fuel (2 * reach) max_seconds in
    if leb max_seconds reach then 0 else suc more

unfoldable pub cap_exponent : (initial_seconds max_seconds : ℕ) → ℕ
unfolding doublings
cap_exponent initial_seconds max_seconds = doublings max_seconds initial_seconds max_seconds

-- The bound of the jitter. `2 ** -1` is a half.
unfoldable pub backoff_cap : (consecutive_failures initial_seconds max_seconds : ℕ) → ℕ
unfolding cap_exponent
backoff_cap zero initial max_seconds = min (initial / 2) max_seconds
backoff_cap (suc n) initial max_seconds =
    min (initial * 2 ^ min n (cap_exponent initial max_seconds)) max_seconds

unfoldable pub backoff_delay :
    (jitter : ℕ → ℕ) (consecutive_failures initial_seconds max_seconds : ℕ) → ℕ
unfolding backoff_cap
backoff_delay jitter failures initial max_seconds =
    if initial == 0 || max_seconds == 0
    then 0
    else jitter (backoff_cap failures initial max_seconds)
