-- ===== src/Scheduler/Recovery/Backoff.antt =====
-- The bounds of the delay of a retry.
use native.Mathlib.Nat.{lt-mul-div-succ, mul-div-le, lt_of_mul-lt-mul_left, le_of_mul-le-mul_left}
use aof.Prelude.{ℕ, zero, suc, ◌+◌, ◌*◌, ◌/◌, ◌≤◌, ◌<◌, ◌≡◌, arith}
use aof.Scheduler.Recovery.{Fraction, pow3, base_delay, compute_retry_backoff_ms}

low : (d u k : ℕ) → u * (6 * d + 4) ≤ 2 * d * (3 * u + 2 * k) + 4 * u
low d u k = grind arith

high : (d u k : ℕ) → k ≤ u → 2 * d * (3 * u + 2 * k) + 4 * u ≤ u * (10 * d + 4)
high d u k h = grind arith

assoc : (u b : ℕ) → 8 * u * b ≡ u * (8 * b)
assoc u b = grind arith

module _ (d u k : ℕ) (h : k < u) where
  quotient : ℕ
  quotient = (2 * d * (3 * u + 2 * k) + 4 * u) / (8 * u)

  quotient_low : 3 * d ≤ 4 * quotient + 1
  unfolding quotient
  quotient_low =
      let above = lt-mul-div-succ (2 * d * (3 * u + 2 * k) + 4 * u) {b = 8 * u} (omega arith) in
      let scaled : u * (6 * d + 4) < u * (8 * (quotient + 1)) =
        omega (arith, above, low d u k, assoc u (quotient + 1)) in
      let cancelled = lt_of_mul-lt-mul_left u scaled in omega arith

  quotient_high : 4 * quotient ≤ 5 * d + 2
  unfolding quotient
  quotient_high =
      let below = mul-div-le (2 * d * (3 * u + 2 * k) + 4 * u) (8 * u) in
      let scaled : u * (8 * quotient) ≤ u * (10 * d + 4) =
        omega (arith, below, high d u k (omega arith), assoc u quotient) in
      let cancelled = le_of_mul-le-mul_left scaled (omega arith) in omega arith

pow3_pos : (n : ℕ) → 1 ≤ pow3 n
pow3_pos zero = omega arith
pow3_pos (suc n) = omega (arith, pow3_pos n)

pub base_delay-bounds : (n : ℕ) → (60000 ≤ base_delay n) × (base_delay n ≤ 900000)
unfolding base_delay
base_delay-bounds n = ground (arith, pow3_pos n)

-- The delay of a retry is at least three quarters and at most five quarters of the delay without jitter,
-- up to the rounding, and from 45 seconds to 1125 seconds, for every random number below 1.
pub compute_retry_backoff_ms_bounds :
    (r : Fraction) (n : ℕ)
    → r.part < r.unit
    → (3 * base_delay n ≤ 4 * compute_retry_backoff_ms r n + 1)
      × (4 * compute_retry_backoff_ms r n ≤ 5 * base_delay n + 2)
      × (45000 ≤ compute_retry_backoff_ms r n)
      × (compute_retry_backoff_ms r n ≤ 1125000)
unfolding compute_retry_backoff_ms quotient
compute_retry_backoff_ms_bounds r n h =
    let below = quotient_low (base_delay n) r.unit r.part h in
    let above = quotient_high (base_delay n) r.unit r.part h in
    let (least, most) = base_delay-bounds n in (below, above, omega arith, omega arith)
