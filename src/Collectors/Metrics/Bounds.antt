-- ===== src/Collectors/Metrics/Bounds.antt =====
-- The percentages of a host's telemetry.
use native.Mathlib.Nat.{div-add-mod', mul_comm, div-le_of_le-mul}
use openclaw_observatory.Prelude.{
  ◌≡◌, ℕ, ◌+◌, ◌-◌, ◌*◌, ◌/◌, ◌%◌, ◌≤◌, ◌<◌, none, some, if◌then◌else◌, arith,
}
use openclaw_observatory.Prelude.Int.{
  ℤ, pos, ◌-ℤ◌, round_div, round_half, round_div_ℤ, scale, leb_ℤ,
}
use openclaw_observatory.Collectors.Metrics.{cpu_percent_from_samples, busy_percent}

half_le : (q r d k : ℕ) → 0 < d → q ≤ k → (q ≡ k → r ≡ 0) → round_half q r d ≤ k
half_le q r d k p le full = ground (arith, p, le, full)

-- what is left of `n ≤ k * d` when the quotient is `k`
no_rest : (n d k : ℕ) → n ≤ k * d → n / d ≡ k → n % d ≡ 0
no_rest n d k h e =
    let whole : k * d + n % d ≡ n = rw (← e) (div-add-mod' n d) in omega (arith, whole, h)

-- a quotient that is at most `k` is at most `k` when it is rounded
round_div_le : (n d k : ℕ) → 0 < d → n ≤ k * d → round_div n d ≤ k
round_div_le n d k p h =
    half_le (n / d) (n % d) d k p (div-le_of_le-mul d (rw (mul_comm d k) h)) (no_rest n d k h)

minus_pos : (a b : ℕ) → b ≤ a → pos a -ℤ pos b ≡ pos (a - b)
minus_pos a b h = ground (arith, h)

scaled : (n a : ℕ) → scale n (pos a) ≡ pos (n * a)
scaled n a = ground arith

round_pos : (n d : ℕ) → 0 < d → round_div_ℤ (pos n) d ≡ pos (round_div n d)
round_pos n d p = let none_left = round_div_le 0 d 0 p (omega arith) in ground (arith, none_left)

busy_percent_pos :
    (idle total : ℕ)
    → 0 < total
    → idle ≤ total
    → busy_percent (pos idle) (pos total) ≡ pos (round_div (10000 * (total - idle)) total)
busy_percent_pos idle total p h =
    rw (minus_pos total idle h, scaled 10000 (total - idle))
      (round_pos (10000 * (total - idle)) total p)

when_positive : (n : ℕ) (x : ℤ) → 0 < n → (if leb_ℤ (pos n) (pos 0) then none else some x) ≡ some x
when_positive n x p = ground (arith, p)

-- The share of a sample's jiffies that were not idle is between 0 and 100 percent, if the counters
-- did not run backwards and the idle time is a part of the whole.
pub cpu_percent_bounded :
    (i t i' t' : ℕ)
    → i ≤ i'
    → t < t'
    → i' + t ≤ t' + i
    → (p : ℕ) × (cpu_percent_from_samples (some (pos i, pos t)) (some (pos i', pos t'))
        ≡ some (pos p))
      × (p ≤ 10000)
unfolding cpu_percent_from_samples
cpu_percent_bounded i t i' t' a b c =
    let busy = busy_percent_pos (i' - i) (t' - t) (omega (arith, b)) (omega (arith, a, b, c)) in
    let share = 10000 * ((t' - t) - (i' - i)) in
    let le : share ≤ 10000 * (t' - t) = omega arith in
    (
      round_div share (t' - t),
      rw (minus_pos t' t (omega (arith, b)), minus_pos i' i a, busy)
          (when_positive (t' - t) _ (omega (arith, b))),
      round_div_le share (t' - t) 10000 (omega (arith, b)) le,
    )
