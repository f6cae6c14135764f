-- ===== src/FixedPoint/Rounding.antt =====
-- What `rounded_divide` computes: the nearest integer, halves away from zero, odd in both arguments.
use native.Mathlib.Nat.{div-add-mod, mod-lt}
use adaptive_fpga.Prelude.{
  ℕ, zero, suc, refl, ◌≢◌, ◌+◌, ◌*◌, ◌/◌, ◌%◌, ◌≤◌, ◌<◌, ◌≡◌, arith, leb, leb→le, Bool-cases, inl,
  inr,
}
use adaptive_fpga.Prelude.Int.{ℤ, pos, nat_abs, is_neg, neg_ℕ, ◌≤ℤ◌}
use adaptive_fpga.FixedPoint.{rounded_quotient, rounded_divide}

-- The two outcomes of the test, with the quotient and the remainder as numbers.
nearest_up :
    (q r d n : ℕ)
    → d * q + r ≡ n
    → r < d
    → (d + 1) / 2 ≤ r
    → (2 * ((q + 1) * d) ≤ 2 * n + d) × (2 * n < 2 * ((q + 1) * d) + d)
nearest_up q r d n e lt h = (omega arith, omega arith)

nearest_down :
    (q r d n : ℕ)
    → d * q + r ≡ n
    → r < (d + 1) / 2
    → (2 * (q * d) ≤ 2 * n + d) × (2 * n < 2 * (q * d) + d)
nearest_down q r d n e h = (omega arith, omega arith)

-- The result is the integer nearest to `n / d`, the larger one at an exact half.
pub rounded_quotient_nearest :
    (n d : ℕ)
    → 0 < d
    → (2 * (rounded_quotient n d * d) ≤ 2 * n + d) × (2 * n < 2 * (rounded_quotient n d * d) + d)
unfolding rounded_quotient
rounded_quotient_nearest n d h = elim (Bool-cases (leb ((d + 1) / 2) (n % d))) [
  | inl up ↦ rw up (nearest_up (n / d) (n % d) d n (div-add-mod n d) (mod-lt n h) (leb→le _ _ up))
  | inr down ↦ rw down (nearest_down (n / d) (n % d) d n (div-add-mod n d) (ground arith))
]

nat_abs-neg_ℕ : (n : ℕ) → nat_abs (neg_ℕ n) ≡ n
nat_abs-neg_ℕ zero = refl
nat_abs-neg_ℕ (suc n) = refl

neg_ℕ-le-zero : (n : ℕ) → neg_ℕ n ≤ℤ pos 0
neg_ℕ-le-zero zero = omega arith
neg_ℕ-le-zero (suc n) = omega arith

pub nat_abs-rounded_divide :
    (n d : ℤ) → nat_abs (rounded_divide n d) ≡ rounded_quotient (nat_abs n) (nat_abs d)
unfolding rounded_divide
nat_abs-rounded_divide n d =
    ground (arith, nat_abs-neg_ℕ (rounded_quotient (nat_abs n) (nat_abs d)))

rounded_divide_same : (n d : ℤ) → is_neg n ≡ is_neg d → pos 0 ≤ℤ rounded_divide n d
unfolding rounded_divide
rounded_divide_same n d h = ground arith

rounded_divide_opposite : (n d : ℤ) → is_neg n ≢ is_neg d → rounded_divide n d ≤ℤ pos 0
unfolding rounded_divide
rounded_divide_opposite n d h =
    ground (arith, neg_ℕ-le-zero (rounded_quotient (nat_abs n) (nat_abs d)))

-- For a divisor other than zero the result r is the integer nearest to n / d, with an exact half
-- rounded away from zero (2 |r| |d| ≤ 2 |n| + |d| and 2 |n| < 2 |r| |d| + |d|); it is not negative
-- if the signs agree and not positive if they differ.
pub rounded_divide_nearest :
    (n d : ℤ)
    → d ≢ pos 0
    → (2 * (nat_abs (rounded_divide n d) * nat_abs d) ≤ 2 * nat_abs n + nat_abs d)
      × (2 * nat_abs n < 2 * (nat_abs (rounded_divide n d) * nat_abs d) + nat_abs d)
      × (is_neg n ≡ is_neg d → pos 0 ≤ℤ rounded_divide n d)
      × (is_neg n ≢ is_neg d → rounded_divide n d ≤ℤ pos 0)
rounded_divide_nearest n d h =
    let m = rounded_quotient_nearest (nat_abs n) (nat_abs d) (ground arith) in
    rw (nat_abs-rounded_divide n d) (m.0, m.1, rounded_divide_same n d, rounded_divide_opposite n d)
