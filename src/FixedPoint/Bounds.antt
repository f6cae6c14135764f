-- ===== src/FixedPoint/Bounds.antt =====
-- Ranges of include/market/fixed_point.hpp: what is clamped, and what cannot overflow.
use native.Mathlib.Nat.{mul-le-mul, le_refl}
use native.Mathlib.Decide.{dec_le}
use adaptive_fpga.Prelude.{ℕ, suc, ◌*◌, ◌≤◌, ◌<◌, ◌≡◌, ◌↔◌, ap, arith, none, some}
use adaptive_fpga.Prelude.Int.{ℤ, pos, negsuc, nat_abs, ◌*ℤ◌, ◌≤ℤ◌}
use adaptive_fpga.Prelude.Words.{IsI32, IsI64}
use adaptive_fpga.FixedPoint.{
  scale, one, saturate, rounded_quotient, rounded_divide, multiply, divide,
}
use adaptive_fpga.FixedPoint.Rounding.{rounded_quotient_nearest, nat_abs-rounded_divide}

-- The clamped value is always an int32_t, it is the value itself if that is an int32_t already, and
-- clamping keeps the order.
pub saturate_lem :
    (a b : ℤ)
    → IsI32 (saturate a) × (IsI32 a → saturate a ≡ a) × (a ≤ℤ b → saturate a ≤ℤ saturate b)
unfolding saturate
saturate_lem a b = (ground arith, λ h. ground arith, λ h. ground arith)

pub saturate-IsI32 : (a : ℤ) → IsI32 (saturate a)
saturate-IsI32 a = (saturate_lem a a).0

-- Dividing never makes a magnitude larger.
pub rounded_quotient-le : (n d : ℕ) → 0 < d → rounded_quotient n d ≤ n
rounded_quotient-le n d h = elim (dec_le (rounded_quotient n d) n) [
  | yes small ↦ small
  | no large ↦ absurd (
      omega (
        arith,
        (rounded_quotient_nearest n d h).0,
        mul-le-mul {n₁ = suc n} {n₂ = rounded_quotient n d} (omega arith) (le_refl d),
        mul-le-mul (le_refl n) h,
      ))
]

pub nat_abs-* : (a b : ℤ) → nat_abs (a *ℤ b) ≡ nat_abs a * nat_abs b
unfolding ◌*ℤ◌
nat_abs-* (pos a) (pos b) = ground arith
nat_abs-* (pos a) (negsuc b) = ground arith
nat_abs-* (negsuc a) (pos b) = ground arith
nat_abs-* (negsuc a) (negsuc b) = ground arith

pub IsI64-of_nat_abs : (a : ℤ) → nat_abs a ≤ 9_223_372_036_854_775_807 → IsI64 a
IsI64-of_nat_abs a h = ground arith

nat_abs-i32-le : (a : ℤ) → IsI32 a → nat_abs a ≤ 2_147_483_648
nat_abs-i32-le a h = ground arith

product_bound : (a b : ℤ) → IsI32 a → IsI32 b → nat_abs (a *ℤ b) ≤ 4_611_686_018_427_387_904
product_bound a b ha hb =
    omega (arith, nat_abs-* a b, mul-le-mul (nat_abs-i32-le a ha) (nat_abs-i32-le b hb))

pub product_no_overflow :
    (a b : ℤ) → IsI32 a → IsI32 b → IsI64 (a *ℤ b) × IsI64 (rounded_divide (a *ℤ b) scale)
product_no_overflow a b ha hb = (
  IsI64-of_nat_abs (a *ℤ b) (omega (arith, product_bound a b ha hb)),
  IsI64-of_nat_abs (rounded_divide (a *ℤ b) scale) (
      omega (
        arith,
        product_bound a b ha hb,
        nat_abs-rounded_divide (a *ℤ b) scale,
        rounded_quotient-le (nat_abs (a *ℤ b)) 65_536 (omega arith),
      )),
)

*ℤ_comm : (a b : ℤ) → a *ℤ b ≡ b *ℤ a
unfolding ◌*ℤ◌
*ℤ_comm a b = ground arith

exact : (a : ℤ) → rounded_divide (a *ℤ scale) scale ≡ a
unfolding rounded_divide rounded_quotient ◌*ℤ◌
exact a = ground arith

-- On int32_t arguments no intermediate result of `multiply` leaves the range of an int64_t, the
-- result is an int32_t, the order of the factors does not matter, and 1.0 is the unit.
pub multiply_lem :
    (a b : ℤ)
    → IsI32 a
    → IsI32 b
    → IsI64 (a *ℤ b)
      × IsI64 (rounded_divide (a *ℤ b) scale)
      × IsI32 (multiply a b)
      × (multiply a b ≡ multiply b a)
      × (multiply a one ≡ a)
unfolding multiply
multiply_lem a b ha hb = (
  (product_no_overflow a b ha hb).0,
  (product_no_overflow a b ha hb).1,
  saturate-IsI32 _,
  ap (λ t. saturate (rounded_divide t scale)) (*ℤ_comm a b),
  rw (exact a) ((saturate_lem a a).1 ha),
)

-- `divide` fails exactly on a zero divisor, a quotient is an int32_t, and dividing an
-- int32_t by 1.0 gives it back.
pub divide_lem :
    (a b : ℤ)
    → IsI32 a
    → ((divide a b ≡ none) ↔ (b ≡ pos 0))
      × ((q : ℤ) → divide a b ≡ some q → IsI32 q)
      × (divide a one ≡ some a)
unfolding divide
divide_lem a b ha = (
  (λ h. ground arith, λ h. ground arith),
  λ q h. ground (arith, saturate-IsI32 (rounded_divide (a *ℤ scale) b)),
  rw (exact a) (ap some ((saturate_lem a a).1 ha)),
)
