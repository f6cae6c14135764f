-- ===== src/FixedPoint.antt =====
-- include/market/fixed_point.hpp: signed Q16.16 values. A Value is an int32_t, an intermediate
-- result an int64_t; both are integers of ℤ. FixedPointError is `none`.
pub mod Rounding
pub mod Bounds
mod Tests
use adaptive_fpga.Prelude.{
  ℕ, ◌+◌, ◌/◌, ◌%◌, Bool, true, false, not, Option, none, some, ltb, leb, if◌then◌else◌,
}
use adaptive_fpga.Prelude.Int.{
  ℤ, pos, negsuc, pos_part, neg_part, nat_abs, is_neg, neg_ℕ, ◌*ℤ◌, ltb_ℤ, ◌==ℤ◌,
}
use adaptive_fpga.Prelude.Words.{max_i32, min_i32}

-- `kScale`, and `kOne`, the stored form of 1.0.
abbrev pub scale : ℤ
scale = pos 65_536

abbrev pub one : ℤ
one = pos 65_536

-- `saturate`: clamp an int64_t to the range of an int32_t.
unfoldable pub saturate : ℤ → ℤ
saturate value =
    if ltb_ℤ max_i32 value then max_i32 else if ltb_ℤ value min_i32 then min_i32 else value

unfoldable pub from_integer : ℤ → ℤ
from_integer value = saturate (value *ℤ scale)

-- The magnitude that `rounded_divide` computes: the quotient, one more from half a divisor on.
unfoldable pub rounded_quotient : ℕ → ℕ → ℕ
rounded_quotient n d = if leb ((d + 1) / 2) (n % d) then n / d + 1 else n / d

-- `a != b` on two Booleans.
abbrev differ : Bool → Bool → Bool
differ true b = not b
differ false b = b

-- `rounded_divide`. Both magnitudes are taken first, and the sign is put back last.
unfoldable pub rounded_divide : ℤ → ℤ → ℤ
rounded_divide numerator denominator =
    let quotient : ℕ = rounded_quotient (nat_abs numerator) (nat_abs denominator) in
    if differ (is_neg numerator) (is_neg denominator) then neg_ℕ quotient else pos quotient

unfoldable pub multiply : ℤ → ℤ → ℤ
multiply left right = saturate (rounded_divide (left *ℤ right) scale)

unfoldable pub divide : ℤ → ℤ → Option ℤ
divide numerator denominator =
    if denominator ==ℤ pos 0
    then none
    else some (saturate (rounded_divide (numerator *ℤ scale) denominator))
