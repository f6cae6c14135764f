-- ===== src/FixedPoint/Tests.antt =====
-- Runs of include/market/fixed_point.hpp, and its theorems at concrete values.
use adaptive_fpga.Prelude.{◌+◌, ◌*◌, ◌≤◌, ◌<◌, ◌≡◌, ◌≢◌, refl}
use adaptive_fpga.Prelude.Int.{pos, negsuc, nat_abs, is_neg, ◌*ℤ◌, ◌≤ℤ◌}
use adaptive_fpga.FixedPoint.{saturate, rounded_quotient, rounded_divide, multiply}
use adaptive_fpga.FixedPoint.Rounding.{rounded_divide_nearest}

-- 5 / 2 and -5 / 2 go away from zero.
halves : (rounded_divide (pos 5) (pos 2) ≡ pos 3) × (rounded_divide (negsuc 4) (pos 2) ≡ negsuc 2)
unfolding rounded_divide rounded_quotient
halves = (refl, refl)

thirds : (rounded_divide (pos 4) (pos 3) ≡ pos 1) × (rounded_divide (pos 5) (negsuc 2) ≡ negsuc 1)
unfolding rounded_divide rounded_quotient
thirds = (refl, refl)

half_of_three : multiply (pos 196_608) (pos 32_768) ≡ pos 98_304
unfolding multiply rounded_divide rounded_quotient ◌*ℤ◌ saturate
half_of_three = refl

overflow_saturates : multiply (pos 2_147_483_647) (negsuc 131_071) ≡ negsuc 2_147_483_647
unfolding multiply rounded_divide rounded_quotient ◌*ℤ◌ saturate
overflow_saturates = refl

rounded_divide_nearest_example :
    (2 * (nat_abs (rounded_divide (pos 7) (negsuc 1)) * 2) ≤ 16)
    × (14 < 2 * (nat_abs (rounded_divide (pos 7) (negsuc 1)) * 2) + 2)
    × (is_neg (pos 7) ≡ is_neg (negsuc 1) → pos 0 ≤ℤ rounded_divide (pos 7) (negsuc 1))
    × (is_neg (pos 7) ≢ is_neg (negsuc 1) → rounded_divide (pos 7) (negsuc 1) ≤ℤ pos 0)
rounded_divide_nearest_example = rounded_divide_nearest (pos 7) (negsuc 1) (λ e. cc)
