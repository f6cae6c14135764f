-- ===== src/Prelude/Words.antt =====
-- The machine integers of the program. A signed value is an integer of ℤ, an unsigned one a number,
-- and its range is a predicate: unsigned arithmetic wraps in the definitions, and a signed overflow
-- is undefined in C++, so that the theorems say where none occurs.
use adaptive_fpga.Prelude.{ℕ, ◌+◌, ◌-◌, ◌/◌, ◌%◌, ◌≡◌, arith, ltb, if◌then◌else◌}
use adaptive_fpga.Prelude.Int.{ℤ, pos, negsuc, neg_ℕ, ◌≤ℤ◌}

abbrev pub max_i32 : ℤ
max_i32 = pos 2_147_483_647

abbrev pub min_i32 : ℤ
min_i32 = negsuc 2_147_483_647

abbrev pub IsI32 : ℤ → Type 0
IsI32 a = (min_i32 ≤ℤ a) × (a ≤ℤ max_i32)

abbrev pub IsI64 : ℤ → Type 0
IsI64 a = (negsuc 9_223_372_036_854_775_807 ≤ℤ a) × (a ≤ℤ pos 9_223_372_036_854_775_807)

abbrev pub u16_mod : ℕ
u16_mod = 65_536

abbrev pub u32_mod : ℕ
u32_mod = 4_294_967_296

abbrev pub u64_mod : ℕ
u64_mod = 18_446_744_073_709_551_616

abbrev pub add_u64 : ℕ → ℕ → ℕ
add_u64 a b = (a + b) % u64_mod

abbrev pub sub_u64 : ℕ → ℕ → ℕ
sub_u64 a b = (a + u64_mod - b) % u64_mod

-- A narrowing cast to int32_t keeps the low 32 bits.
abbrev pub low_u32 : ℤ → ℕ
low_u32 (pos n) = n % u32_mod
low_u32 (negsuc n) = u32_mod - 1 - n % u32_mod

abbrev pub signed_u32 : ℕ → ℤ
signed_u32 w = if ltb w 2_147_483_648 then pos w else negsuc (u32_mod - 1 - w)

unfoldable pub to_i32 : ℤ → ℤ
to_i32 a = signed_u32 (low_u32 a)

-- A 64-bit result that leaves int64_t, kept to its low 64 bits as the usual compilers do: in C++ such an
-- overflow is undefined.
unfoldable pub wrap_i64 : ℤ → ℤ
wrap_i64 (pos n) =
    let w = n % 18_446_744_073_709_551_616 in
    if ltb w 9_223_372_036_854_775_808 then pos w else negsuc (18_446_744_073_709_551_615 - w)
wrap_i64 (negsuc n) =
    let w = n % 18_446_744_073_709_551_616 in
    if ltb w 9_223_372_036_854_775_808 then negsuc w else pos (18_446_744_073_709_551_615 - w)

pub wrap_i64_lem : (a : ℤ) → IsI64 a → wrap_i64 a ≡ a
unfolding wrap_i64
wrap_i64_lem (pos n) h = ground arith
wrap_i64_lem (negsuc n) h = ground arith

pub to_i32_lem : (a : ℤ) → IsI32 a → to_i32 a ≡ a
unfolding to_i32
to_i32_lem (pos n) h = ground arith
to_i32_lem (negsuc n) h = ground arith

-- int64_t division by a positive number, towards zero.
unfoldable pub div_i64 : ℤ → ℕ → ℤ
div_i64 (pos n) d = pos (n / d)
div_i64 (negsuc n) d = neg_ℕ ((n + 1) / d)

-- x >> k on an int64_t rounds down.
unfoldable pub shift_right_i64 : ℤ → ℕ → ℤ
shift_right_i64 (pos n) d = pos (n / d)
shift_right_i64 (negsuc n) d = negsuc (n / d)
