-- ===== src/Book/Prices.antt =====
-- The price order of a side (`before` in src/market/order_book.cpp) is a strict total order.
use adaptive_fpga.Prelude.{◌≡◌, ◌≢◌, true, false, arith}
use adaptive_fpga.Prelude.Int.{ℤ, ◌==ℤ◌}
use adaptive_fpga.Event.{Side, bid, ask, unknown_side}
use adaptive_fpga.Book.Array.{before}

pub before_irrefl : (s : Side) (a : ℤ) → before s a a ≡ false
unfolding before
before_irrefl bid a = ground arith
before_irrefl ask a = ground arith
before_irrefl (unknown_side n) a = ground arith

pub before_trans :
    (s : Side) (a b c : ℤ) → before s a b ≡ true → before s b c ≡ true → before s a c ≡ true
unfolding before
before_trans bid a b c p q = ground arith
before_trans ask a b c p q = ground arith
before_trans (unknown_side n) a b c p q = ground arith

pub before_total :
    (s : Side) (a b : ℤ) → before s a b ≡ false → (b ==ℤ a) ≡ false → before s b a ≡ true
unfolding before
before_total bid a b p q = ground arith
before_total ask a b p q = ground arith
before_total (unknown_side n) a b p q = ground arith

pub ==ℤ→≡ : (a b : ℤ) → (a ==ℤ b) ≡ true → a ≡ b
==ℤ→≡ a b h = ground arith

pub ==ℤ_refl : (a : ℤ) → (a ==ℤ a) ≡ true
==ℤ_refl a = ground arith

-- Prices in order are different.
pub before-ne : (s : Side) (a b : ℤ) → before s a b ≡ true → a ≢ b
unfolding before
before-ne bid a b p e = ground arith
before-ne ask a b p e = ground arith
before-ne (unknown_side n) a b p e = ground arith

pub before_asym : (s : Side) (a b : ℤ) → before s a b ≡ true → before s b a ≡ false
unfolding before
before_asym bid a b p = ground arith
before_asym ask a b p = ground arith
before_asym (unknown_side n) a b p = ground arith

pub before_equal : (s : Side) (a b : ℤ) → (a ==ℤ b) ≡ true → before s a b ≡ false
unfolding before
before_equal bid a b p = ground arith
before_equal ask a b p = ground arith
before_equal (unknown_side n) a b p = ground arith
