-- ===== src/Book/Array.antt =====
-- One side of the book: the helpers of src/market/order_book.cpp on an array of price levels. The
-- loops write the array in place, as in the source.
use adaptive_fpga.Prelude.{
  ℕ, zero, suc, ◌+◌, ◌-◌, Bool, true, false, ◌||◌, ◌==◌, List, [], ◌∷◌, ltb, if◌then◌else◌, length,
  get_or, set,
}
use adaptive_fpga.Prelude.Int.{ℤ, pos, ltb_ℤ, ◌==ℤ◌}
use adaptive_fpga.Event.{Side, bid, ask, unknown_side}

pub record PriceLevel : Type 0 where
  pub price_ticks : ℤ
  pub quantity : ℕ

abbrev pub Levels : Type 0
Levels = List PriceLevel

-- `PriceLevel{}`, an unused slot.
abbrev pub empty_level : PriceLevel
empty_level = record { price_ticks = pos 0; quantity = 0 }

-- Whether `left` stands before `right`: bids descend, asks ascend.
unfoldable pub before : Side → ℤ → ℤ → Bool
before bid left right = ltb_ℤ right left
before ask left right = ltb_ℤ left right
before (unknown_side n) left right = ltb_ℤ left right

-- The index of a level counts from the level that the loop has reached.
abbrev pub one_further : Bool × ℕ → Bool × ℕ
one_further (found, index) = (found, suc index)

-- `lookup`: whether the price has a level, and its index or the index to insert it at.
unfoldable pub lookup : Levels → Side → ℤ → Bool × ℕ
lookup [] s price = (false, 0)
lookup (level ∷ rest) s price =
    if level.quantity == 0 || before s price level.price_ticks
    then (false, 0)
    else if level.price_ticks ==ℤ price
    then (true, 0)
    else one_further (lookup rest s price)

-- `for (; index + 1 < size; ++index) levels[index] = levels[index + 1]`, by the rounds left.
unfoldable pub shift_left : ℕ → Levels → ℕ → Levels
shift_left zero levels index = levels
shift_left (suc k) levels index =
    shift_left k (set levels index (get_or levels (suc index) empty_level)) (suc index)

unfoldable pub remove : Levels → ℕ → Levels
unfolding shift_left
remove levels index =
    set (shift_left (length levels - 1 - index) levels index) (length levels - 1) empty_level

-- `for (cursor = size - 1; cursor > index; --cursor) levels[cursor] = levels[cursor - 1]`, by the
-- rounds left; the cursor is above the index, so that it is not zero.
unfoldable pub shift_right : ℕ → Levels → ℕ → Levels
shift_right zero levels cursor = levels
shift_right (suc k) levels zero = levels
shift_right (suc k) levels (suc cursor) =
    shift_right k (set levels (suc cursor) (get_or levels cursor empty_level)) cursor

unfoldable pub insert : Levels → ℕ → PriceLevel → Levels
unfolding shift_right
insert levels index level =
    if index == length levels
    then levels
    else set (shift_right (length levels - 1 - index) levels (length levels - 1)) index level

abbrev pub max_u32 : ℕ
max_u32 = 4_294_967_295

-- The sum is taken in 64 bits, where it does not wrap.
unfoldable pub saturated_add : ℕ → ℕ → ℕ
saturated_add left right = if ltb max_u32 (left + right) then max_u32 else left + right
