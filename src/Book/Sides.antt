-- ===== src/Book/Sides.antt =====
-- A well-formed side of the book: used levels first, with positive quantities and positive prices in
-- strict order, then unused ones; and what the helpers of src/market/order_book.cpp make of it.
use adaptive_fpga.Prelude.{
  ℕ, zero, suc, ◌<◌, ◌≡◌, refl, ◌⊎◌, inl, inr, true, [], ◌∷◌, ◌++◌, Option, none, some,
}
use adaptive_fpga.Prelude.Int.{ℤ, pos, ◌<ℤ◌}
use adaptive_fpga.Event.{Side}
use adaptive_fpga.Book.Array.{PriceLevel, Levels, empty_level, before}
use adaptive_fpga.Book.Prices.{before_trans}
use adaptive_fpga.Book.Shifts.{erase_at, push_down}

-- The price stands behind the one before it, where there is one.
abbrev pub After : Side → Option ℤ → ℤ → Type 0
After s none price = Unit {0}
After s (some previous) price = before s previous price ≡ true

abbrev pub AllEmpty : Levels → Type 0
AllEmpty [] = Unit {0}
AllEmpty (level ∷ rest) = (level.price_ticks ≡ pos 0) × (level.quantity ≡ 0) × AllEmpty rest

-- The levels after the price `previous` are well-formed.
abbrev pub IsSide : Side → Option ℤ → Levels → Type 0
IsSide s previous [] = Unit {0}
IsSide s previous (level ∷ rest) =
    ((0 < level.quantity)
      × (pos 0 <ℤ level.price_ticks)
      × After s previous level.price_ticks
      × IsSide s (some level.price_ticks) rest)
    ⊎ AllEmpty (level ∷ rest)

pub AllEmpty-IsSide :
    (s : Side) (previous : Option ℤ) (levels : Levels) → AllEmpty levels → IsSide s previous levels
AllEmpty-IsSide s previous [] h = tt
AllEmpty-IsSide s previous (level ∷ rest) h = inr h

pub push_down-AllEmpty :
    (level : PriceLevel) (levels : Levels)
    → AllEmpty (level ∷ levels)
    → AllEmpty (push_down level levels)
unfolding push_down
push_down-AllEmpty level [] h = tt
push_down-AllEmpty level (first ∷ rest) h = (h.0, h.1, push_down-AllEmpty first rest h.2)

-- Losing the last level keeps a side well-formed.
pub push_down-IsSide :
    (s : Side) (previous : Option ℤ) (level : PriceLevel) (levels : Levels)
    → IsSide s previous (level ∷ levels)
    → IsSide s previous (push_down level levels)
unfolding push_down
push_down-IsSide s previous level [] h = tt
push_down-IsSide s previous level (first ∷ rest) (inl h) =
    inl (h.0, h.1, h.2, push_down-IsSide s (some level.price_ticks) first rest h.3)
push_down-IsSide s previous level (first ∷ rest) (inr h) =
    inr (push_down-AllEmpty level (first ∷ rest) h)

AllEmpty-snoc : (levels : Levels) → AllEmpty levels → AllEmpty (levels ++ (empty_level ∷ []))
AllEmpty-snoc [] h = (refl, refl, tt)
AllEmpty-snoc (level ∷ rest) h = (h.0, h.1, AllEmpty-snoc rest h.2)

IsSide-snoc :
    (s : Side) (previous : Option ℤ) (levels : Levels)
    → IsSide s previous levels
    → IsSide s previous (levels ++ (empty_level ∷ []))
IsSide-snoc s previous [] h = inr (refl, refl, tt)
IsSide-snoc s previous (level ∷ rest) (inl h) =
    inl (h.0, h.1, h.2, IsSide-snoc s (some level.price_ticks) rest h.3)
IsSide-snoc s previous (level ∷ rest) (inr h) = inr (AllEmpty-snoc (level ∷ rest) h)

After-trans :
    (s : Side) (previous : Option ℤ) (a b : ℤ)
    → After s previous a
    → before s a b ≡ true
    → After s previous b
After-trans s none a b p q = tt
After-trans s (some c) a b p q = before_trans s c a b p q

-- What stands behind a price stands behind every earlier one.
IsSide-earlier :
    (s : Side) (previous : Option ℤ) (price : ℤ) (levels : Levels)
    → After s previous price
    → IsSide s (some price) levels
    → IsSide s previous levels
IsSide-earlier s previous price [] a h = tt
IsSide-earlier s previous price (level ∷ rest) a (inl h) =
    inl (h.0, h.1, After-trans s previous price level.price_ticks a h.2, h.3)
IsSide-earlier s previous price (level ∷ rest) a (inr h) = inr h

pub erase_at-AllEmpty :
    (levels : Levels) (index : ℕ) → AllEmpty levels → AllEmpty (erase_at levels index)
unfolding erase_at
erase_at-AllEmpty [] index h = tt
erase_at-AllEmpty (level ∷ rest) zero h = AllEmpty-snoc rest h.2
erase_at-AllEmpty (level ∷ rest) (suc index) h = (h.0, h.1, erase_at-AllEmpty rest index h.2)

-- Taking a level out keeps a side well-formed.
pub erase_at-IsSide :
    (s : Side) (previous : Option ℤ) (levels : Levels) (index : ℕ)
    → IsSide s previous levels
    → IsSide s previous (erase_at levels index)
unfolding erase_at
erase_at-IsSide s previous [] index h = tt
erase_at-IsSide s previous (level ∷ rest) zero (inl h) =
    IsSide-snoc s previous rest (IsSide-earlier s previous level.price_ticks rest h.2 h.3)
erase_at-IsSide s previous (level ∷ rest) zero (inr h) =
    AllEmpty-IsSide s previous _ (AllEmpty-snoc rest h.2)
erase_at-IsSide s previous (level ∷ rest) (suc index) (inl h) =
    inl (h.0, h.1, h.2, erase_at-IsSide s (some level.price_ticks) rest index h.3)
erase_at-IsSide s previous (level ∷ rest) (suc index) (inr h) =
    inr (erase_at-AllEmpty (level ∷ rest) (suc index) h)
