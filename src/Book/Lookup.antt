-- ===== src/Book/Lookup.antt =====
-- The search of src/market/order_book.cpp on a well-formed side, and the writes at the index that it
-- finds.
use adaptive_fpga.Prelude.{
  ℕ, ◌<◌, ◌≤◌, ◌≡◌, inl, inr, true, false, [], ◌∷◌, Option, some, arith, length, get_or, set,
  Bool-cases,
}
use adaptive_fpga.Prelude.Int.{ℤ, pos, ◌<ℤ◌, ◌==ℤ◌}
use adaptive_fpga.Event.{Side}
use adaptive_fpga.Book.Array.{PriceLevel, Levels, empty_level, before, lookup, one_further}
use adaptive_fpga.Book.Prices.{before_total, ==ℤ→≡}
use adaptive_fpga.Book.Shifts.{push_down, insert_at}
use adaptive_fpga.Book.Sides.{After, IsSide, push_down-IsSide}

-- The three outcomes of the loop's body at a used level.
pub data Met (s : Side) (price : ℤ) (level : PriceLevel) (rest : Levels) : Type 0 where
  here_before :
      before s price level.price_ticks ≡ true
      → lookup (level ∷ rest) s price ≡ (false, 0)
      → Met s price level rest
  here_at :
      level.price_ticks ≡ price → lookup (level ∷ rest) s price ≡ (true, 0) → Met s price level rest
  further :
      before s level.price_ticks price ≡ true
      → lookup (level ∷ rest) s price ≡ one_further (lookup rest s price)
      → Met s price level rest

pub lookup-Met :
    (s : Side) (price : ℤ) (level : PriceLevel) (rest : Levels)
    → 0 < level.quantity
    → Met s price level rest
unfolding lookup
lookup-Met s price level rest h = elim (Bool-cases (before s price level.price_ticks)) [
  | inl first ↦ here_before first (ground arith)
  | inr second ↦ elim (Bool-cases (level.price_ticks ==ℤ price)) [
    | inl same ↦ here_at (==ℤ→≡ level.price_ticks price same) (ground arith)
    | inr other ↦ further (before_total s price level.price_ticks second other) (ground arith)
  ]
]

pub lookup_unused :
    (s : Side) (price : ℤ) (level : PriceLevel) (rest : Levels)
    → level.quantity ≡ 0
    → lookup (level ∷ rest) s price ≡ (false, 0)
unfolding lookup
lookup_unused s price level rest h = ground arith

-- The index is one of the array, or its end for a price that is not found.
pub lookup_index :
    (s : Side) (price : ℤ) (levels : Levels)
    → ((lookup levels s price).1 ≤ length levels)
      × ((lookup levels s price).0 ≡ true → (lookup levels s price).1 < length levels)
unfolding lookup
lookup_index s price [] = (omega arith, λ h. cc)
lookup_index s price (level ∷ rest) = ground (arith, lookup_index s price rest)

-- Where the price is not found, inserting a level of that price at the index keeps a side
-- well-formed.
pub insert_at-IsSide :
    (s : Side) (previous : Option ℤ) (levels : Levels) (level : PriceLevel)
    → 0 < level.quantity
    → pos 0 <ℤ level.price_ticks
    → After s previous level.price_ticks
    → (lookup levels s level.price_ticks).0 ≡ false
    → IsSide s previous levels
    → IsSide s previous (insert_at levels (lookup levels s level.price_ticks).1 level)
unfolding insert_at push_down
insert_at-IsSide s previous [] level q p a n h = tt
insert_at-IsSide s previous (first ∷ rest) level q p a n (inr h) =
    rw (lookup_unused s level.price_ticks first rest h.1)
      (inl (q, p, a, push_down-IsSide s (some level.price_ticks) first rest (inr h)))
insert_at-IsSide s previous (first ∷ rest) level q p a n (inl h) =
    elim (lookup-Met s level.price_ticks first rest h.0) [
      | here_before b e ↦ rw e (
          inl (
            q,
            p,
            a,
            push_down-IsSide s (some level.price_ticks) first rest (inl (h.0, h.1, b, h.3)),
          ))
      | here_at b e ↦ absurd (cc)
      | further b e ↦ rw e (
          inl (
            h.0,
            h.1,
            h.2,
            insert_at-IsSide s (some first.price_ticks) rest level q p b (rw e at n) h.3,
          ))
    ]

-- Where the price is found, a positive quantity at the index keeps a side well-formed.
pub set-IsSide :
    (s : Side) (previous : Option ℤ) (levels : Levels) (price : ℤ) (quantity : ℕ)
    → 0 < quantity
    → (lookup levels s price).0 ≡ true
    → IsSide s previous levels
    → let index = (lookup levels s price).1 in
      IsSide s previous
        (set levels index (record (get_or levels index empty_level) { quantity = quantity }))
set-IsSide s previous [] price quantity q f h = tt
set-IsSide s previous (first ∷ rest) price quantity q f (inr h) =
    absurd (cc (lookup_unused s price first rest h.1))
set-IsSide s previous (first ∷ rest) price quantity q f (inl h) =
    elim (lookup-Met s price first rest h.0) [
      | here_before b e ↦ absurd (cc)
      | here_at b e ↦ rw e (inl (q, h.1, h.2, h.3))
      | further b e ↦ rw e (
          inl (
            h.0,
            h.1,
            h.2,
            set-IsSide s (some first.price_ticks) rest price quantity q (rw e at f) h.3,
          ))
    ]
