-- ===== src/Book/Quantity.antt =====
-- A side of the book as a map from prices to quantities, and what the helpers of
-- src/market/order_book.cpp do to that map.
use adaptive_fpga.Prelude.{
  ℕ, ◌<◌, ◌≡◌, ◌≢◌, refl, sym, ◌∙◌, ◌⊎◌, inl, inr, Bool, true, false, [], ◌∷◌, ◌++◌, Option, some,
  arith, length, get_or, set, if◌then◌else◌, ltb, ◌&&◌,
}
use adaptive_fpga.Prelude.Int.{ℤ, ◌==ℤ◌}
use adaptive_fpga.Event.{Side}
use adaptive_fpga.Book.Array.{PriceLevel, Levels, empty_level, before, lookup}
use adaptive_fpga.Book.Prices.{before_trans, before-ne, ==ℤ→≡, ==ℤ_refl}
use adaptive_fpga.Book.Shifts.{erase_at, push_down, insert_at}
use adaptive_fpga.Book.Sides.{AllEmpty, IsSide}
use adaptive_fpga.Book.Lookup.{here_before, here_at, further, lookup-Met, lookup_unused}

-- The quantity at a price, 0 where the price has no level.
unfoldable pub quantity_at : Levels → ℤ → ℕ
quantity_at [] price = 0
quantity_at (level ∷ rest) price =
    if level.price_ticks ==ℤ price then level.quantity else quantity_at rest price

-- The last slot does not hold the price.
abbrev pub NotLast : Levels → ℤ → Type 0
NotLast [] price = Unit {0}
NotLast (level ∷ []) price = level.price_ticks ≢ price
NotLast (level ∷ next ∷ rest) price = NotLast (next ∷ rest) price

NotLast-tail :
    (level : PriceLevel) (rest : Levels) (price : ℤ)
    → NotLast (level ∷ rest) price
    → NotLast rest price
NotLast-tail level [] price h = tt
NotLast-tail level (next ∷ rest) price h = h

quantity_at-AllEmpty :
    (levels : Levels) (price : ℤ) → AllEmpty levels → quantity_at levels price ≡ 0
unfolding quantity_at
quantity_at-AllEmpty [] price h = refl
quantity_at-AllEmpty (level ∷ rest) price h = ground (arith, quantity_at-AllEmpty rest price h.2)

before_behind :
    (s : Side) (price earlier later : ℤ)
    → before s earlier later ≡ true
    → (price ≡ earlier) ⊎ (before s price earlier ≡ true)
    → before s price later ≡ true
before_behind s price earlier later h (inl e) = rw e h
before_behind s price earlier later h (inr b) = before_trans s price earlier later b h

-- No level from the given price on.
quantity_at_behind :
    (s : Side) (price earlier : ℤ) (levels : Levels)
    → IsSide s (some earlier) levels
    → (price ≡ earlier) ⊎ (before s price earlier ≡ true)
    → quantity_at levels price ≡ 0
unfolding quantity_at
quantity_at_behind s price earlier [] h b = refl
quantity_at_behind s price earlier (level ∷ rest) (inl h) b =
    let later = before_behind s price earlier level.price_ticks h.2 b in
    ground (
      arith,
      before-ne s price level.price_ticks later,
      ==ℤ→≡ level.price_ticks price,
      quantity_at_behind s price level.price_ticks rest h.3 (inr later),
    )
quantity_at_behind s price earlier (level ∷ rest) (inr h) b =
    quantity_at-AllEmpty (level ∷ rest) price h

quantity_at_skip :
    (level : PriceLevel) (rest : Levels) (price : ℤ)
    → level.price_ticks ≢ price
    → quantity_at (level ∷ rest) price ≡ quantity_at rest price
unfolding quantity_at
quantity_at_skip level rest price h = ground (arith, ==ℤ→≡ level.price_ticks price)

quantity_at_hit :
    (level : PriceLevel) (rest : Levels) (price : ℤ)
    → level.price_ticks ≡ price
    → quantity_at (level ∷ rest) price ≡ level.quantity
unfolding quantity_at
quantity_at_hit level rest price h = rw (h, ==ℤ_refl price)

-- What the search says of the map: a price that is found has its level at the index, one that is not
-- found has no quantity.
abbrev pub LookupAgrees : Levels → ℤ → Bool × ℕ → Type 0
LookupAgrees levels price (found, index) =
    ((found ≡ true)
      × ((get_or levels index empty_level).price_ticks ≡ price)
      × ((get_or levels index empty_level).quantity ≡ quantity_at levels price)
      × (0 < (get_or levels index empty_level).quantity))
    ⊎ ((found ≡ false) × (quantity_at levels price ≡ 0))

pub lookup-LookupAgrees :
    (s : Side) (previous : Option ℤ) (levels : Levels) (price : ℤ)
    → IsSide s previous levels
    → LookupAgrees levels price (lookup levels s price)
unfolding lookup
lookup-LookupAgrees s previous [] price h = inr (refl, unfold quantity_at in refl)
lookup-LookupAgrees s previous (level ∷ rest) price (inr h) =
    rw (lookup_unused s price level rest h.1)
      (inr (refl, quantity_at-AllEmpty (level ∷ rest) price h))
lookup-LookupAgrees s previous (level ∷ rest) price (inl h) =
    elim (lookup-Met s price level rest h.0) [
      | here_before b e ↦ rw e (
          inr (
            refl,
            quantity_at_skip level rest price (λ p. before-ne s price level.price_ticks b (sym p))
                ∙ quantity_at_behind s price level.price_ticks rest h.3 (inr b),
          ))
      | here_at b e ↦ rw e (inl (refl, b, sym (quantity_at_hit level rest price b), h.0))
      | further b e ↦
          rw (e, quantity_at_skip level rest price (before-ne s level.price_ticks price b))
            (lookup-LookupAgrees s (some level.price_ticks) rest price h.3)
    ]

-- Writing a quantity at the index of a found price updates the map at that price alone.
pub quantity_at-set :
    (s : Side) (previous : Option ℤ) (levels : Levels) (price : ℤ) (quantity : ℕ) (other : ℤ)
    → (lookup levels s price).0 ≡ true
    → IsSide s previous levels
    → let index = (lookup levels s price).1 in
      quantity_at
        (set levels index (record (get_or levels index empty_level) { quantity = quantity }))
        other
      ≡ (if price ==ℤ other then quantity else quantity_at levels other)
unfolding quantity_at
quantity_at-set s previous [] price quantity other f h = absurd (unfold lookup in cc)
quantity_at-set s previous (level ∷ rest) price quantity other f (inr h) =
    absurd (cc (lookup_unused s price level rest h.1))
quantity_at-set s previous (level ∷ rest) price quantity other f (inl h) =
    elim (lookup-Met s price level rest h.0) [
      | here_before b e ↦ absurd (cc)
      | here_at b e ↦ rw e (ground arith)
      | further b e ↦ rw e (
          ground (
            arith,
            before-ne s level.price_ticks price b,
            ==ℤ→≡ price other,
            ==ℤ→≡ level.price_ticks other,
            quantity_at-set s (some level.price_ticks) rest price quantity other (rw e at f) h.3,
          ))
    ]

quantity_at-snoc :
    (levels : Levels) (price : ℤ)
    → quantity_at (levels ++ (empty_level ∷ [])) price ≡ quantity_at levels price
unfolding quantity_at
quantity_at-snoc [] price = ground arith
quantity_at-snoc (level ∷ rest) price = ground (arith, quantity_at-snoc rest price)

-- Removing the level of a found price takes that price alone out of the map.
pub quantity_at-erase_at :
    (s : Side) (previous : Option ℤ) (levels : Levels) (price other : ℤ)
    → (lookup levels s price).0 ≡ true
    → IsSide s previous levels
    → quantity_at (erase_at levels (lookup levels s price).1) other
      ≡ (if price ==ℤ other then 0 else quantity_at levels other)
unfolding quantity_at erase_at
quantity_at-erase_at s previous [] price other f h = absurd (unfold lookup in cc)
quantity_at-erase_at s previous (level ∷ rest) price other f (inr h) =
    absurd (cc (lookup_unused s price level rest h.1))
quantity_at-erase_at s previous (level ∷ rest) price other f (inl h) =
    elim (lookup-Met s price level rest h.0) [
      | here_before b e ↦ absurd (cc)
      | here_at b e ↦ rw e (
          ground (
            arith,
            ==ℤ→≡ price other,
            quantity_at-snoc rest other,
            quantity_at_behind s price level.price_ticks rest h.3 (inl (sym b)),
          ))
      | further b e ↦ rw e (
          ground (
            arith,
            before-ne s level.price_ticks price b,
            ==ℤ→≡ price other,
            ==ℤ→≡ level.price_ticks other,
            quantity_at-erase_at s (some level.price_ticks) rest price other (rw e at f) h.3,
          ))
    ]

quantity_at-push_down :
    (level : PriceLevel) (levels : Levels) (other : ℤ)
    → NotLast (level ∷ levels) other
    → quantity_at (push_down level levels) other ≡ quantity_at (level ∷ levels) other
unfolding quantity_at push_down
quantity_at-push_down level [] other h = ground (arith, ==ℤ→≡ level.price_ticks other)
quantity_at-push_down level (next ∷ rest) other h =
    ground (arith, quantity_at-push_down next rest other h)

-- Inserting a level of a price that is not found updates the map at that price, unless the index is
-- the end of the array, and loses at most the price of the last slot.
pub quantity_at-insert_at :
    (s : Side) (previous : Option ℤ) (levels : Levels) (level : PriceLevel) (other : ℤ)
    → (lookup levels s level.price_ticks).0 ≡ false
    → IsSide s previous levels
    → NotLast levels other
    → let index = (lookup levels s level.price_ticks).1 in
      quantity_at (insert_at levels index level) other ≡ (
        if (level.price_ticks ==ℤ other) && ltb index (length levels)
        then level.quantity
        else quantity_at levels other)
unfolding quantity_at insert_at
quantity_at-insert_at s previous [] level other f h n = ground arith
quantity_at-insert_at s previous (first ∷ rest) level other f (inr h) n =
    rw (lookup_unused s level.price_ticks first rest h.1)
      (ground (arith, quantity_at-push_down first rest other n))
quantity_at-insert_at s previous (first ∷ rest) level other f (inl h) n =
    elim (lookup-Met s level.price_ticks first rest h.0) [
      | here_before b e ↦ rw e (ground (arith, quantity_at-push_down first rest other n))
      | here_at b e ↦ absurd (cc)
      | further b e ↦ rw e (
          ground (
            arith,
            before-ne s first.price_ticks level.price_ticks b,
            ==ℤ→≡ level.price_ticks other,
            ==ℤ→≡ first.price_ticks other,
            quantity_at-insert_at s (some first.price_ticks) rest level other (rw e at f) h.3
                (NotLast-tail first rest other n),
          ))
    ]
