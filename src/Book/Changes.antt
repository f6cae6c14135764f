-- ===== src/Book/Changes.antt =====
-- What an event may make of a side of the book: the specification of the `switch` of
-- `OrderBook::apply` in src/market/order_book.cpp, and what the search tells it.
pub mod Write
pub mod Removal
pub mod Add
use adaptive_fpga.Prelude.{
  ℕ, zero, suc, ◌+◌, ◌-◌, ◌<◌, ◌≤◌, ◌≡◌, ◌≢◌, refl, ap, sym, ◌∙◌, ◌⊎◌, inl, inr, Bool, true, false,
  ◌||◌, ◌==◌, List, [], ◌∷◌, ◌++◌, Option, none, some, arith, length, get_or, set, Bool-cases,
  if◌then◌else◌, ltb, ◌&&◌, min, not, length-set,
}
use adaptive_fpga.Prelude.Int.{neg_ℤ, ℤ, pos, ◌<ℤ◌, ◌==ℤ◌, ◌*ℤ◌, ◌-ℤ◌}
use adaptive_fpga.Event.{
  Side, bid, ask, unknown_side, EventType, add, update, cancel, trade, unknown_type, MarketEvent,
  valid_side,
}
use adaptive_fpga.Event.Validation.{IsValid}
use adaptive_fpga.Book.Array.{
  PriceLevel, Levels, empty_level, before, lookup, remove, insert, saturated_add, max_u32,
}
use adaptive_fpga.Book.Prices.{==ℤ→≡, ==ℤ_refl, before_total, before_asym, before_equal}
use adaptive_fpga.Book.Shifts.{
  erase_at, insert_at, remove-erase_at, insert-insert_at, length-erase_at, length-insert_at,
}
use adaptive_fpga.Book.Sides.{After, AllEmpty, IsSide, erase_at-IsSide}
use adaptive_fpga.Book.Lookup.{lookup_index, insert_at-IsSide, set-IsSide}
use adaptive_fpga.Book.Ranges.{Fits, Fits-set, Fits-get_or, Fits-erase_at, Fits-insert_at}
use adaptive_fpga.Prelude.Words.{IsI32}
use adaptive_fpga.Book.Quantity.{
  quantity_at, NotLast, LookupAgrees, lookup-LookupAgrees, quantity_at-set, quantity_at-erase_at,
  quantity_at-insert_at,
}
use adaptive_fpga.Book.{
  Change, rejected, changed, BookError, missing_price, book_depth, quantity_delta, side_sign,
  add_change, update_change, removal_change, change, trade_flow,
}

-- The quantity that an event makes of an old one.
unfoldable pub new_quantity : EventType → ℕ → ℕ → ℕ
new_quantity add old quantity = min (old + quantity) max_u32
new_quantity update old quantity = quantity
new_quantity cancel old quantity = old - quantity
new_quantity trade old quantity = old - quantity
new_quantity (unknown_type n) old quantity = old

-- Some slot is unused or does not stand before the price: a level of the price is among the visible.
unfoldable pub has_place : Side → Levels → ℤ → Bool
has_place s [] price = false
has_place s (level ∷ rest) price =
    level.quantity == 0 || (not (before s level.price_ticks price) || has_place s rest price)

lookup-has_place :
    (s : Side) (levels : Levels) (price : ℤ)
    → ltb (lookup levels s price).1 (length levels) ≡ has_place s levels price
unfolding lookup has_place
lookup-has_place s [] price = ground arith
lookup-has_place s (level ∷ rest) price = ground (
  arith,
  before_total s price level.price_ticks,
  before_asym s price level.price_ticks,
  before_equal s level.price_ticks price,
  lookup-has_place s rest price,
)

-- A price that has no quantity is not in the last slot.
pub NotLast-of_zero :
    (s : Side) (previous : Option ℤ) (levels : Levels) (price : ℤ)
    → pos 0 <ℤ price
    → IsSide s previous levels
    → quantity_at levels price ≡ 0
    → NotLast levels price
unfolding quantity_at
NotLast-of_zero s previous [] price p h e = tt
NotLast-of_zero s previous (level ∷ []) price p h e = λ same. ground arith
NotLast-of_zero s previous (level ∷ next ∷ rest) price p (inl h) e =
    NotLast-of_zero s (some level.price_ticks) (next ∷ rest) price p h.3 (ground arith)
NotLast-of_zero s previous (level ∷ next ∷ rest) price p (inr h) e =
    NotLast-of_zero s none (next ∷ rest) price p (inr h.2) (ground arith)

-- A trade is aggressive flow of the same amount and sign; no other event is.
abbrev pub trade_part : EventType → ℤ → ℤ
trade_part trade order_flow = order_flow
trade_part add order_flow = pos 0
trade_part update order_flow = pos 0
trade_part cancel order_flow = pos 0
trade_part (unknown_type n) order_flow = pos 0

-- What the accepted change does to the map from prices to quantities. A new price takes its place
-- from the last slot, whose price is left out then.
abbrev pub Updates : EventType → Levels → MarketEvent → Levels → Type 0
Updates type levels event after =
    (other : ℤ)
    → (type ≡ add → quantity_at levels event.price_ticks ≡ 0 → NotLast levels other)
    → quantity_at after other ≡ (
        if (event.price_ticks ==ℤ other) && has_place event.side levels event.price_ticks
        then new_quantity type (quantity_at levels event.price_ticks) event.quantity
        else quantity_at levels other)

-- What an event of the given type may make of a side: nothing, for a price without a level, unless
-- the event adds one; else (for a price that has a level, or an Add) a well-formed side of the same depth with the map updated, and deltas that
-- account for the difference at the event's price.
abbrev pub ChangeOk : EventType → Levels → MarketEvent → Change → Type 0
ChangeOk type levels event (rejected e) =
    (e ≡ missing_price) × (type ≢ add) × (quantity_at levels event.price_ticks ≡ 0)
ChangeOk type levels event (changed after order_flow trade_flow) =
    IsSide event.side none after
    × Fits after
    × (length after ≡ length levels)
    × (type ≢ add → 0 < quantity_at levels event.price_ticks)
    × Updates type levels event after
    × (order_flow
        ≡ side_sign event.side
          *ℤ quantity_delta (quantity_at after event.price_ticks)
              (quantity_at levels event.price_ticks))
    × (trade_flow ≡ trade_part type order_flow)

-- The event's fields as the machine integers that they are.
abbrev pub EventFits : MarketEvent → Type 0
EventFits event = (event.quantity ≤ max_u32) × IsI32 event.price_ticks

-- The facts about the search that each event type needs.
pub record Searched (levels : Levels) (event : MarketEvent) : Type 0 where
  pub ordered : IsSide event.side none levels
  pub known_side : valid_side event.side ≡ true
  pub fits : Fits levels
  pub event_fits : EventFits event
  pub sized : (event.type ≡ update) ⊎ (0 < event.quantity)
  pub priced : pos 0 <ℤ event.price_ticks
  pub agrees : LookupAgrees levels event.price_ticks (lookup levels event.side event.price_ticks)
  pub index_in :
      ((lookup levels event.side event.price_ticks).1 ≤ length levels)
      × ((lookup levels event.side event.price_ticks).0 ≡ true
          → (lookup levels event.side event.price_ticks).1 < length levels)
  pub place :
      ltb (lookup levels event.side event.price_ticks).1 (length levels)
      ≡ has_place event.side levels event.price_ticks

pub searched :
    (levels : Levels) (event : MarketEvent)
    → IsValid event
    → EventFits event
    → Fits levels
    → IsSide event.side none levels
    → Searched levels event
searched levels event valid event_fits fits h = record {
  fits = fits;
  event_fits = event_fits;
  ordered = h;
  known_side = valid.known_side;
  sized = valid.sized;
  priced = valid.priced;
  agrees = lookup-LookupAgrees event.side none levels event.price_ticks h;
  index_in = lookup_index event.side event.price_ticks levels;
  place = lookup-has_place event.side levels event.price_ticks;
}
