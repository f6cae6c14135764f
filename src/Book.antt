-- ===== src/Book.antt =====
-- include/market/order_book.hpp and the order book of src/market/order_book.cpp: ten aggregated price
-- levels on each side, and the four event types on them. A std::array is a list of that length.
pub mod Array
pub mod Prices
pub mod Shifts
pub mod Checker
pub mod Sides
pub mod Lookup
pub mod Quantity
pub mod Ranges
pub mod Changes
pub mod Outcome
pub mod Apply
mod Tests
use Prim.Native.String.{String}
use adaptive_fpga.Prelude.{
  ℕ, zero, suc, ◌+◌, ◌-◌, min, Bool, true, false, not, ◌&&◌, ◌||◌, ◌==◌, List, [], ◌∷◌, Option,
  none, some, ltb, leb, if◌then◌else◌, length, get_or, set, replicate,
}
use adaptive_fpga.Prelude.Int.{ℤ, pos, neg_ℤ, ◌+ℤ◌, ◌-ℤ◌, ◌*ℤ◌, ltb_ℤ, leb_ℤ, ◌==ℤ◌}
use adaptive_fpga.Event.{
  EventType, add, update, cancel, trade, unknown_type, Side, bid, ask, unknown_side, MarketEvent,
  EventValidationError, no_error, invalid_event_type, invalid_side, non_positive_price,
  zero_quantity, validate_event,
}
use Array.{PriceLevel, Levels, empty_level, before, lookup, remove, insert, saturated_add}

abbrev pub book_depth : ℕ
book_depth = 10

pub record BookSnapshot : Type 0 where
  pub bids : Levels
  pub asks : Levels

pub data BookError : Type 0 where
  no_book_error invalid_event missing_price crossed_book invariant_violation : BookError

pub record ApplyResult : Type 0 where
  pub error : BookError
  pub order_flow_delta : ℤ
  pub trade_flow_delta : ℤ

-- `levels_` and `allow_crossed_books_`.
pub record OrderBook : Type 0 where
  pub levels : BookSnapshot
  pub allow_crossed_books : Bool

abbrev pub empty_snapshot : BookSnapshot
empty_snapshot = record {
  bids = replicate book_depth empty_level;
  asks = replicate book_depth empty_level;
}

abbrev pub new_book : Bool → OrderBook
new_book allow = record { levels = empty_snapshot; allow_crossed_books = allow }

-- `side(book, value)`: every value but Bid selects the asks. It is read, and written.
unfoldable pub side : BookSnapshot → Side → Levels
side book bid = book.bids
side book ask = book.asks
side book (unknown_side n) = book.asks

unfoldable pub set_side : BookSnapshot → Side → Levels → BookSnapshot
set_side book bid levels = record book { bids = levels }
set_side book ask levels = record book { asks = levels }
set_side book (unknown_side n) levels = record book { asks = levels }

unfoldable pub side_sign : Side → ℤ
side_sign bid = pos 1
side_sign ask = neg_ℤ (pos 1)
side_sign (unknown_side n) = neg_ℤ (pos 1)

-- The messages of `invariants`; the empty string is `valid_book`.
pub data InvariantReport : Type 0 where
  valid_book unused_level_has_price used_follows_unused non_positive_level_price : InvariantReport
  bids_not_descending asks_not_ascending book_is_crossed : InvariantReport

unfoldable pub order_report : Side → InvariantReport
order_report bid = bids_not_descending
order_report ask = asks_not_ascending
order_report (unknown_side n) = asks_not_ascending

-- `index > 0 && levels[index - 1].quantity != 0 && !before(levels[index - 1], level)`
unfoldable pub out_of_order : Side → Option PriceLevel → PriceLevel → Bool
out_of_order s none level = false
out_of_order s (some previous) level =
    not (previous.quantity == 0) && not (before s previous.price_ticks level.price_ticks)

-- The loop over one side, from the level after `previous` on, with the loop's flag `saw_empty`.
unfoldable pub check_levels : Side → Option PriceLevel → Bool → Levels → InvariantReport
unfolding out_of_order order_report
check_levels s previous saw_empty [] = valid_book
check_levels s previous saw_empty (level ∷ rest) =
    let after_unused = check_levels s (some level) true rest in
    let after_used = check_levels s (some level) saw_empty rest in
    if level.quantity == 0
    then (if not (level.price_ticks ==ℤ pos 0) then unused_level_has_price else after_unused)
    else if saw_empty
    then used_follows_unused
    else if leb_ℤ level.price_ticks (pos 0)
    then non_positive_level_price
    else if out_of_order s previous level
    then order_report s
    else after_used

unfoldable pub is_valid : InvariantReport → Bool
is_valid valid_book = true
is_valid r = false

-- `book.bids[0]` and `book.asks[0]` are used, and the bid is not below the ask.
unfoldable pub is_crossed : BookSnapshot → Bool
is_crossed book =
    not (best_bid.quantity == 0)
    && (not (best_ask.quantity == 0) && leb_ℤ best_ask.price_ticks best_bid.price_ticks)
  where
    best_bid : PriceLevel
    best_bid = get_or book.bids 0 empty_level

    best_ask : PriceLevel
    best_ask = get_or book.asks 0 empty_level

-- `invariants(book, allow_crossed)`: the bids, the asks, then the spread.
unfoldable pub invariants : BookSnapshot → Bool → InvariantReport
unfolding is_valid is_crossed
invariants book allow_crossed =
    let bid_report = check_levels bid none false book.bids in
    let ask_report = check_levels ask none false book.asks in
    if not (is_valid bid_report)
    then bid_report
    else if not (is_valid ask_report)
    then ask_report
    else if not allow_crossed && is_crossed book
    then book_is_crossed
    else valid_book

-- What the `switch` of `apply` makes of the selected levels: an early return, or new levels with the
-- two deltas.
pub data Change : Type 0 where
  rejected : BookError → Change
  changed : Levels → ℤ → ℤ → Change

-- The flow delta of a quantity that becomes another one, before it is signed by the side.
abbrev pub quantity_delta : ℕ → ℕ → ℤ
quantity_delta new old = pos new -ℤ pos old

unfoldable pub add_change : Levels → Bool → ℕ → MarketEvent → Change
unfolding side_sign
add_change levels found index event =
    if found
    then changed (set levels index (record level { quantity = total }))
        (side_sign event.side *ℤ pos (total - level.quantity)) (pos 0)
    else changed
        (insert levels index
          (record { price_ticks = event.price_ticks; quantity = event.quantity }))
        (if ltb index book_depth then side_sign event.side *ℤ pos event.quantity else pos 0) (pos 0)
  where
    level : PriceLevel
    level = get_or levels index empty_level

    total : ℕ
    total = saturated_add level.quantity event.quantity

unfoldable pub update_change : Levels → Bool → ℕ → MarketEvent → Change
unfolding side_sign
update_change levels found index event =
    if not found
    then rejected missing_price
    else changed
        (if event.quantity == 0
          then remove levels index
          else set levels index (record level { quantity = event.quantity }))
        (side_sign event.side *ℤ quantity_delta event.quantity level.quantity) (pos 0)
  where
    level : PriceLevel
    level = get_or levels index empty_level

-- `event.side == Side::Ask ? removed : -removed`
unfoldable pub trade_flow : Side → ℕ → ℤ
trade_flow ask removed = pos removed
trade_flow bid removed = neg_ℤ (pos removed)
trade_flow (unknown_side n) removed = neg_ℤ (pos removed)

-- Cancel and Trade; `is_trade` is the test `event.type == EventType::Trade`.
unfoldable pub removal_change : Bool → Levels → Bool → ℕ → MarketEvent → Change
unfolding side_sign trade_flow
removal_change is_trade levels found index event =
    if not found
    then rejected missing_price
    else changed (if left == 0 then remove reduced index else reduced)
        (neg_ℤ (side_sign event.side) *ℤ pos removed)
        (if is_trade then trade_flow event.side removed else pos 0)
  where
    level : PriceLevel
    level = get_or levels index empty_level

    removed : ℕ
    removed = min level.quantity event.quantity

    left : ℕ
    left = level.quantity - removed

    reduced : Levels
    reduced = set levels index (record level { quantity = left })

unfoldable pub change : EventType → Levels → Bool → ℕ → MarketEvent → Change
change add = add_change
change update = update_change
change cancel = removal_change false
change trade = removal_change true
change (unknown_type n) = λ levels found index event. rejected invalid_event

abbrev pub failed : BookError → ApplyResult
failed e = record { error = e; order_flow_delta = pos 0; trade_flow_delta = pos 0 }

-- `invariant_error == "book is crossed" ? CrossedBook : InvariantViolation`
unfoldable pub error_of_report : InvariantReport → BookError
error_of_report valid_book = no_book_error
error_of_report book_is_crossed = crossed_book
error_of_report r = invariant_violation

-- The end of `apply`: the candidate replaces the book only if it passes the check.
unfoldable pub commit : OrderBook → Side → Change → ApplyResult × OrderBook
unfolding set_side error_of_report is_valid
commit book s (rejected e) = (failed e, book)
commit book s (changed levels order_flow trade_flow) = (
  record {
    error = error_of_report report;
    order_flow_delta = order_flow;
    trade_flow_delta = trade_flow;
  },
  if is_valid report then record book { levels = candidate } else book,
)
  where
    candidate : BookSnapshot
    candidate = set_side book.levels s levels

    report : InvariantReport
    report = invariants candidate book.allow_crossed_books

abbrev pub is_no_error : EventValidationError → Bool
is_no_error no_error = true
is_no_error e = false

unfoldable pub apply : OrderBook → MarketEvent → ApplyResult × OrderBook
unfolding side commit change
apply book event =
    let levels = side book.levels event.side in
    let (found, index) = lookup levels event.side event.price_ticks in
    if not (is_no_error (validate_event event))
    then (failed invalid_event, book)
    else commit book event.side (change event.type levels found index event)

-- `check_invariants`
unfoldable pub check_invariants : OrderBook → InvariantReport
check_invariants book = invariants book.levels book.allow_crossed_books

-- `to_string(BookError)`
unfoldable pub error_to_string : BookError → String
error_to_string no_book_error = "no book error"
error_to_string invalid_event = "invalid event"
error_to_string missing_price = "event refers to a missing price"
error_to_string crossed_book = "event would cross the book"
error_to_string invariant_violation = "order-book invariant violation"
