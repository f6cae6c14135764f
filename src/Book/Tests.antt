-- ===== src/Book/Tests.antt =====
-- Runs of the order book of src/market/order_book.cpp, and its theorems at concrete books.
use adaptive_fpga.Prelude.{ℕ, ◌≡◌, ◌≢◌, ◌↔◌, refl, arith, List, [], ◌∷◌, false, true, ◌⊎◌, ◌<◌}
use adaptive_fpga.Prelude.Int.{pos, ◌*ℤ◌, ◌-ℤ◌}
use adaptive_fpga.Event.{
  EventType, Side, MarketEvent, add, update, cancel, trade, bid, ask, validate_event,
}
use adaptive_fpga.Event.Validation.{IsValid}
use adaptive_fpga.Book.Array.{Levels, empty_level, before, lookup, remove, insert, saturated_add}
use adaptive_fpga.Book.Checker.{IsUncrossed, IsBook, invariants-IsBook}
use adaptive_fpga.Book.Quantity.{quantity_at}
use adaptive_fpga.Book.Outcome.{IsOrderBook}
use adaptive_fpga.Book.Apply.{
  Effect, WouldCross, replay, apply-IsOrderBook, apply_errors, apply-Effect, replay-new_book,
  new_book-IsOrderBook,
}
use adaptive_fpga.Book.{
  OrderBook, no_book_error, invalid_event, missing_price, crossed_book, invariant_violation,
  new_book, apply, side, invariants, check_levels, valid_book, check_invariants, empty_snapshot,
  add_change, update_change, removal_change,
}

abbrev event_of : EventType → Side → ℕ → ℕ → MarketEvent
event_of type s price quantity = record {
  timestamp_ns = 0;
  type = type;
  side = s;
  price_ticks = pos price;
  quantity = quantity;
}

abbrev stream : List MarketEvent
stream =
    event_of add bid 99 5
    ∷ event_of add bid 101 7
    ∷ event_of add ask 103 4
    ∷ event_of trade bid 101 9
    ∷ event_of add ask 98 1
    ∷ event_of update bid 99 0
    ∷ []

-- One bid at 99 and one ask at 103 before the crossing Add and the final Update.
quoted :
    (quantity_at (replay (new_book false) stream).levels.bids (pos 99) ≡ 0)
    × (quantity_at (replay (new_book false) stream).levels.bids (pos 101) ≡ 0)
    × (quantity_at (replay (new_book false) stream).levels.asks (pos 103) ≡ 4)
    × (quantity_at (replay (new_book false) stream).levels.asks (pos 98) ≡ 0)
unfolding replay apply quantity_at add_change update_change removal_change lookup before remove
    insert saturated_add validate_event invariants check_levels ◌*ℤ◌ ◌-ℤ◌
quoted = (refl, refl, refl, refl)

-- A book with a bid of 5 at 99.
abbrev one_bid : OrderBook
one_bid = (apply (new_book false) (event_of add bid 99 5)).1

one_bid-IsOrderBook : IsOrderBook one_bid
one_bid-IsOrderBook =
    apply-IsOrderBook (new_book false) (event_of add bid 99 5) (new_book-IsOrderBook false)
      (omega arith)

apply-IsOrderBook_example : IsOrderBook (apply one_bid (event_of trade bid 99 2)).1
apply-IsOrderBook_example =
    apply-IsOrderBook one_bid (event_of trade bid 99 2) one_bid-IsOrderBook (omega arith)

apply_errors_example :
    let (result, after) = apply one_bid (event_of cancel bid 98 1) in
    ((result.error ≡ invalid_event) ↔ ¬ (IsValid (event_of cancel bid 98 1)))
    × ((result.error ≡ missing_price) ↔ (
        IsValid (event_of cancel bid 98 1)
        × (cancel ≢ add)
        × (quantity_at (side one_bid.levels bid) (pos 98) ≡ 0)))
    × (result.error ≡ crossed_book
        → (one_bid.allow_crossed_books ≡ false)
          × WouldCross one_bid (event_of cancel bid 98 1) result)
    × (result.error ≢ invariant_violation)
    × (result.error ≢ no_book_error → after ≡ one_bid)
    × (result.error ≡ no_book_error
        → IsValid (event_of cancel bid 98 1)
          × ((cancel ≡ add) ⊎ (0 < quantity_at (side one_bid.levels bid) (pos 98)))
          × ((one_bid.allow_crossed_books ≡ true) ⊎ IsUncrossed after.levels))
    × (IsValid (event_of cancel bid 98 1)
        → ((cancel ≡ add) ⊎ (0 < quantity_at (side one_bid.levels bid) (pos 98)))
        → ((one_bid.allow_crossed_books ≡ true)
            ⊎ (¬ (WouldCross one_bid (event_of cancel bid 98 1) result)))
        → result.error ≡ no_book_error)
apply_errors_example =
    apply_errors one_bid (event_of cancel bid 98 1) one_bid-IsOrderBook (omega arith)

accepts : (apply one_bid (event_of trade bid 99 2)).0.error ≡ no_book_error
unfolding apply add_change removal_change lookup before remove insert saturated_add validate_event
    invariants check_levels ◌*ℤ◌ ◌-ℤ◌
accepts = refl

apply-Effect_example :
    Effect one_bid
      (event_of trade bid 99 2)
      (apply one_bid (event_of trade bid 99 2)).0
      (apply one_bid (event_of trade bid 99 2)).1
apply-Effect_example =
    apply-Effect one_bid (event_of trade bid 99 2) one_bid-IsOrderBook (omega arith) accepts

replay-new_book_example :
    IsOrderBook (replay (new_book false) stream)
    × (check_invariants (replay (new_book false) stream) ≡ valid_book)
replay-new_book_example = replay-new_book false stream (omega arith)

invariants-IsBook_example :
    (invariants empty_snapshot false ≡ valid_book) ↔ IsBook false empty_snapshot
invariants-IsBook_example = invariants-IsBook false empty_snapshot

abbrev three_levels : Levels
three_levels =
    record { price_ticks = pos 9; quantity = 1 }
    ∷ record { price_ticks = pos 8; quantity = 2 }
    ∷ empty_level
    ∷ []
