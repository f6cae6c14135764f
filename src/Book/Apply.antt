-- ===== src/Book/Apply.antt =====
-- What `OrderBook::apply` in src/market/order_book.cpp guarantees.
use adaptive_fpga.Prelude.{
  ◌⊎◌, inl, inr, sym, ℕ, ◌<◌, ◌≡◌, ◌≢◌, ◌↔◌, refl, ap, Bool, true, false, List, [], ◌∷◌, arith, All,
}
use adaptive_fpga.Event.{add, EventType, MarketEvent}
use adaptive_fpga.Event.Validation.{IsValid}
use adaptive_fpga.Prelude.Int.{◌*ℤ◌}
use adaptive_fpga.Book.Quantity.{quantity_at}
use adaptive_fpga.Book.Changes.{ChangeOk, EventFits, Updates, trade_part}
use adaptive_fpga.Book.Array.{Levels}
use adaptive_fpga.Book.Checker.{IsUncrossed, is_crossed-IsUncrossed, invariants-IsBook}
use adaptive_fpga.Book.Outcome.{
  IsOrderBook, Outcome, invalid, missing, crossing, accepted, apply-Outcome, other_side,
}
use adaptive_fpga.Book.{
  BookSnapshot, changed, set_side, is_crossed, BookError, no_book_error, invalid_event,
  missing_price, crossed_book, invariant_violation, OrderBook, ApplyResult, side, apply, new_book,
  quantity_delta, side_sign, invariants, check_levels, valid_book, check_invariants,
}

Outcome-IsOrderBook :
    {book : OrderBook} {event : MarketEvent} {result : ApplyResult} {after : OrderBook}
    → IsOrderBook book
    → Outcome book event result after
    → IsOrderBook after
Outcome-IsOrderBook v (invalid n r e) = rw e v
Outcome-IsOrderBook v (missing valid t q r e) = rw e v
Outcome-IsOrderBook v (crossing levels valid ok a c r e) = rw e v
Outcome-IsOrderBook v (accepted valid ok o a after r) = after

-- Whatever the event, `apply` leaves a book between events as one: both sides sorted and contiguous,
-- ten levels each, every quantity a uint32_t, and no crossed spread unless that is allowed.
pub apply-IsOrderBook :
    (book : OrderBook) (event : MarketEvent)
    → IsOrderBook book
    → EventFits event
    → IsOrderBook (apply book event).1
apply-IsOrderBook book event v fits = Outcome-IsOrderBook v (apply-Outcome book event v fits)

abbrev error_of : ApplyResult → BookError
error_of result = result.error

positive_not_zero : {n : ℕ} → 0 < n → n ≡ 0 → ⊥
positive_not_zero p e = omega arith

new_book_valid : (allow : Bool) → invariants (new_book allow).levels allow ≡ valid_book
unfolding invariants check_levels
new_book_valid true = refl
new_book_valid false = refl

-- The sides that the event makes, with the deltas reported, have a best bid that is not below the best ask.
abbrev pub WouldCross : OrderBook → MarketEvent → ApplyResult → Type 0
WouldCross book event result =
    (levels : Levels) × ChangeOk event.type (side book.levels event.side) event
      (changed levels result.order_flow_delta result.trade_flow_delta)
    × (¬ (IsUncrossed (set_side book.levels event.side levels)))

would_cross : (book : BookSnapshot) → is_crossed book ≡ true → ¬ (IsUncrossed book)
would_cross book c u = absurd_test ((is_crossed-IsUncrossed book).1 u) c
  where
    absurd_test : {b : Bool} → b ≡ false → b ≡ true → ⊥
    absurd_test p q = cc

is_add : (type : EventType) → (type ≡ add) ⊎ (type ≢ add)
is_add add = inl refl
is_add _ = inr (λ e. cc)

add_or_present : {type : EventType} {n : ℕ} → (type ≢ add → 0 < n) → (type ≡ add) ⊎ (0 < n)
add_or_present {type} h = elim (is_add type) [ inl e ↦ inl e | inr e ↦ inr (h e) ]

neither : {type : EventType} {n : ℕ} → type ≢ add → n ≡ 0 → ¬ ((type ≡ add) ⊎ (0 < n))
neither t q (inl e) = t e
neither t q (inr p) = positive_not_zero p q

excluded : {W : Type 0} {allowed : Bool} → allowed ≡ false → W → ¬ ((allowed ≡ true) ⊎ (¬ W))
excluded a w (inl e) = cc
excluded a w (inr n) = n w

Outcome-errors :
    {book : OrderBook} {event : MarketEvent} {result : ApplyResult} {after : OrderBook}
    → Outcome book event result after
    → ((result.error ≡ invalid_event) ↔ ¬ (IsValid event))
      × ((result.error ≡ missing_price) ↔ (
          IsValid event
          × (event.type ≢ add)
          × (quantity_at (side book.levels event.side) event.price_ticks ≡ 0)))
      × (result.error ≡ crossed_book
          → (book.allow_crossed_books ≡ false) × WouldCross book event result)
      × (result.error ≢ invariant_violation)
      × (result.error ≢ no_book_error → after ≡ book)
      × (result.error ≡ no_book_error
          → IsValid event
            × ((event.type ≡ add)
                ⊎ (0 < quantity_at (side book.levels event.side) event.price_ticks))
            × ((book.allow_crossed_books ≡ true) ⊎ IsUncrossed after.levels))
      × (IsValid event
          → ((event.type ≡ add) ⊎ (0 < quantity_at (side book.levels event.side) event.price_ticks))
          → ((book.allow_crossed_books ≡ true) ⊎ (¬ (WouldCross book event result)))
          → result.error ≡ no_book_error)
Outcome-errors (invalid n r e) = (
  (λ _. n, λ _. ap error_of r),
  (λ h. absurd (cc), λ h. absurd (n h.0)),
  λ h. absurd (cc),
  λ h. cc,
  λ _. e,
  λ h. absurd (cc),
  λ valid p c. absurd (n valid),
)
Outcome-errors (missing valid t q r e) = (
  (λ h. absurd (cc), λ n. absurd (n valid)),
  (λ _. (valid, t, q), λ _. ap error_of r),
  λ h. absurd (cc),
  λ h. cc,
  λ _. e,
  λ h. absurd (cc),
  λ valid' p c. absurd (neither t q p),
)
Outcome-errors (crossing levels valid ok a c r e) = (
  (λ h. absurd (cc), λ n. absurd (n valid)),
  (λ h. absurd (cc), λ h. absurd (positive_not_zero (ok.3 h.1) h.2)),
  λ _. (a, (levels, ok, would_cross _ c)),
  λ h. cc,
  λ _. e,
  λ h. absurd (cc),
  λ valid' p c'. absurd (excluded a (levels, ok, would_cross _ c) c'),
)
Outcome-errors (accepted valid ok o allowed after r) = (
  (λ h. absurd (cc), λ n. absurd (n valid)),
  (λ h. absurd (cc), λ h. absurd (positive_not_zero (ok.3 h.1) h.2)),
  λ h. absurd (cc),
  λ h. cc,
  λ h. absurd (h r),
  λ _. (valid, add_or_present ok.3, rw (sym allowed) after.well_formed.spread),
  λ valid' p c. r,
)

-- The errors of `apply`: InvalidEvent exactly for an event that is not valid; MissingPrice exactly for a
-- valid Update, Cancel or Trade at a price without quantity; CrossedBook only where crossed books are not
-- allowed and the side that the event makes would leave a crossed spread; InvariantViolation never. With any
-- error the book is what it was. Without one the event is valid, an Add or at a price with quantity, and the
-- spread after it is not crossed unless that is allowed; and a valid event that is an Add or at a price with
-- quantity meets no error if crossed books are allowed or it would leave none.
pub apply_errors :
    (book : OrderBook) (event : MarketEvent)
    → IsOrderBook book
    → EventFits event
    → let (result, after) = apply book event in
      ((result.error ≡ invalid_event) ↔ ¬ (IsValid event))
      × ((result.error ≡ missing_price) ↔ (
          IsValid event
          × (event.type ≢ add)
          × (quantity_at (side book.levels event.side) event.price_ticks ≡ 0)))
      × (result.error ≡ crossed_book
          → (book.allow_crossed_books ≡ false) × WouldCross book event result)
      × (result.error ≢ invariant_violation)
      × (result.error ≢ no_book_error → after ≡ book)
      × (result.error ≡ no_book_error
          → IsValid event
            × ((event.type ≡ add)
                ⊎ (0 < quantity_at (side book.levels event.side) event.price_ticks))
            × ((book.allow_crossed_books ≡ true) ⊎ IsUncrossed after.levels))
      × (IsValid event
          → ((event.type ≡ add) ⊎ (0 < quantity_at (side book.levels event.side) event.price_ticks))
          → ((book.allow_crossed_books ≡ true) ⊎ (¬ (WouldCross book event result)))
          → result.error ≡ no_book_error)
apply_errors book event v fits = Outcome-errors (apply-Outcome book event v fits)

-- What an accepted event does.
abbrev pub Effect : OrderBook → MarketEvent → ApplyResult → OrderBook → Type 0
Effect book event result after =
    Updates event.type (side book.levels event.side) event (side after.levels event.side)
    × (side after.levels (other_side event.side) ≡ side book.levels (other_side event.side))
    × (result.order_flow_delta
        ≡ side_sign event.side
          *ℤ quantity_delta (quantity_at (side after.levels event.side) event.price_ticks)
              (quantity_at (side book.levels event.side) event.price_ticks))
    × (result.trade_flow_delta ≡ trade_part event.type result.order_flow_delta)

Outcome-Effect :
    {book : OrderBook} {event : MarketEvent} {result : ApplyResult} {after : OrderBook}
    → Outcome book event result after
    → result.error ≡ no_book_error
    → Effect book event result after
Outcome-Effect (invalid n r e) h = absurd (cc)
Outcome-Effect (missing valid t q r e) h = absurd (cc)
Outcome-Effect (crossing levels valid ok a c r e) h = absurd (cc)
Outcome-Effect (accepted valid ok o a after r) h = (ok.4, o, ok.5, ok.6)

-- An accepted event updates the quantities of its side at its own price alone, as `new_quantity` of
-- its type says (an Add of a new price may push the last level out of the ten), leaves the other side
-- as it was, and reports the signed difference of quantity as order flow, and for a Trade as trade
-- flow.
pub apply-Effect :
    (book : OrderBook) (event : MarketEvent)
    → IsOrderBook book
    → EventFits event
    → (apply book event).0.error ≡ no_book_error
    → Effect book event (apply book event).0 (apply book event).1
apply-Effect book event v fits h = Outcome-Effect (apply-Outcome book event v fits) h

pub new_book-IsOrderBook : (allow : Bool) → IsOrderBook (new_book allow)
new_book-IsOrderBook allow = record {
  well_formed = (invariants-IsBook allow (new_book allow).levels).0 (new_book_valid allow);
  bid_depth = refl;
  ask_depth = refl;
  bids_fit = omega arith;
  asks_fit = omega arith;
}

-- The events of a stream, in order.
unfoldable pub replay : OrderBook → List MarketEvent → OrderBook
replay book [] = book
replay book (event ∷ events) = replay (apply book event).1 events

replay-IsOrderBook :
    (book : OrderBook) (events : List MarketEvent)
    → IsOrderBook book
    → All EventFits events
    → IsOrderBook (replay book events)
unfolding replay
replay-IsOrderBook book [] v fits = v
replay-IsOrderBook book (event ∷ events) v fits =
    replay-IsOrderBook (apply book event).1 events (apply-IsOrderBook book event v fits.0) fits.1

-- Whatever stream of events a new book is given, valid or not, it is a well-formed book after it,
-- and `check_invariants` finds nothing.
pub replay-new_book :
    (allow : Bool) (events : List MarketEvent)
    → All EventFits events
    → IsOrderBook (replay (new_book allow) events)
      × (check_invariants (replay (new_book allow) events) ≡ valid_book)
unfolding check_invariants
replay-new_book allow events fits =
    let v = replay-IsOrderBook (new_book allow) events (new_book-IsOrderBook allow) fits in
    (v, (invariants-IsBook _ _).1 v.well_formed)
