-- ===== src/Book/Outcome.antt =====
-- `OrderBook::apply` in src/market/order_book.cpp: every branch of it on a well-formed book.
use adaptive_fpga.Prelude.{
  ◌≡◌, ◌≢◌, refl, ap, ◌∙◌, inl, inr, Bool, true, false, none, length, Bool-cases,
}
use adaptive_fpga.Event.{
  Side, bid, ask, unknown_side, EventType, add, update, cancel, trade, unknown_type, MarketEvent,
  EventValidationError, no_error, validate_event, valid_type, valid_side,
}
use adaptive_fpga.Event.Validation.{IsValid, validate_event-IsValid}
use adaptive_fpga.Book.Array.{Levels, lookup}
use adaptive_fpga.Book.Sides.{IsSide}
use adaptive_fpga.Book.Ranges.{Fits}
use adaptive_fpga.Book.Checker.{IsBook, invariants-IsBook, invariants_of_sides}
use adaptive_fpga.Book.Quantity.{quantity_at}
use adaptive_fpga.Book.Changes.{ChangeOk, EventFits, Searched, searched}
use adaptive_fpga.Book.Changes.Write.{update-ChangeOk}
use adaptive_fpga.Book.Changes.Removal.{removal-ChangeOk}
use adaptive_fpga.Book.Changes.Add.{add-ChangeOk}
use adaptive_fpga.Book.{
  Change, rejected, changed, no_book_error, invalid_event, missing_price, crossed_book, book_depth,
  change, OrderBook, ApplyResult, failed, side, set_side, commit, apply, is_no_error, is_crossed,
}

-- A book between two events: well-formed, ten levels a side, every field in the range of its type.
pub record IsOrderBook (book : OrderBook) : Type 0 where
  pub well_formed : IsBook book.allow_crossed_books book.levels
  pub bid_depth : length book.levels.bids ≡ book_depth
  pub ask_depth : length book.levels.asks ≡ book_depth
  pub bids_fit : Fits book.levels.bids
  pub asks_fit : Fits book.levels.asks

-- The side that an event does not name.
unfoldable pub other_side : Side → Side
other_side bid = ask
other_side ask = bid
other_side (unknown_side n) = bid

-- The five ways in which `apply` returns.
pub data Outcome (book : OrderBook) (event : MarketEvent) (result : ApplyResult) (after : OrderBook)
    : Type 0 where
  invalid :
      ¬ (IsValid event)
      → result ≡ failed invalid_event
      → after ≡ book
      → Outcome book event result after
  missing :
      IsValid event
      → event.type ≢ add
      → quantity_at (side book.levels event.side) event.price_ticks ≡ 0
      → result ≡ failed missing_price
      → after ≡ book
      → Outcome book event result after
  crossing :
      (levels : Levels)
      → IsValid event
      → ChangeOk event.type
          (side book.levels event.side)
          event
          (changed levels result.order_flow_delta result.trade_flow_delta)
      → book.allow_crossed_books ≡ false
      → is_crossed (set_side book.levels event.side levels) ≡ true
      → result.error ≡ crossed_book
      → after ≡ book
      → Outcome book event result after
  accepted :
      IsValid event
      → ChangeOk event.type
          (side book.levels event.side)
          event
          (changed (side after.levels event.side) result.order_flow_delta result.trade_flow_delta)
      → side after.levels (other_side event.side) ≡ side book.levels (other_side event.side)
      → after.allow_crossed_books ≡ book.allow_crossed_books
      → IsOrderBook after
      → result.error ≡ no_book_error
      → Outcome book event result after

change-ChangeOk :
    (type : EventType) (levels : Levels) (event : MarketEvent)
    → event.type ≡ type
    → valid_type type ≡ true
    → length levels ≡ book_depth
    → Searched levels event
    → let (found, index) = lookup levels event.side event.price_ticks in
      ChangeOk type levels event (change type levels found index event)
unfolding change valid_type
change-ChangeOk add levels event t k d v = add-ChangeOk levels event t d v
change-ChangeOk update levels event t k d v = update-ChangeOk levels event v
change-ChangeOk cancel levels event t k d v = removal-ChangeOk false levels event v
change-ChangeOk trade levels event t k d v = removal-ChangeOk true levels event v
change-ChangeOk (unknown_type n) levels event t k d v = absurd (cc)

-- A side of a book that is replaced by a well-formed one.
record Replaced (book : OrderBook) (s : Side) (levels : Levels) : Type 0 where
  bids_ordered : IsSide bid none (set_side book.levels s levels).bids
  asks_ordered : IsSide ask none (set_side book.levels s levels).asks
  bid_depth : length (set_side book.levels s levels).bids ≡ book_depth
  ask_depth : length (set_side book.levels s levels).asks ≡ book_depth
  bids_fit : Fits (set_side book.levels s levels).bids
  asks_fit : Fits (set_side book.levels s levels).asks
  own : side (set_side book.levels s levels) s ≡ levels
  other : side (set_side book.levels s levels) (other_side s) ≡ side book.levels (other_side s)

replaced :
    (s : Side) (book : OrderBook) (levels : Levels)
    → valid_side s ≡ true
    → IsOrderBook book
    → IsSide s none levels
    → Fits levels
    → length levels ≡ book_depth
    → Replaced book s levels
unfolding set_side side other_side valid_side
replaced bid book levels k v h f d = record {
  bids_ordered = h;
  asks_ordered = v.well_formed.asks_ordered;
  bid_depth = d;
  ask_depth = v.ask_depth;
  bids_fit = f;
  asks_fit = v.asks_fit;
  own = refl;
  other = refl;
}
replaced ask book levels k v h f d = record {
  bids_ordered = v.well_formed.bids_ordered;
  asks_ordered = h;
  bid_depth = v.bid_depth;
  ask_depth = d;
  bids_fit = v.bids_fit;
  asks_fit = f;
  own = refl;
  other = refl;
}
replaced (unknown_side n) book levels k v h f d = absurd (cc)

-- The end of `apply` on a change that is as the event type wants it.
commit-Outcome :
    (book : OrderBook) (event : MarketEvent) (c : Change)
    → IsOrderBook book
    → IsValid event
    → length (side book.levels event.side) ≡ book_depth
    → ChangeOk event.type (side book.levels event.side) event c
    → Outcome book event (commit book event.side c).0 (commit book event.side c).1
unfolding commit
commit-Outcome book event (rejected e) v valid d ok = missing valid ok.1 ok.2 (ap failed ok.0) refl
commit-Outcome book event (changed levels order_flow flow) v valid d ok =
    let r = replaced event.side book levels valid.known_side v ok.0 ok.1 (ok.2 ∙ d) in
    elim (invariants_of_sides book.allow_crossed_books (set_side book.levels event.side levels)
      r.bids_ordered r.asks_ordered) [
        | inl e ↦ rw e (
            accepted valid (rw r.own ok) r.other refl
              (record {
                well_formed = (invariants-IsBook book.allow_crossed_books _).0 e;
                bid_depth = r.bid_depth;
                ask_depth = r.ask_depth;
                bids_fit = r.bids_fit;
                asks_fit = r.asks_fit;
              })
              refl)
        | inr e ↦ rw e.0 (crossing levels valid ok e.1 e.2 refl refl)
      ]

side-depth :
    (s : Side) (book : OrderBook) → IsOrderBook book → length (side book.levels s) ≡ book_depth
unfolding side
side-depth bid book v = v.bid_depth
side-depth ask book v = v.ask_depth
side-depth (unknown_side n) book v = v.ask_depth

side-IsSide :
    (s : Side) (book : OrderBook)
    → valid_side s ≡ true
    → IsOrderBook book
    → IsSide s none (side book.levels s) × Fits (side book.levels s)
unfolding side valid_side
side-IsSide bid book k v = (v.well_formed.bids_ordered, v.bids_fit)
side-IsSide ask book k v = (v.well_formed.asks_ordered, v.asks_fit)
side-IsSide (unknown_side n) book k v = absurd (cc)

is_no_error→ : (e : EventValidationError) → is_no_error e ≡ true → e ≡ no_error
is_no_error→ no_error h = refl
is_no_error→ _ h = cc

is_no_error← : (e : EventValidationError) → e ≡ no_error → is_no_error e ≡ true
is_no_error← e h = rw h refl

apply-valid :
    (book : OrderBook) (event : MarketEvent)
    → is_no_error (validate_event event) ≡ true
    → let levels = side book.levels event.side in
      let (found, index) = lookup levels event.side event.price_ticks in
      apply book event ≡ commit book event.side (change event.type levels found index event)
unfolding apply
apply-valid book event h = rw h refl

apply-invalid :
    (book : OrderBook) (event : MarketEvent)
    → is_no_error (validate_event event) ≡ false
    → apply book event ≡ (failed invalid_event, book)
unfolding apply
apply-invalid book event h = rw h refl

absurd_test : {b : Bool} → b ≡ false → b ≡ true → ⊥
absurd_test p q = cc

-- On a book between two events, `apply` returns in one of the ways that `Outcome` lists.
pub apply-Outcome :
    (book : OrderBook) (event : MarketEvent)
    → IsOrderBook book
    → EventFits event
    → Outcome book event (apply book event).0 (apply book event).1
apply-Outcome book event v fits = elim (Bool-cases (is_no_error (validate_event event))) [
  | inl good ↦
      let valid = (validate_event-IsValid event).0 (is_no_error→ (validate_event event) good) in
      let s = side-IsSide event.side book valid.known_side v in
      let d = side-depth event.side book v in
      rw (apply-valid book event good) (
        commit-Outcome book event _ v valid d (
          change-ChangeOk event.type (side book.levels event.side) event refl valid.known_type d
            (searched (side book.levels event.side) event valid fits s.1 s.0)))
  | inr bad ↦ rw (apply-invalid book event bad) (
      invalid (λ valid. absurd_test bad (is_no_error← _ ((validate_event-IsValid event).1 valid)))
        refl refl)
]
