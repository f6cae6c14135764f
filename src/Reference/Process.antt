-- ===== src/Reference/Process.antt =====
-- What `ReferenceModel::process` of src/reference/reference_model.cpp keeps.
use adaptive_fpga.Prelude.{
  ℕ, ◌+◌, ◌≡◌, ◌≢◌, refl, ap, sym, ◌∙◌, arith, Bool, true, false, List, [], ◌∷◌, All, Bool-cases,
  inl, inr, take, some, none,
}
use adaptive_fpga.Prelude.Int.{ℤ}
use adaptive_fpga.Event.{MarketEvent}
use adaptive_fpga.Book.{OrderBook, ApplyResult, BookError, no_book_error, apply, new_book}
use adaptive_fpga.Book.Changes.{EventFits}
use adaptive_fpga.Book.Outcome.{IsOrderBook}
use adaptive_fpga.Book.Apply.{apply-IsOrderBook, apply_errors, replay, new_book-IsOrderBook}
use adaptive_fpga.Window.{window_size}
use adaptive_fpga.Window.Recent.{IsWindow, recent}
use adaptive_fpga.Window.Sums.{Summed, sum_by, push_lem}
use adaptive_fpga.Features.{midpoint_ticks, calculate_features, evaluate_strategy}
use adaptive_fpga.Features.Vector.{
  IsFeatures, calculate_features-IsFeatures, no_features-IsFeatures,
}
use adaptive_fpga.Reference.{
  ReferenceModel, new_model, midpoint_change, is_no_book_error, observe, process,
}

-- The model between two events.
pub record IsModel (m : ReferenceModel) : Type 0 where
  pub book_valid : IsOrderBook m.book
  pub window_valid : IsWindow m.window
  pub window_summed : Summed m.window
  pub features_valid : IsFeatures m.features

error_not : (e : BookError) → is_no_book_error e ≡ false → e ≢ no_book_error
error_not no_book_error h e = cc
error_not _ h e = cc

accepted :
    (m : ReferenceModel) (event : MarketEvent) (event_index : ℕ)
    → is_no_book_error (apply m.book event).0.error ≡ true
    → process m event event_index ≡ (
      (apply m.book event).0,
      observe m event event_index (apply m.book event).0 (apply m.book event).1,
    )
unfolding process
accepted m event event_index h = rw h refl

rejected :
    (m : ReferenceModel) (event : MarketEvent) (event_index : ℕ)
    → is_no_book_error (apply m.book event).0.error ≡ false
    → process m event event_index ≡ ((apply m.book event).0, m)
unfolding process
rejected m event event_index h = rw h refl

observe-IsModel :
    (m : ReferenceModel) (event : MarketEvent) (event_index : ℕ) (result : ApplyResult)
    (book : OrderBook)
    → IsModel m
    → IsOrderBook book
    → IsModel (observe m event event_index result book)
unfolding observe
observe-IsModel m event event_index result book v b =
    let p =
      push_lem m.window result.order_flow_delta result.trade_flow_delta
        (midpoint_change (midpoint_ticks book.levels) m.prior_midpoint) v.window_valid
        v.window_summed in
    record {
      book_valid = b;
      window_valid = p.1;
      window_summed = p.2;
      features_valid = calculate_features-IsFeatures book.levels _;
    }

process-IsModel :
    (m : ReferenceModel) (event : MarketEvent) (event_index : ℕ)
    → IsModel m
    → EventFits event
    → IsModel (process m event event_index).1
process-IsModel m event event_index v fits =
    elim (Bool-cases (is_no_book_error (apply m.book event).0.error)) [
      | inl good ↦ rw (accepted m event event_index good) (
          observe-IsModel m event event_index _ _ v
            (apply-IsOrderBook m.book event v.book_valid fits))
      | inr bad ↦ rw (rejected m event event_index bad) v
    ]

result-process :
    (m : ReferenceModel) (event : MarketEvent) (event_index : ℕ)
    → (process m event event_index).0 ≡ (apply m.book event).0
unfolding process
result-process m event event_index = refl

-- What an accepted event leaves: the book after it, its measurements in front of the recent entries,
-- features and signal computed from these, and as prior midpoint that of the new book, or the old one
-- where the new book has none.
pub record Observed (m : ReferenceModel) (event : MarketEvent) (event_index : ℕ)
    (m' : ReferenceModel) : Type 0 where
  pub book : m'.book ≡ (apply m.book event).1
  pub entry :
      recent m'.window
      ≡ take window_size (
          record {
            order_flow = (apply m.book event).0.order_flow_delta;
            trade_flow = (apply m.book event).0.trade_flow_delta;
            absolute_midpoint_change =
                midpoint_change (midpoint_ticks m'.book.levels) m.prior_midpoint;
          }
          ∷ recent m.window)
  pub features : m'.features ≡ calculate_features m'.book.levels m'.window
  pub signal : m'.signal ≡ evaluate_strategy event.timestamp_ns event_index m'.features m.parameters
  pub parameters : m'.parameters ≡ m.parameters
  pub new_midpoint :
      (midpoint : ℤ)
      → midpoint_ticks m'.book.levels ≡ some midpoint
      → m'.prior_midpoint ≡ some midpoint
  pub old_midpoint : midpoint_ticks m'.book.levels ≡ none → m'.prior_midpoint ≡ m.prior_midpoint

-- A stream of events, numbered from `event_index` on.
unfoldable pub process_all : ReferenceModel → ℕ → List MarketEvent → ReferenceModel
process_all m event_index [] = m
process_all m event_index (event ∷ events) =
    process_all (process m event event_index).1 (event_index + 1) events

book-process :
    (m : ReferenceModel) (event : MarketEvent) (event_index : ℕ)
    → IsModel m
    → EventFits event
    → (process m event event_index).1.book ≡ (apply m.book event).1
book-process m event event_index v fits =
    elim (Bool-cases (is_no_book_error (apply m.book event).0.error)) [
      | inl good ↦ rw (accepted m event event_index good) (unfold observe in refl)
      | inr bad ↦
          rw (rejected m event event_index bad)
            (sym ((apply_errors m.book event v.book_valid fits).4 (error_not _ bad)))
    ]

process_all-IsModel :
    (m : ReferenceModel) (event_index : ℕ) (events : List MarketEvent)
    → IsModel m
    → All EventFits events
    → IsModel (process_all m event_index events)
      × ((process_all m event_index events).book ≡ replay m.book events)
unfolding process_all replay
process_all-IsModel m event_index [] v fits = (v, refl)
process_all-IsModel m event_index (event ∷ events) v fits =
    let m' = (process m event event_index).1 in
    let rest =
      process_all-IsModel m' (event_index + 1) events (process-IsModel m event event_index v fits.0)
        fits.1 in
    (rest.0, rest.1 ∙ ap (λ t. replay t events) (book-process m event event_index v fits.0))

pub new_model-IsModel :
    (allow : Bool) (buy_threshold sell_threshold : ℤ)
    → IsModel (new_model allow buy_threshold sell_threshold)
unfolding new_model sum_by
new_model-IsModel allow buy_threshold sell_threshold = record {
  book_valid = new_book-IsOrderBook allow;
  window_valid = omega arith;
  window_summed = record { order_flow = refl; trade_flow = refl; motion = refl };
  features_valid = no_features-IsFeatures;
}

-- Over any stream, accepted or not, the model stays valid and its book is that of the order book
-- alone on the same stream.
pub process_all-new_model :
    (allow : Bool) (buy_threshold sell_threshold : ℤ) (events : List MarketEvent)
    → All EventFits events
    → let m = process_all (new_model allow buy_threshold sell_threshold) 0 events in
      IsModel m × (m.book ≡ replay (new_book allow) events)
process_all-new_model allow buy_threshold sell_threshold events fits =
    let rest =
      process_all-IsModel (new_model allow buy_threshold sell_threshold) 0 events
        (new_model-IsModel allow buy_threshold sell_threshold) fits in
    (rest.0, rest.1 ∙ ap (λ t. replay t events) (unfold new_model in refl))
