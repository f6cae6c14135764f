-- ===== src/Reference.antt =====
-- src/reference/reference_model.cpp: the C++ answer key, an order book with its window, features and
-- signal. The thresholds, which the constructor converts from the configuration's doubles, are given
-- as the Q16.16 values of that conversion.
pub mod Process
mod Tests
use adaptive_fpga.Prelude.{ℕ, Bool, true, false, List, [], ◌∷◌, Option, none, some, replicate}
use adaptive_fpga.Prelude.Int.{ℤ, pos, nat_abs, ◌-ℤ◌}
use adaptive_fpga.Event.{MarketEvent, FeatureVector, Signal, ModelParameters, hold}
use adaptive_fpga.Book.{
  OrderBook, ApplyResult, BookError, no_book_error, invalid_event, missing_price, crossed_book,
  invariant_violation, new_book, apply,
}
use adaptive_fpga.Window.{FeatureWindow, empty_window, push}
use adaptive_fpga.Features.{midpoint_ticks, calculate_features, evaluate_strategy, no_features}

pub record ReferenceModel : Type 0 where
  pub book : OrderBook
  pub window : FeatureWindow
  pub parameters : ModelParameters
  pub prior_midpoint : Option ℤ
  pub features : FeatureVector
  pub signal : Signal

abbrev no_signal : Signal
no_signal = record {
  timestamp_ns = 0;
  event_index = 0;
  score = pos 0;
  action = hold;
  valid = false;
  model_version = 0;
}

-- The constructor: zero weights, the configured thresholds, version 1.
unfoldable pub new_model : Bool → ℤ → ℤ → ReferenceModel
new_model allow_crossed buy_threshold sell_threshold = record {
  book = new_book allow_crossed;
  window = empty_window;
  parameters = record {
    weights = replicate 8 (pos 0);
    buy_threshold = buy_threshold;
    sell_threshold = sell_threshold;
    model_version = 1;
    update_count = 0;
  };
  prior_midpoint = none;
  features = no_features;
  signal = no_signal;
}

-- The absolute change of the midpoint, where there is one now and was one before.
unfoldable pub midpoint_change : Option ℤ → Option ℤ → ℤ
midpoint_change (some midpoint) (some prior) = pos (nat_abs (midpoint -ℤ prior))
midpoint_change (some midpoint) none = pos 0
midpoint_change none prior = pos 0

abbrev latest : Option ℤ → Option ℤ → Option ℤ
latest (some midpoint) prior = some midpoint
latest none prior = prior

abbrev pub is_no_book_error : BookError → Bool
is_no_book_error no_book_error = true
is_no_book_error e = false

-- The rest of `process` after an accepted event.
unfoldable pub observe : ReferenceModel → MarketEvent → ℕ → ApplyResult → OrderBook → ReferenceModel
unfolding midpoint_change
observe m event event_index result book = record m {
  book = book;
  window = window;
  prior_midpoint = latest midpoint m.prior_midpoint;
  features = features;
  signal = evaluate_strategy event.timestamp_ns event_index features m.parameters;
}
  where
    midpoint : Option ℤ
    midpoint = midpoint_ticks book.levels

    window : FeatureWindow
    window =
        push m.window result.order_flow_delta result.trade_flow_delta
          (midpoint_change midpoint m.prior_midpoint)

    features : FeatureVector
    features = calculate_features book.levels window

unfoldable pub process : ReferenceModel → MarketEvent → ℕ → ApplyResult × ReferenceModel
process m event event_index =
    let (result, book) = apply m.book event in
    (
      result,
      elim (is_no_book_error result.error) [
        | true ↦ observe m event event_index result book
        | false ↦ m
      ],
    )
