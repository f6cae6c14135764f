-- ===== src/Verilator/Runner.antt =====
-- include/verilator/verilator_runner.hpp and src/verilator/verilator_runner.cpp: the pins of the Verilated
-- pipeline and how the runner drives them. The generated model is a parameter: a state, its evaluation
-- for given input pins and clock, and its output ports. Wall-clock time is left out.
pub mod Drive
pub mod Parameters
pub mod Strobes
mod Tests
pub mod Decode
pub mod Once
pub mod Process
pub mod Words
pub mod Commit
use adaptive_fpga.Prelude.{
  ℕ, zero, suc, ◌+◌, ◌/◌, ◌%◌, Bool, true, false, not, ◌&&◌, List, [], ◌∷◌, Option, none, some, ltb,
  ◌==◌, if◌then◌else◌, get_elem?, get_or,
}
use adaptive_fpga.Prelude.Int.{ℤ, pos}
use adaptive_fpga.Prelude.Words.{u32_mod, low_u32, signed_u32, add_u64}
use adaptive_fpga.Event.{MarketEvent, FeatureVector, ModelParameters}
use adaptive_fpga.Codec.{type_code, side_code}
use adaptive_fpga.Book.{
  BookError, BookSnapshot, no_book_error, invalid_event, missing_price, crossed_book,
  invariant_violation,
}
use adaptive_fpga.Book.Array.{PriceLevel, Levels}
use adaptive_fpga.Gpu.Worker.{RtlStreamResult}

-- The input ports other than the clock.
pub record Pins : Type 0 where
  pub rst_n : Bool
  pub in_valid : Bool
  pub timestamp_ns : ℕ
  pub event_type : ℕ
  pub side : ℕ
  pub price_ticks : ℕ
  pub quantity : ℕ
  pub result_ready : Bool
  pub param_write_valid : Bool
  pub param_write_index : ℕ
  pub param_write_value : ℤ
  pub param_write_model_version : ℕ
  pub param_commit : Bool

-- The output ports.
pub record Ports : Type 0 where
  pub in_ready : Bool
  pub event_done : Bool
  pub bid_level0 : ℕ
  pub bid_level1 : ℕ
  pub bid_level2 : ℕ
  pub bid_level3 : ℕ
  pub bid_level4 : ℕ
  pub bid_level5 : ℕ
  pub bid_level6 : ℕ
  pub bid_level7 : ℕ
  pub bid_level8 : ℕ
  pub bid_level9 : ℕ
  pub ask_level0 : ℕ
  pub ask_level1 : ℕ
  pub ask_level2 : ℕ
  pub ask_level3 : ℕ
  pub ask_level4 : ℕ
  pub ask_level5 : ℕ
  pub ask_level6 : ℕ
  pub ask_level7 : ℕ
  pub ask_level8 : ℕ
  pub ask_level9 : ℕ
  pub feature0 : ℤ
  pub feature1 : ℤ
  pub feature2 : ℤ
  pub feature3 : ℤ
  pub feature4 : ℤ
  pub feature5 : ℤ
  pub feature6 : ℤ
  pub feature7 : ℤ
  pub feature_valid : Bool
  pub signal_timestamp_ns : ℕ
  pub signal_event_index : ℕ
  pub score : ℤ
  pub action : ℕ
  pub signal_valid : Bool
  pub model_version : ℕ
  pub event_error : ℕ
  pub order_flow_delta : ℤ
  pub trade_flow_delta : ℤ
  pub update_count : ℕ
  pub result_valid : Bool
  pub result_event_index : ℕ
  pub result_timestamp_ns : ℕ
  pub result_error : ℕ
  pub result_feature_valid : Bool
  pub result_feature0 : ℤ
  pub result_feature1 : ℤ
  pub result_feature2 : ℤ
  pub result_feature3 : ℤ
  pub result_feature4 : ℤ
  pub result_feature5 : ℤ
  pub result_feature6 : ℤ
  pub result_feature7 : ℤ
  pub result_best_bid_price_ticks : ℤ
  pub result_best_bid_quantity : ℕ
  pub result_best_ask_price_ticks : ℤ
  pub result_best_ask_quantity : ℕ

-- The generated model: `eval` with the clock low, then with it high.
pub record Dut : Type 1 where
  pub State : Type 0
  pub eval : Bool → Pins → State → State
  pub ports : State → Ports

-- The signal and the error of RtlSnapshot; an enumerator is kept as its number, which is what the
-- casts of the ports keep.
pub record RtlSignal : Type 0 where
  pub timestamp_ns : ℕ
  pub event_index : ℕ
  pub score : ℤ
  pub action : ℕ
  pub valid : Bool
  pub model_version : ℕ

pub record RtlSnapshot : Type 0 where
  pub book : BookSnapshot
  pub features : FeatureVector
  pub signal : RtlSignal
  pub error : ℕ
  pub order_flow_delta : ℤ
  pub trade_flow_delta : ℤ
  pub update_count : ℕ

pub record RunnerMetrics : Type 0 where
  pub cycles : ℕ
  pub completed_events : ℕ

pub record RunnerStep : Type 0 where
  pub input_accepted : Bool
  pub result_accepted : Bool

pub data RunnerError : Type 0 where
  zero_period not_ready_after_reset not_ready timed_out commit_not_active : RunnerError
  invalid_snapshot_index : RunnerError

abbrev pub cycle_limit : ℕ
cycle_limit = 64

-- A packed level: the price in the high word, the quantity in the low one.
unfoldable pub decode_level : ℕ → PriceLevel
decode_level packed = record {
  price_ticks = signed_u32 (packed / u32_mod % u32_mod);
  quantity = packed % u32_mod;
}

-- The switches over the numbered ports; any other index throws.
unfoldable pub packed_level : Ports → Bool → ℕ → Option ℕ
packed_level ports true zero = some ports.bid_level0
packed_level ports true (suc zero) = some ports.bid_level1
packed_level ports true (suc (suc zero)) = some ports.bid_level2
packed_level ports true (suc (suc (suc zero))) = some ports.bid_level3
packed_level ports true (suc (suc (suc (suc zero)))) = some ports.bid_level4
packed_level ports true (suc (suc (suc (suc (suc zero))))) = some ports.bid_level5
packed_level ports true (suc (suc (suc (suc (suc (suc zero)))))) = some ports.bid_level6
packed_level ports true (suc (suc (suc (suc (suc (suc (suc zero))))))) = some ports.bid_level7
packed_level ports true (suc (suc (suc (suc (suc (suc (suc (suc zero)))))))) = some ports.bid_level8
packed_level ports true (suc (suc (suc (suc (suc (suc (suc (suc (suc zero))))))))) =
    some ports.bid_level9
packed_level ports true _ = none
packed_level ports false zero = some ports.ask_level0
packed_level ports false (suc zero) = some ports.ask_level1
packed_level ports false (suc (suc zero)) = some ports.ask_level2
packed_level ports false (suc (suc (suc zero))) = some ports.ask_level3
packed_level ports false (suc (suc (suc (suc zero)))) = some ports.ask_level4
packed_level ports false (suc (suc (suc (suc (suc zero))))) = some ports.ask_level5
packed_level ports false (suc (suc (suc (suc (suc (suc zero)))))) = some ports.ask_level6
packed_level ports false (suc (suc (suc (suc (suc (suc (suc zero))))))) = some ports.ask_level7
packed_level ports false (suc (suc (suc (suc (suc (suc (suc (suc zero)))))))) =
    some ports.ask_level8
packed_level ports false (suc (suc (suc (suc (suc (suc (suc (suc (suc zero))))))))) =
    some ports.ask_level9
packed_level ports false _ = none

unfoldable pub feature_value : Ports → ℕ → Option ℤ
feature_value ports zero = some ports.feature0
feature_value ports (suc zero) = some ports.feature1
feature_value ports (suc (suc zero)) = some ports.feature2
feature_value ports (suc (suc (suc zero))) = some ports.feature3
feature_value ports (suc (suc (suc (suc zero)))) = some ports.feature4
feature_value ports (suc (suc (suc (suc (suc zero))))) = some ports.feature5
feature_value ports (suc (suc (suc (suc (suc (suc zero)))))) = some ports.feature6
feature_value ports (suc (suc (suc (suc (suc (suc (suc zero))))))) = some ports.feature7
feature_value ports _ = none

unfoldable pub stream_feature_value : Ports → ℕ → Option ℤ
stream_feature_value ports zero = some ports.result_feature0
stream_feature_value ports (suc zero) = some ports.result_feature1
stream_feature_value ports (suc (suc zero)) = some ports.result_feature2
stream_feature_value ports (suc (suc (suc zero))) = some ports.result_feature3
stream_feature_value ports (suc (suc (suc (suc zero)))) = some ports.result_feature4
stream_feature_value ports (suc (suc (suc (suc (suc zero))))) = some ports.result_feature5
stream_feature_value ports (suc (suc (suc (suc (suc (suc zero)))))) = some ports.result_feature6
stream_feature_value ports (suc (suc (suc (suc (suc (suc (suc zero))))))) =
    some ports.result_feature7
stream_feature_value ports _ = none

abbrev pub and_then {ℓ κ} : {A : Type ℓ} {B : Type κ} → Option A → (A → Option B) → Option B
and_then none k = none
and_then (some a) k = k a

-- The loops over the numbered ports, for so many from an index on.
unfoldable pub read_levels : Ports → Bool → ℕ → ℕ → Option Levels
unfolding packed_level decode_level
read_levels ports bid zero index = some []
read_levels ports bid (suc count) index =
    let rest = read_levels ports bid count (index + 1) in
    and_then (packed_level ports bid index)
      (λ packed. and_then rest (λ levels. some (decode_level packed ∷ levels)))

unfoldable pub read_values : (ℕ → Option ℤ) → ℕ → ℕ → Option (List ℤ)
read_values value zero index = some []
read_values value (suc count) index =
    let rest = read_values value count (index + 1) in
    and_then (value index) (λ v. and_then rest (λ values. some (v ∷ values)))

unfoldable pub snapshot_of : Ports → Levels → Levels → List ℤ → RtlSnapshot
snapshot_of ports bids asks features = record {
  book = record { bids = bids; asks = asks };
  features = record { values = features; valid = ports.feature_valid };
  signal = record {
    timestamp_ns = ports.signal_timestamp_ns;
    event_index = ports.signal_event_index;
    score = ports.score;
    action = ports.action;
    valid = ports.signal_valid;
    model_version = ports.model_version;
  };
  error = ports.event_error;
  order_flow_delta = ports.order_flow_delta;
  trade_flow_delta = ports.trade_flow_delta;
  update_count = ports.update_count;
}

unfoldable pub read_snapshot : Ports → Option RtlSnapshot
unfolding read_levels read_values feature_value snapshot_of
read_snapshot ports = and_then (read_levels ports true 10 0) (λ bids.
    and_then (read_levels ports false 10 0) (λ asks.
      and_then (read_values (feature_value ports) 8 0)
        (λ features. some (snapshot_of ports bids asks features))))

-- The cast of a code to BookError, where it is an enumerator.
unfoldable pub book_error_of_code : ℕ → Option BookError
book_error_of_code zero = some no_book_error
book_error_of_code (suc zero) = some invalid_event
book_error_of_code (suc (suc zero)) = some missing_price
book_error_of_code (suc (suc (suc zero))) = some crossed_book
book_error_of_code (suc (suc (suc (suc zero)))) = some invariant_violation
book_error_of_code _ = none

unfoldable pub stream_result_of : Ports → BookError → List ℤ → RtlStreamResult
stream_result_of ports error values = record {
  event_index = ports.result_event_index;
  timestamp_ns = ports.result_timestamp_ns;
  error = error;
  features = record { values = values; valid = ports.result_feature_valid };
  best_bid_price_ticks = ports.result_best_bid_price_ticks;
  best_bid_quantity = ports.result_best_bid_quantity;
  best_ask_price_ticks = ports.result_best_ask_price_ticks;
  best_ask_quantity = ports.result_best_ask_quantity;
}

-- `none` also for a code that is no enumerator, of which the header says nothing.
unfoldable pub read_stream_result : Ports → Option RtlStreamResult
unfolding book_error_of_code read_values stream_feature_value stream_result_of
read_stream_result ports =
    let values = read_values (stream_feature_value ports) 8 0 in
    if ports.result_valid
    then and_then (book_error_of_code ports.result_error)
        (λ error. and_then values (λ v. some (stream_result_of ports error v)))
    else none
