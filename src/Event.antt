-- ===== src/Event.antt =====
-- include/market/event.hpp and the validation and text functions of src/market/event.cpp.
-- A scoped enum with an underlying uint8_t can hold any byte (the binary reader casts one to it), so
-- EventType and Side have a constructor for the values that are no enumerator.
pub mod Validation
mod Tests
use adaptive_fpga.Prelude.{
  ℕ, Bool, true, false, not, ◌&&◌, ◌||◌, ◌==◌, List, Option, none, some, ltb, leb, if◌then◌else◌,
}
use adaptive_fpga.Prelude.Int.{ℤ, pos, leb_ℤ}
use Prim.Native.String.{String}

pub data EventType : Type 0 where
  add update cancel trade : EventType
  unknown_type : ℕ → EventType

pub data Side : Type 0 where
  bid ask : Side
  unknown_side : ℕ → Side

pub data Action : Type 0 where
  hold buy sell : Action

pub record MarketEvent : Type 0 where
  pub timestamp_ns : ℕ
  pub type : EventType
  pub side : Side
  pub price_ticks : ℤ
  pub quantity : ℕ

-- `values` has the eight Q16.16 features.
pub record FeatureVector : Type 0 where
  pub values : List ℤ
  pub valid : Bool

pub record Signal : Type 0 where
  pub timestamp_ns : ℕ
  pub event_index : ℕ
  pub score : ℤ
  pub action : Action
  pub valid : Bool
  pub model_version : ℕ

-- `weights` has eight entries.
pub record ModelParameters : Type 0 where
  pub weights : List ℤ
  pub buy_threshold : ℤ
  pub sell_threshold : ℤ
  pub model_version : ℕ
  pub update_count : ℕ

pub data EventValidationError : Type 0 where
  no_error invalid_event_type invalid_side non_positive_price zero_quantity : EventValidationError

-- `valid(EventType)`
unfoldable pub valid_type : EventType → Bool
valid_type add = true
valid_type update = true
valid_type cancel = true
valid_type trade = true
valid_type (unknown_type n) = false

-- `valid(Side)`
unfoldable pub valid_side : Side → Bool
valid_side bid = true
valid_side ask = true
valid_side (unknown_side n) = false

unfoldable pub is_update : EventType → Bool
is_update update = true
is_update t = false

unfoldable pub validate_event : MarketEvent → EventValidationError
unfolding valid_type valid_side is_update
validate_event event =
    if not (valid_type event.type)
    then invalid_event_type
    else if not (valid_side event.side)
    then invalid_side
    else if leb_ℤ event.price_ticks (pos 0)
    then non_positive_price
    else if event.quantity == 0 && not (is_update event.type)
    then zero_quantity
    else no_error

unfoldable pub type_to_string : EventType → String
type_to_string add = "Add"
type_to_string update = "Update"
type_to_string cancel = "Cancel"
type_to_string trade = "Trade"
type_to_string (unknown_type n) = "InvalidEventType"

unfoldable pub side_to_string : Side → String
side_to_string bid = "Bid"
side_to_string ask = "Ask"
side_to_string (unknown_side n) = "InvalidSide"

unfoldable pub action_to_string : Action → String
action_to_string hold = "Hold"
action_to_string buy = "Buy"
action_to_string sell = "Sell"

unfoldable pub error_to_string : EventValidationError → String
error_to_string no_error = "no validation error"
error_to_string invalid_event_type = "invalid event type"
error_to_string invalid_side = "invalid side"
error_to_string non_positive_price = "price_ticks must be positive"
error_to_string zero_quantity = "quantity must be non-zero except for Update"
