-- ===== src/Features.antt =====
-- Prices, features, strategy and checksum of src/market/order_book.cpp.
pub mod Prices
pub mod Vector
pub mod Decision
mod Tests
use Prim.Native.Nat.{bit_xor}
use adaptive_fpga.Prelude.{
  ℕ, zero, suc, ◌+◌, ◌*◌, ◌/◌, ◌%◌, ◌^◌, max, Bool, true, false, not, ◌&&◌, ◌||◌, ◌==◌, List, [],
  ◌∷◌, Option, none, some, ltb, if◌then◌else◌, get_or, replicate,
}
use adaptive_fpga.Prelude.Int.{ℤ, pos, ◌+ℤ◌, ◌-ℤ◌, ◌*ℤ◌, ltb_ℤ, leb_ℤ}
use adaptive_fpga.Prelude.Words.{to_i32, wrap_i64, div_i64, low_u32, u64_mod}
use adaptive_fpga.FixedPoint.{scale, one, saturate, rounded_divide}
use adaptive_fpga.Event.{FeatureVector, Signal, ModelParameters, Action, hold, buy, sell}
use adaptive_fpga.Book.Array.{PriceLevel, Levels, empty_level}
use adaptive_fpga.Book.{BookSnapshot}
use adaptive_fpga.Window.{FeatureWindow}

-- `front()` of a side.
abbrev pub best : Levels → PriceLevel
best levels = get_or levels 0 empty_level

unfoldable pub midpoint_ticks : BookSnapshot → Option ℤ
midpoint_ticks book =
    if bid.quantity == 0 || ask.quantity == 0
    then none
    else some (to_i32 (div_i64 (bid.price_ticks +ℤ ask.price_ticks) 2))
  where
    bid : PriceLevel
    bid = best book.bids

    ask : PriceLevel
    ask = best book.asks

-- `weighted`, as an integer without bound.
unfoldable pub weighted_prices : BookSnapshot → ℤ
weighted_prices book =
    (best book.asks).price_ticks *ℤ pos (best book.bids).quantity
    +ℤ (best book.bids).price_ticks *ℤ pos (best book.asks).quantity

-- The total is a uint64_t sum of two uint32_t quantities, and does not wrap.
unfoldable pub microprice_ticks : BookSnapshot → Option ℤ
unfolding weighted_prices
microprice_ticks book =
    if bid.quantity == 0 || (ask.quantity == 0 || total == 0)
    then none
    else some (to_i32 (rounded_divide (wrap_i64 (weighted_prices book)) (pos total)))
  where
    bid : PriceLevel
    bid = best book.bids

    ask : PriceLevel
    ask = best book.asks

    total : ℕ
    total = bid.quantity + ask.quantity

-- `ratio`: a signed Q16.16 quotient, 0 for a denominator that is not positive.
unfoldable pub ratio : ℤ → ℤ → ℤ
ratio numerator denominator =
    if leb_ℤ denominator (pos 0)
    then pos 0
    else saturate (rounded_divide (numerator *ℤ scale) denominator)

unfoldable pub total_quantity : Levels → ℕ
total_quantity [] = 0
total_quantity (level ∷ rest) = level.quantity + total_quantity rest

abbrev pub no_features : FeatureVector
no_features = record { values = replicate 8 (pos 0); valid = false }

-- The eight values, once a midpoint and a microprice are there.
unfoldable pub feature_values : BookSnapshot → FeatureWindow → ℤ → ℤ → List ℤ
feature_values book window midpoint microprice =
    ratio (ask.price_ticks -ℤ bid.price_ticks) midpoint
    ∷ ratio (pos bid.quantity -ℤ pos ask.quantity) (pos (bid.quantity + ask.quantity))
    ∷ ratio (pos bid_total -ℤ pos ask_total) l10_total
    ∷ ratio (microprice -ℤ midpoint) midpoint
    ∷ ratio window.order_flow_sum l10_total
    ∷ ratio window.trade_flow_sum l10_total
    ∷ ratio window.absolute_midpoint_change_sum (midpoint *ℤ pos (max 1 window.size))
    ∷ one
    ∷ []
  where
    bid : PriceLevel
    bid = best book.bids

    ask : PriceLevel
    ask = best book.asks

    bid_total : ℕ
    bid_total = total_quantity book.bids

    ask_total : ℕ
    ask_total = total_quantity book.asks

    l10_total : ℤ
    l10_total = pos (bid_total + ask_total)

-- The early return of `calculate_features`, with the two optional prices taken apart.
unfoldable pub features_of : BookSnapshot → FeatureWindow → Option ℤ → Option ℤ → FeatureVector
features_of book window none microprice = no_features
features_of book window (some midpoint) none = no_features
features_of book window (some midpoint) (some microprice) =
    if (best book.bids).quantity == 0 || ((best book.asks).quantity == 0 || leb_ℤ midpoint (pos 0))
    then no_features
    else record { values = feature_values book window midpoint microprice; valid = true }

unfoldable pub calculate_features : BookSnapshot → FeatureWindow → FeatureVector
unfolding features_of
calculate_features book window =
    features_of book window (midpoint_ticks book) (microprice_ticks book)

-- The score's loop: each product rounded, then added.
unfoldable pub score_from : ℤ → List ℤ → List ℤ → ℤ
score_from score [] weights = score
score_from score (value ∷ values) [] = score
score_from score (value ∷ values) (weight ∷ weights) =
    score_from (score +ℤ rounded_divide (value *ℤ weight) scale) values weights

unfoldable pub choose_action : ℤ → ModelParameters → Action
choose_action score parameters =
    if ltb_ℤ parameters.buy_threshold score
    then buy
    else if ltb_ℤ score parameters.sell_threshold
    then sell
    else hold

unfoldable pub evaluate_strategy : ℕ → ℕ → FeatureVector → ModelParameters → Signal
unfolding choose_action
evaluate_strategy timestamp_ns event_index features parameters =
    if not features.valid
    then record {
      timestamp_ns = timestamp_ns;
      event_index = event_index;
      score = pos 0;
      action = hold;
      valid = false;
      model_version = parameters.model_version;
    }
    else record {
      timestamp_ns = timestamp_ns;
      event_index = event_index;
      score = score;
      action = choose_action score parameters;
      valid = true;
      model_version = parameters.model_version;
    }
  where
    score : ℤ
    score = saturate (score_from (pos 0) features.values parameters.weights)

-- `fnv_mix`: the eight bytes of a value, lowest first.
unfoldable pub fnv_bytes : ℕ → ℕ → ℕ → ℕ
fnv_bytes zero hash value = hash
fnv_bytes (suc rounds) hash value =
    fnv_bytes rounds ((bit_xor hash (value % 256) * 1_099_511_628_211) % u64_mod) (value / 256)

unfoldable pub fnv_mix : ℕ → ℕ → ℕ
unfolding fnv_bytes
fnv_mix hash value = fnv_bytes 8 hash value

unfoldable pub mix_all : ℕ → List ℕ → ℕ
mix_all hash [] = hash
mix_all hash (value ∷ values) = mix_all (fnv_mix hash value) values

abbrev pub bit : Bool → ℕ
bit true = 1
bit false = 0

abbrev pub action_code : Action → ℕ
action_code hold = 0
action_code buy = 1
action_code sell = 2

abbrev pub level_words : Levels → List ℕ
level_words [] = []
level_words (level ∷ rest) = low_u32 level.price_ticks ∷ level.quantity ∷ level_words rest

abbrev pub words : List ℤ → List ℕ
words [] = []
words (value ∷ values) = low_u32 value ∷ words values

-- `deterministic_checksum`, by the words that it mixes in turn.
unfoldable pub deterministic_checksum : BookSnapshot → FeatureVector → Signal → ModelParameters → ℕ
unfolding mix_all fnv_mix
deterministic_checksum book features signal parameters =
    let hash = mix_all 14_695_981_039_346_656_037 (level_words book.bids) in
    let hash = mix_all hash (level_words book.asks) in
    let hash = mix_all hash (words features.values) in
    let hash = mix_all hash (
      bit features.valid
      ∷ signal.timestamp_ns
      ∷ signal.event_index
      ∷ low_u32 signal.score
      ∷ action_code signal.action
      ∷ bit signal.valid
      ∷ signal.model_version
      ∷ []) in
    let hash = mix_all hash (words parameters.weights) in
    mix_all hash (
      low_u32 parameters.buy_threshold
      ∷ low_u32 parameters.sell_threshold
      ∷ parameters.model_version
      ∷ parameters.update_count
      ∷ [])
