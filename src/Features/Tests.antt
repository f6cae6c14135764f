-- ===== src/Features/Tests.antt =====
-- Prices, features and signals of src/market/order_book.cpp on a quoted book.
use adaptive_fpga.Prelude.{ℕ, ◌≤◌, ◌≡◌, ◌↔◌, refl, arith, [], ◌∷◌, true, false, some, replicate}
use adaptive_fpga.Prelude.Int.{pos, negsuc, ◌+ℤ◌, ◌*ℤ◌, ◌-ℤ◌, ◌≤ℤ◌, ◌<ℤ◌}
use adaptive_fpga.Prelude.Words.{IsI32, IsI64, to_i32, wrap_i64, div_i64}
use adaptive_fpga.FixedPoint.{saturate, rounded_divide, rounded_quotient}
use adaptive_fpga.Event.{
  FeatureVector, ModelParameters, hold, buy, sell, MarketEvent, add, ask, bid, validate_event,
}
use adaptive_fpga.Book.Array.{empty_level, lookup, before, remove, insert, saturated_add}
use adaptive_fpga.Book.{
  BookSnapshot, new_book, apply, add_change, update_change, removal_change, invariants,
  check_levels,
}
use adaptive_fpga.Book.Apply.{replay}
use adaptive_fpga.Window.{empty_window}
use adaptive_fpga.Features.{
  midpoint_ticks, microprice_ticks, calculate_features, evaluate_strategy, choose_action,
  score_from, fnv_mix, fnv_bytes, weighted_prices, ◌-ℤ◌,
}
use adaptive_fpga.Features.Prices.{IsSpread, prices_in_spread, microprice_sum_range}
use adaptive_fpga.Features.Vector.{IsFeatures, calculate_features-IsFeatures}
use adaptive_fpga.Features.Decision.{evaluate_strategy_lem, total, products}

-- A bid of 5 at 99 and an ask of 15 at 103.
abbrev quoted : BookSnapshot
quoted = record {
  bids = record { price_ticks = pos 99; quantity = 5 } ∷ replicate 9 empty_level;
  asks = record { price_ticks = pos 103; quantity = 15 } ∷ replicate 9 empty_level;
}

prices : (midpoint_ticks quoted ≡ some (pos 101)) × (microprice_ticks quoted ≡ some (pos 100))
unfolding midpoint_ticks microprice_ticks weighted_prices wrap_i64 to_i32 div_i64 rounded_divide
    rounded_quotient ◌+ℤ◌ ◌*ℤ◌
prices = (refl, refl)

-- Eight zero bytes multiply by the FNV-1a prime eight times.
checksum_step : fnv_mix 1 0 ≡ 2_232_315_406_967_589_409
unfolding fnv_mix fnv_bytes
checksum_step = refl

quoted-IsSpread : IsSpread quoted 99 103
quoted-IsSpread = record {
  bid_price = refl;
  ask_price = refl;
  bid_used = omega arith;
  ask_used = omega arith;
  ordered = omega arith;
  in_range = omega arith;
  sum_fits = unfold weighted_prices ◌+ℤ◌ ◌*ℤ◌ in omega arith;
}

prices_in_spread_example :
    (midpoint microprice : ℕ) × (midpoint_ticks quoted ≡ some (pos midpoint))
    × (microprice_ticks quoted ≡ some (pos microprice))
    × (99 ≤ midpoint)
    × (midpoint ≤ 103)
    × (99 ≤ microprice)
    × (microprice ≤ 103)
prices_in_spread_example = prices_in_spread quoted 99 103 quoted-IsSpread

-- The two events that make this book are accepted by one that forbids a crossed spread.
abbrev huge_bid : MarketEvent
huge_bid = record {
  timestamp_ns = 1;
  type = add;
  side = bid;
  price_ticks = pos 2_147_483_646;
  quantity = 4_294_967_295;
}

abbrev huge_ask : MarketEvent
huge_ask = record huge_bid { side = ask; price_ticks = pos 2_147_483_647 }

abbrev huge : BookSnapshot
huge = record {
  bids =
      record { price_ticks = pos 2_147_483_646; quantity = 4_294_967_295 }
      ∷ replicate 9 empty_level;
  asks =
      record { price_ticks = pos 2_147_483_647; quantity = 4_294_967_295 }
      ∷ replicate 9 empty_level;
}

huge_accepted : (replay (new_book false) (huge_bid ∷ huge_ask ∷ [])).levels ≡ huge
unfolding replay apply add_change update_change removal_change lookup before remove insert
    saturated_add validate_event invariants check_levels ◌*ℤ◌ ◌-ℤ◌
huge_accepted = refl

microprice_sum_range_example :
    (2_147_483_646 ≤ 1_073_741_824
      → 2_147_483_647 ≤ 1_073_741_824
      → 4_294_967_295 ≤ 4_294_967_295
      → 4_294_967_295 ≤ 4_294_967_295
      → IsI64 (weighted_prices huge))
    × (2_147_483_646 ≤ 2_147_483_646
        → 2_147_483_646 ≤ 2_147_483_647
        → 2_147_483_652 ≤ 4_294_967_295
        → 2_147_483_652 ≤ 4_294_967_295
        → ¬ (IsI64 (weighted_prices huge)))
microprice_sum_range_example = microprice_sum_range huge 2_147_483_646 2_147_483_647 refl refl

calculate_features-IsFeatures_example : IsFeatures (calculate_features quoted empty_window)
calculate_features-IsFeatures_example = calculate_features-IsFeatures quoted empty_window

-- Weight 1.0 on the first of two values.
abbrev tilted : ModelParameters
tilted = record {
  weights = pos 65_536 ∷ pos 0 ∷ [];
  buy_threshold = pos 16_384;
  sell_threshold = negsuc 16_383;
  model_version = 1;
  update_count = 0;
}

abbrev rising : FeatureVector
rising = record { values = pos 20_000 ∷ pos 65_536 ∷ []; valid = true }

buys : (evaluate_strategy 5 3 rising tilted).action ≡ buy
unfolding evaluate_strategy choose_action score_from saturate rounded_divide rounded_quotient ◌+ℤ◌
    ◌*ℤ◌
buys = refl

evaluate_strategy_lem_example :
    let s = evaluate_strategy 5 3 rising tilted in
    (rising.valid ≡ false → (s.valid ≡ false) × (s.action ≡ hold) × (s.score ≡ pos 0))
    × (rising.valid ≡ true
        → (s.valid ≡ true)
          × (s.score ≡ saturate (total (products rising.values tilted.weights)))
          × IsI32 s.score
          × ((s.action ≡ buy) ↔ (tilted.buy_threshold <ℤ s.score))
          × ((s.action ≡ sell) ↔ (s.score <ℤ tilted.sell_threshold))
          × ((s.action ≡ hold)
              ↔ ((tilted.sell_threshold ≤ℤ s.score) × (s.score ≤ℤ tilted.buy_threshold))))
    × (s.timestamp_ns ≡ 5)
    × (s.event_index ≡ 3)
    × (s.model_version ≡ 1)
evaluate_strategy_lem_example = evaluate_strategy_lem 5 3 rising tilted (omega arith)
