-- ===== src/Verilator/Runner/Decode.antt =====
-- The decoding of the ports by src/verilator/verilator_runner.cpp.
use adaptive_fpga.Prelude.{
  ℕ, ◌+◌, ◌*◌, ◌/◌, ◌%◌, ◌<◌, ◌≡◌, refl, ap, ap₂, ◌∙◌, arith, true, [], ◌∷◌, some,
}
use adaptive_fpga.Prelude.Int.{ℤ, pos, negsuc}
use adaptive_fpga.Prelude.Words.{IsI32, low_u32, signed_u32, to_i32, to_i32_lem}
use adaptive_fpga.Book.{no_book_error}
use adaptive_fpga.Book.Array.{PriceLevel}
use adaptive_fpga.Verilator.Runner.{Ports, decode_level, read_snapshot, read_stream_result}

-- A level as the RTL packs it.
abbrev pub pack_level : PriceLevel → ℕ
pack_level level = low_u32 level.price_ticks * 4_294_967_296 + level.quantity

low_u32_bound : (a : ℤ) → low_u32 a < 4_294_967_296
low_u32_bound (pos n) = omega arith
low_u32_bound (negsuc n) = omega arith

-- The packing of a level in a 64-bit word is undone by `decode_level`, for every 32-bit signed price and
-- 32-bit quantity.
pub decode_level-pack_level :
    (level : PriceLevel)
    → IsI32 level.price_ticks
    → level.quantity < 4_294_967_296
    → decode_level (pack_level level) ≡ level
unfolding decode_level
decode_level-pack_level level price quantity =
    ap₂ level_of (ap (λ w. signed_u32 w) upper ∙ back) lower
  where
    level_of : ℤ → ℕ → PriceLevel
    level_of p q = record { price_ticks = p; quantity = q }

    upper : pack_level level / 4_294_967_296 % 4_294_967_296 ≡ low_u32 level.price_ticks
    upper = omega (arith, quantity, low_u32_bound level.price_ticks)

    lower : pack_level level % 4_294_967_296 ≡ level.quantity
    lower = omega (arith, quantity)

    back : signed_u32 (low_u32 level.price_ticks) ≡ level.price_ticks
    back = unfold to_i32 in to_i32_lem level.price_ticks price

-- A snapshot never throws. It holds the ten levels of each side decoded from the ports of their numbers, the
-- eight features at theirs, and in every other field the port of that name. A stream result, while one is
-- valid and the RTL reports no error, likewise holds the eight features of the result at their numbers and
-- the quotes of both sides.
pub read_snapshot_lem :
    (ports : Ports)
    → (read_snapshot ports
        ≡ some (record {
          book = record {
            bids =
                decode_level ports.bid_level0
                ∷ decode_level ports.bid_level1
                ∷ decode_level ports.bid_level2
                ∷ decode_level ports.bid_level3
                ∷ decode_level ports.bid_level4
                ∷ decode_level ports.bid_level5
                ∷ decode_level ports.bid_level6
                ∷ decode_level ports.bid_level7
                ∷ decode_level ports.bid_level8
                ∷ decode_level ports.bid_level9
                ∷ [];
            asks =
                decode_level ports.ask_level0
                ∷ decode_level ports.ask_level1
                ∷ decode_level ports.ask_level2
                ∷ decode_level ports.ask_level3
                ∷ decode_level ports.ask_level4
                ∷ decode_level ports.ask_level5
                ∷ decode_level ports.ask_level6
                ∷ decode_level ports.ask_level7
                ∷ decode_level ports.ask_level8
                ∷ decode_level ports.ask_level9
                ∷ [];
          };
          features = record {
            values =
                ports.feature0 ∷ ports.feature1 ∷ ports.feature2 ∷ ports.feature3 ∷ ports.feature4
                ∷ ports.feature5 ∷ ports.feature6 ∷ ports.feature7 ∷ [];
            valid = ports.feature_valid;
          };
          signal = record {
            timestamp_ns = ports.signal_timestamp_ns;
            event_index = ports.signal_event_index;
            score = ports.score;
            action = ports.action;
            valid = ports.signal_valid;
            model_version = ports.model_version;
          };
          error = ports.event_error;
          order_flow_delta = ports.order_flow_delta;
          trade_flow_delta = ports.trade_flow_delta;
          update_count = ports.update_count;
        }))
      × (ports.result_valid ≡ true
          → ports.result_error ≡ 0
          → read_stream_result ports
            ≡ some (record {
              event_index = ports.result_event_index;
              timestamp_ns = ports.result_timestamp_ns;
              error = no_book_error;
              features = record {
                values =
                    ports.result_feature0 ∷ ports.result_feature1 ∷ ports.result_feature2
                    ∷ ports.result_feature3 ∷ ports.result_feature4 ∷ ports.result_feature5
                    ∷ ports.result_feature6 ∷ ports.result_feature7 ∷ [];
                valid = ports.result_feature_valid;
              };
              best_bid_price_ticks = ports.result_best_bid_price_ticks;
              best_bid_quantity = ports.result_best_bid_quantity;
              best_ask_price_ticks = ports.result_best_ask_price_ticks;
              best_ask_quantity = ports.result_best_ask_quantity;
            }))
unfolding read_snapshot read_stream_result
read_snapshot_lem ports = (refl, λ valid error. rw (valid, error) refl)
