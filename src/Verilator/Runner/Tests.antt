-- ===== src/Verilator/Runner/Tests.antt =====
-- A model whose ports are always ready, and the runner on it.
use adaptive_fpga.Prelude.{
  ℕ, ◌+◌, ◌≤◌, ◌≡◌, refl, arith, true, false, [], ◌∷◌, none, some, length, replicate,
}
use adaptive_fpga.Prelude.Int.{pos, negsuc}
use adaptive_fpga.Event.{MarketEvent, ModelParameters, add, bid}
use adaptive_fpga.Book.Array.{PriceLevel}
use adaptive_fpga.Verilator.Runner.{
  Ports, Dut, decode_level, read_snapshot, read_stream_result, no_book_error,
}
use adaptive_fpga.Verilator.Runner.Drive.{Runner, reset_pins, process_event}
use adaptive_fpga.Verilator.Runner.Parameters.{write_model_parameters}
use adaptive_fpga.Verilator.Runner.Strobes.{handed, recorded, Ends}
use adaptive_fpga.Verilator.Runner.Words.{Began}
use adaptive_fpga.Verilator.Runner.Commit.{upload, write_model_parameters_lem}
use adaptive_fpga.Verilator.Runner.Once.{strobe_of}
use adaptive_fpga.Verilator.Runner.Process.{process_event_lem}
use adaptive_fpga.Verilator.Runner.Decode.{pack_level, decode_level-pack_level, read_snapshot_lem}

abbrev ready_ports : Ports
ready_ports = record {
  in_ready = true;
  event_done = true;
  bid_level0 = 500;
  bid_level1 = 501;
  bid_level2 = 502;
  bid_level3 = 503;
  bid_level4 = 504;
  bid_level5 = 505;
  bid_level6 = 506;
  bid_level7 = 507;
  bid_level8 = 508;
  bid_level9 = 509;
  ask_level0 = 600;
  ask_level1 = 601;
  ask_level2 = 602;
  ask_level3 = 603;
  ask_level4 = 604;
  ask_level5 = 605;
  ask_level6 = 606;
  ask_level7 = 607;
  ask_level8 = 608;
  ask_level9 = 609;
  feature0 = pos 20;
  feature1 = pos 21;
  feature2 = pos 22;
  feature3 = pos 23;
  feature4 = pos 24;
  feature5 = pos 25;
  feature6 = pos 26;
  feature7 = pos 27;
  feature_valid = true;
  signal_timestamp_ns = 0;
  signal_event_index = 0;
  score = pos 0;
  action = 0;
  signal_valid = true;
  model_version = 1;
  event_error = 0;
  order_flow_delta = pos 0;
  trade_flow_delta = pos 0;
  update_count = 0;
  result_valid = false;
  result_event_index = 0;
  result_timestamp_ns = 0;
  result_error = 0;
  result_feature_valid = false;
  result_feature0 = pos 0;
  result_feature1 = pos 1;
  result_feature2 = pos 2;
  result_feature3 = pos 3;
  result_feature4 = pos 4;
  result_feature5 = pos 5;
  result_feature6 = pos 6;
  result_feature7 = pos 7;
  result_best_bid_price_ticks = pos 0;
  result_best_bid_quantity = 0;
  result_best_ask_price_ticks = pos 0;
  result_best_ask_quantity = 0;
}

abbrev always_ready : Dut
always_ready = record { State = ℕ; eval = λ clk pins s. s + 1; ports = λ s. ready_ports }

abbrev reset_runner : Runner (recorded always_ready)
reset_runner = record {
  dut = (0, []);
  pins = record reset_pins { rst_n = true };
  latest = none;
  metrics = record { cycles = 0; completed_events = 0 };
}

abbrev bid_event : MarketEvent
bid_event = record { timestamp_ns = 9; type = add; side = bid; price_ticks = pos 100; quantity = 4 }

abbrev some_model : ModelParameters
some_model = record {
  weights = replicate 8 (pos 2);
  buy_threshold = pos 3;
  sell_threshold = negsuc 2;
  model_version = 4;
  update_count = 0;
}

process_event_lem_example :
    Ends
      (λ (r' : Runner (recorded always_ready)).
        (length r'.dut.1 ≤ 129) × (handed r'.dut.1 ≡ strobe_of bid_event ∷ []))
      (λ (r' : Runner (recorded always_ready)).
        (length r'.dut.1 ≤ 129) × Began [] (strobe_of bid_event ∷ []) (handed r'.dut.1))
      (process_event (recorded always_ready) bid_event reset_runner)
process_event_lem_example = process_event_lem always_ready bid_event reset_runner (refl, refl, refl)

write_model_parameters_lem_example :
    Ends
      (λ (r' : Runner (recorded always_ready)). handed r'.dut.1 ≡ upload some_model)
      (λ (r' : Runner (recorded always_ready)). Began [] (upload some_model) (handed r'.dut.1))
      (write_model_parameters (recorded always_ready) some_model reset_runner)
write_model_parameters_lem_example =
    write_model_parameters_lem always_ready some_model reset_runner (refl, refl, refl)

abbrev level : PriceLevel
level = record { price_ticks = negsuc 4; quantity = 7 }

decode_level-pack_level_example : decode_level (pack_level level) ≡ level
decode_level-pack_level_example =
    decode_level-pack_level level (omega arith, omega arith) (omega arith)

read_snapshot_lem_example :
    (read_snapshot ready_ports
      ≡ some (record {
        book = record {
          bids =
              decode_level ready_ports.bid_level0
              ∷ decode_level ready_ports.bid_level1
              ∷ decode_level ready_ports.bid_level2
              ∷ decode_level ready_ports.bid_level3
              ∷ decode_level ready_ports.bid_level4
              ∷ decode_level ready_ports.bid_level5
              ∷ decode_level ready_ports.bid_level6
              ∷ decode_level ready_ports.bid_level7
              ∷ decode_level ready_ports.bid_level8
              ∷ decode_level ready_ports.bid_level9
              ∷ [];
          asks =
              decode_level ready_ports.ask_level0
              ∷ decode_level ready_ports.ask_level1
              ∷ decode_level ready_ports.ask_level2
              ∷ decode_level ready_ports.ask_level3
              ∷ decode_level ready_ports.ask_level4
              ∷ decode_level ready_ports.ask_level5
              ∷ decode_level ready_ports.ask_level6
              ∷ decode_level ready_ports.ask_level7
              ∷ decode_level ready_ports.ask_level8
              ∷ decode_level ready_ports.ask_level9
              ∷ [];
        };
        features = record {
          values =
              ready_ports.feature0 ∷ ready_ports.feature1 ∷ ready_ports.feature2
              ∷ ready_ports.feature3 ∷ ready_ports.feature4 ∷ ready_ports.feature5
              ∷ ready_ports.feature6 ∷ ready_ports.feature7 ∷ [];
          valid = ready_ports.feature_valid;
        };
        signal = record {
          timestamp_ns = ready_ports.signal_timestamp_ns;
          event_index = ready_ports.signal_event_index;
          score = ready_ports.score;
          action = ready_ports.action;
          valid = ready_ports.signal_valid;
          model_version = ready_ports.model_version;
        };
        error = ready_ports.event_error;
        order_flow_delta = ready_ports.order_flow_delta;
        trade_flow_delta = ready_ports.trade_flow_delta;
        update_count = ready_ports.update_count;
      }))
    × (ready_ports.result_valid ≡ true
        → ready_ports.result_error ≡ 0
        → read_stream_result ready_ports
          ≡ some (record {
            event_index = ready_ports.result_event_index;
            timestamp_ns = ready_ports.result_timestamp_ns;
            error = no_book_error;
            features = record {
              values =
                  ready_ports.result_feature0 ∷ ready_ports.result_feature1
                  ∷ ready_ports.result_feature2 ∷ ready_ports.result_feature3
                  ∷ ready_ports.result_feature4 ∷ ready_ports.result_feature5
                  ∷ ready_ports.result_feature6 ∷ ready_ports.result_feature7 ∷ [];
              valid = ready_ports.result_feature_valid;
            };
            best_bid_price_ticks = ready_ports.result_best_bid_price_ticks;
            best_bid_quantity = ready_ports.result_best_bid_quantity;
            best_ask_price_ticks = ready_ports.result_best_ask_price_ticks;
            best_ask_quantity = ready_ports.result_best_ask_quantity;
          }))
read_snapshot_lem_example = read_snapshot_lem ready_ports
