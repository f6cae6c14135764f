-- ===== src/Gpu/Worker/Tests.antt =====
-- The worker of src/gpu/gpu_worker.cpp on a rising market.
use adaptive_fpga.Prelude.{ℕ, ◌+◌, ◌≡◌, ◌↔◌, refl, arith, [], ◌∷◌, true, false, replicate}
use adaptive_fpga.Prelude.Int.{pos, negsuc, ◌-ℤ◌, ◌≤ℤ◌}
use adaptive_fpga.FixedPoint.{one}
use adaptive_fpga.Book.{no_book_error}
use adaptive_fpga.Gpu.Worker.{
  RtlStreamResult, GpuWorker, no_rows, minus_one, row_of, consume_result,
}
use adaptive_fpga.Gpu.Worker.Label.{row_of_lem}
use adaptive_fpga.Prelude.{some}
use adaptive_fpga.Gpu.Protocol.{ModelUpdate, validate_model_update}
use adaptive_fpga.Gpu.Mailbox.{ModelUpdateMailbox, new_mailbox, publish}
use adaptive_fpga.Gpu.Worker.Poll.{Forwarded, poll_model_update-Forwarded}
use adaptive_fpga.Gpu.Worker.{forwarded, poll_model_update}

-- A result with a spread of two ticks.
abbrev quote : ℕ → ℕ → RtlStreamResult
quote index bid = record {
  event_index = index;
  timestamp_ns = index;
  error = no_book_error;
  features = record { values = replicate 8 (pos 1); valid = true };
  best_bid_price_ticks = pos bid;
  best_bid_quantity = 5;
  best_ask_price_ticks = pos (bid + 2);
  best_ask_quantity = 5;
}

-- Batches of one row, each labelled by the next result.
abbrev idle : GpuWorker
idle = record {
  batch_rows = 1;
  next_update_version = 2;
  label_horizon_events = 1;
  minimum_profit_ticks = pos 1;
  mapped_rows = [];
  pending_labels = [];
  model_update_in_flight = false;
  model_updates_published = 0;
  metrics = no_rows;
  submitted = [];
}

-- Bought at 102 and sold at 105: one batch with a BUY row, and the second result waits.
submits :
    let w = consume_result (consume_result idle (quote 0 100)) (quote 1 105) in
    (w.submitted ≡ (2, record { values = replicate 8 (pos 1); label = one } ∷ []) ∷ [])
    × (w.pending_labels ≡ quote 1 105 ∷ [])
unfolding consume_result ◌-ℤ◌
submits = (refl, refl)

row_of_lem_example :
    let label = (row_of (pos 1) (quote 0 100) (quote 1 105)).label in
    ((label ≡ one) ↔ (pos 1 ≤ℤ (pos 105 -ℤ pos 102)))
    × ((label ≡ minus_one) ↔ (pos 1 ≤ℤ (pos 100 -ℤ pos 107)))
row_of_lem_example =
    row_of_lem (pos 1) (quote 0 100) (quote 1 105) (omega arith) (omega arith) (omega arith)

-- A worker with one result in its queue.
abbrev waiting_worker : GpuWorker
waiting_worker = consume_result idle (quote 0 100)

abbrev learned : ModelUpdate
learned = record {
  update_version = 2;
  weights = replicate 8 (pos 9);
  buy_threshold = pos 16_384;
  sell_threshold = negsuc 16_383;
}

abbrev busy : GpuWorker
busy = record idle { model_update_in_flight = true }

abbrev rested : GpuWorker
rested = record idle { next_update_version = 3; model_updates_published = 1 }

abbrev holding : ModelUpdateMailbox
holding = record new_mailbox { latest_update = some learned }

forwards : poll_model_update busy new_mailbox (some learned) ≡ forwarded rested holding
unfolding poll_model_update publish validate_model_update
forwards = refl

poll_model_update-Forwarded_example :
    (busy.model_update_in_flight ≡ true) × Forwarded busy new_mailbox learned rested holding
poll_model_update-Forwarded_example =
    poll_model_update-Forwarded busy new_mailbox learned rested holding forwards
