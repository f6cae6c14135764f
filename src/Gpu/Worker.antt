-- ===== src/Gpu/Worker.antt =====
-- include/verilator/rtl_stream.hpp, and the training rows and updates of src/gpu/gpu_worker.cpp: how the
-- worker pairs each RTL result with a later one, labels it, submits full batches to its GPU model, and
-- forwards the model's updates. The calls of `submit_training_batch` are recorded in `submitted`;
-- `map_training_batch` and `submit_training_batch` are taken to succeed, since what they may throw is
-- the GPU model's.
pub mod Label
pub mod Labelled
pub mod Rows
pub mod Poll
mod Tests
use adaptive_fpga.Prelude.{
  ℕ, ◌+◌, Option, none, some, Bool, true, false, not, ◌||◌, ◌&&◌, List, [], ◌∷◌, ◌++◌, leb, ◌==◌,
  if◌then◌else◌, length,
}
use adaptive_fpga.Prelude.Int.{ℤ, pos, negsuc, ◌-ℤ◌, leb_ℤ, ltb_ℤ}
use adaptive_fpga.Prelude.Words.{add_u64}
use adaptive_fpga.FixedPoint.{one}
use adaptive_fpga.Event.{FeatureVector}
use adaptive_fpga.Book.{BookError}
use adaptive_fpga.Reference.{is_no_book_error}
use adaptive_fpga.Gpu.Protocol.{ModelUpdate}
use adaptive_fpga.Gpu.Mailbox.{
  ModelUpdateMailbox, PublishError, Published, published, refused, publish,
}

pub record RtlStreamResult : Type 0 where
  pub event_index : ℕ
  pub timestamp_ns : ℕ
  pub error : BookError
  pub features : FeatureVector
  pub best_bid_price_ticks : ℤ
  pub best_bid_quantity : ℕ
  pub best_ask_price_ticks : ℤ
  pub best_ask_quantity : ℕ

-- A row of the mapped batch: eight features and a label.
pub record TrainingRow : Type 0 where
  pub values : List ℤ
  pub label : ℤ

-- The counters of GpuWorkerMetrics that the rows change.
pub record RowMetrics : Type 0 where
  pub invalid_feature_results_discarded : ℕ
  pub valid_feature_rows_copied : ℕ
  pub labelled_rows_created : ℕ
  pub batches_submitted : ℕ

-- The rows written so far stand for the mapped memory, and their number for `mapped_row_count_`.
pub record GpuWorker : Type 0 where
  pub batch_rows : ℕ
  pub next_update_version : ℕ
  pub label_horizon_events : ℕ
  pub minimum_profit_ticks : ℤ
  pub mapped_rows : List TrainingRow
  pub pending_labels : List RtlStreamResult
  pub model_update_in_flight : Bool
  pub model_updates_published : ℕ
  pub metrics : RowMetrics
  pub submitted : List (ℕ × List TrainingRow)

abbrev pub no_rows : RowMetrics
no_rows = record {
  invalid_feature_results_discarded = 0;
  valid_feature_rows_copied = 0;
  labelled_rows_created = 0;
  batches_submitted = 0;
}

-- A quote with a price and a quantity on both sides.
unfoldable pub is_quoted : RtlStreamResult → Bool
is_quoted r =
    not (leb_ℤ r.best_bid_price_ticks (pos 0))
    && (not (leb_ℤ r.best_ask_price_ticks (pos 0))
        && (not (r.best_bid_quantity == 0) && not (r.best_ask_quantity == 0)))

unfoldable pub long_profit : RtlStreamResult → RtlStreamResult → ℤ
long_profit entry future = future.best_bid_price_ticks -ℤ entry.best_ask_price_ticks

unfoldable pub short_profit : RtlStreamResult → RtlStreamResult → ℤ
short_profit entry future = entry.best_bid_price_ticks -ℤ future.best_ask_price_ticks

-- `-fixed_point::kOne`
abbrev pub minus_one : ℤ
minus_one = negsuc 65_535

unfoldable pub label_of_profits : ℤ → ℤ → ℤ → ℤ
label_of_profits minimum long short =
    if leb_ℤ minimum long && ltb_ℤ short long
    then one
    else if leb_ℤ minimum short && ltb_ℤ long short
    then minus_one
    else pos 0

unfoldable pub row_of : ℤ → RtlStreamResult → RtlStreamResult → TrainingRow
unfolding label_of_profits long_profit short_profit
row_of minimum entry future = record {
  values = entry.features.values;
  label = label_of_profits minimum (long_profit entry future) (short_profit entry future);
}

-- The rest of `add_labelled_row` once a row is written: a full batch goes to the model.
unfoldable pub submit_if_full : GpuWorker → GpuWorker
submit_if_full w =
    if length w.mapped_rows == w.batch_rows
    then record w {
      mapped_rows = [];
      model_update_in_flight = true;
      metrics = record w.metrics { batches_submitted = w.metrics.batches_submitted + 1 };
      submitted = w.submitted ++ ((w.next_update_version, w.mapped_rows) ∷ []);
    }
    else w

unfoldable pub discard_row : GpuWorker → GpuWorker
discard_row w = record w {
  metrics = record w.metrics {
    invalid_feature_results_discarded = w.metrics.invalid_feature_results_discarded + 1;
  };
}

unfoldable pub write_row : GpuWorker → TrainingRow → GpuWorker
write_row w row = record w {
  mapped_rows = w.mapped_rows ++ (row ∷ []);
  metrics = record w.metrics {
    valid_feature_rows_copied = w.metrics.valid_feature_rows_copied + 1;
    labelled_rows_created = w.metrics.labelled_rows_created + 1;
  };
}

unfoldable pub add_labelled_row : GpuWorker → RtlStreamResult → RtlStreamResult → GpuWorker
unfolding is_quoted row_of submit_if_full discard_row write_row
add_labelled_row w entry future =
    if entry.features.valid && (is_quoted entry && is_quoted future)
    then submit_if_full (write_row w (row_of w.minimum_profit_ticks entry future))
    else discard_row w

-- `result.event_index >= front.event_index + label_horizon_events_`, on uint64_t.
unfoldable pub is_due : ℕ → RtlStreamResult → RtlStreamResult → Bool
is_due horizon result front = leb (add_u64 front.event_index horizon) result.event_index

-- The loop of `consume_result` over the queue.
unfoldable pub label_due : GpuWorker → RtlStreamResult → List RtlStreamResult → GpuWorker
unfolding add_labelled_row is_due
label_due w result [] = record w { pending_labels = [] }
label_due w result (front ∷ queue) =
    let rest = label_due (add_labelled_row w front result) result queue in
    if is_due w.label_horizon_events result front
    then rest
    else record w { pending_labels = front ∷ queue }

unfoldable pub push_pending : GpuWorker → RtlStreamResult → GpuWorker
push_pending w result =
    if is_no_book_error result.error
    then record w { pending_labels = w.pending_labels ++ (result ∷ []) }
    else w

unfoldable pub consume_result : GpuWorker → RtlStreamResult → GpuWorker
unfolding label_due push_pending
consume_result w result = push_pending (label_due w result w.pending_labels) result

-- What `poll_model_update` does: nothing yet, an update forwarded to the mailbox, or the publication's
-- exception, which it lets escape.
pub data Polled : Type 0 where
  waiting : GpuWorker → Polled
  forwarded : GpuWorker → ModelUpdateMailbox → Polled
  publication_failed : PublishError → Polled

unfoldable pub after_publication : GpuWorker → ModelUpdate → Published → Polled
after_publication w update (published mailbox) =
    forwarded
      (record w {
        next_update_version = add_u64 update.update_version 1;
        model_update_in_flight = false;
        model_updates_published = w.model_updates_published + 1;
      })
      mailbox
after_publication w update (refused e) = publication_failed e

-- The last argument is what the model's `poll_training_update` returns.
unfoldable pub poll_model_update : GpuWorker → ModelUpdateMailbox → Option ModelUpdate → Polled
unfolding after_publication
poll_model_update w mailbox none = waiting w
poll_model_update w mailbox (some update) =
    if not w.model_update_in_flight
    then waiting w
    else after_publication w update (publish mailbox update)
