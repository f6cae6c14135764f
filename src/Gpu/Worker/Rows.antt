-- ===== src/Gpu/Worker/Rows.antt =====
-- No RTL result is lost or used twice on its way into the batches of src/gpu/gpu_worker.cpp.
use adaptive_fpga.Prelude.{ℕ, ◌+◌, ◌*◌, ◌<◌, ◌≡◌, List, [], ◌∷◌, All, length, if◌then◌else◌}
use adaptive_fpga.Reference.{is_no_book_error}
use adaptive_fpga.Gpu.Worker.{RtlStreamResult, GpuWorker}

-- The worker between two results, once `open_rows` is less than a batch: the counters agree with the
-- rows, and every batch submitted is full.
pub record Counted (w : GpuWorker) : Type 0 where
  pub copied :
      w.metrics.valid_feature_rows_copied
      ≡ w.metrics.batches_submitted * w.batch_rows + length w.mapped_rows
  pub labelled : w.metrics.labelled_rows_created ≡ w.metrics.valid_feature_rows_copied
  pub batches : w.metrics.batches_submitted ≡ length w.submitted
  pub full : All (λ b. length b.1 ≡ w.batch_rows) w.submitted

pub record IsWorker (w : GpuWorker) : Type 0 where
  pub open_rows : length w.mapped_rows < w.batch_rows
  pub counted : Counted w

-- Results that have a label or were discarded.
abbrev pub settled : GpuWorker → ℕ
settled w = w.metrics.labelled_rows_created + w.metrics.invalid_feature_results_discarded

-- A later worker has settled that many more results.
record Settles (w : GpuWorker) (results : ℕ) (w' : GpuWorker) : Type 0 where
  valid : IsWorker w'
  same_rows : w'.batch_rows ≡ w.batch_rows
  more : settled w' ≡ settled w + results

-- A later worker has settled the results that left the queue.
record Drains (w : GpuWorker) (queue : List RtlStreamResult) (w' : GpuWorker) : Type 0 where
  valid : IsWorker w'
  same_rows : w'.batch_rows ≡ w.batch_rows
  accounted : settled w' + length w'.pending_labels ≡ settled w + length queue

abbrev pub accepted : RtlStreamResult → ℕ
accepted result = if is_no_book_error result.error then 1 else 0

-- What the arriving result adds to the queue.
abbrev pub kept : RtlStreamResult → List RtlStreamResult
kept result = if is_no_book_error result.error then result ∷ [] else []
