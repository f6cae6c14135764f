-- ===== src/Gpu/Model/Training.antt =====
-- Training batches: the labels beside the features, the configured model, and the two kernels.
use adaptive_fpga.Prelude.{
  ℕ, ◌*◌, ◌+◌, ◌-◌, Bool, false, not, ◌||◌, [], ◌∷◌, ◌++◌, Option, none, some, ltb, ◌==◌,
  if◌then◌else◌,
}
use adaptive_fpga.Prelude.Int.{ℤ, pos, negsuc, leb_ℤ, ltb_ℤ}
use adaptive_fpga.Event.{ModelParameters}
use adaptive_fpga.Gpu.Oracle.{RegressionMetrics}
use adaptive_fpga.Gpu.Model.{
  OpenCl, Impl, returned, Op, ◌>>◌, ◌>>=◌, give, modify, enqueue, check_opencl, check_all,
  refuse_if, arguments, TrainingUpdate, TrainingTiming, EventName, unmap_event, kernel_event,
  reduce_event, read_event, stream_input_buffer, stream_label_buffer, stream_metrics_buffer,
  read_buffer, run_kernel, map_buffer, unmap_buffer, training_kernel, training_reduce_kernel,
  wait_for_events, flush_queue, get_event_info, already_in_flight, batch_active, invalid_model,
  invalid_training, not_mapped_for_training,
}
use adaptive_fpga.Gpu.Model.Device.{no_events}
use adaptive_fpga.Gpu.Model.Stream.{
  is_some, is_active, update_of, map_stream_feature_rows, read_update_values, poll_status,
  discard_stream_feature_rows,
}

-- The lengths of the two spans.
pub record MappedTrainingBatch : Type 0 where
  pub features : ℕ
  pub labels : ℕ

-- The conversion of an int64_t to uint64_t.
unfoldable pub to_u64 : ℤ → ℕ
to_u64 (pos n) = n
to_u64 (negsuc n) = 18_446_744_073_709_551_615 - n

unfoldable pub configure : ModelParameters → Impl → Impl
configure model s = record s {
  configured_training_model =
      some (model.weights ++ model.buy_threshold ∷ model.sell_threshold ∷ []);
}

unfoldable pub set_training_model : ModelParameters → Op (Unit {0})
unfolding ◌>>◌ modify refuse_if is_active configure
set_training_model model s =
    (do
      refuse_if (is_active s) batch_active
      refuse_if (model.model_version == 0 || leb_ℤ model.buy_threshold model.sell_threshold)
          invalid_model
      modify (configure model))
      s

unfoldable pub release_events : Impl → Impl
release_events s = record s { events = no_events }

unfoldable pub forget_mapping : Impl → Impl
forget_mapping s = record s { mapping = record { values = false; labels = false; rows = 0 } }

module _ (cl : OpenCl) where
  unfoldable pub map_labels : ℕ → ℕ → Op MappedTrainingBatch
  unfolding ◌>>◌ enqueue give
  map_labels rows features = do
    enqueue cl (map_buffer stream_label_buffer (rows * 4))
        (λ ok s. record s { mapping = record s.mapping { labels = ok } })
    give (record { features = features; labels = rows })

  unfoldable pub map_training_batch : ℕ → Op MappedTrainingBatch
  unfolding ◌>>=◌ map_stream_feature_rows map_labels
  map_training_batch rows = map_stream_feature_rows cl rows >>= map_labels rows

  -- The metrics arrive in `stream_training_metrics`; their read has no event.
  unfoldable pub read_training_metrics : Op (Unit {0})
  unfolding enqueue
  read_training_metrics s =
      let metrics = cl.training_metrics s.calls in
      enqueue cl (read_buffer stream_metrics_buffer)
        (λ ok t. record t {
          stream_training_metrics = if ok then metrics else t.stream_training_metrics;
        })
        s

  unfoldable pub unmap_batch : Op (Unit {0})
  unfolding ◌>>◌ enqueue modify check_opencl release_events forget_mapping
  unmap_batch = do
    modify release_events
    enqueue cl (unmap_buffer stream_input_buffer)
        (λ ok s. record s { events = record s.events { unmap = ok } })
    check_opencl cl (unmap_buffer stream_label_buffer)
    modify forget_mapping

  unfoldable pub run_training_kernels : ℕ → Op (Unit {0})
  unfolding ◌>>◌ enqueue check_all arguments
  run_training_kernels rows = do
    check_all cl (arguments training_kernel 0 7)
    enqueue cl (run_kernel training_kernel rows)
        (λ ok s. record s { events = record s.events { kernel = ok } })
    check_all cl (arguments training_reduce_kernel 0 8)
    enqueue cl (run_kernel training_reduce_kernel 8)
        (λ ok s. record s { events = record s.events { reduce = ok } })

  unfoldable pub start_training : ℕ → Op (Unit {0})
  start_training version s = (
    returned tt,
    record s {
      pending_stream_update_version = some version;
      training_started = some (cl.now s.calls);
    },
  )

  unfoldable pub run_training : ℕ → ℕ → Op (Unit {0})
  unfolding ◌>>◌ check_opencl unmap_batch run_training_kernels read_training_metrics
      read_update_values start_training
  run_training version rows = do
    unmap_batch
    run_training_kernels rows
    read_training_metrics
    read_update_values cl
    check_opencl cl flush_queue
    start_training version

  unfoldable pub submit_training_batch : ℕ → ℤ → ℤ → Op (Unit {0})
  unfolding ◌>>◌ refuse_if run_training is_some
  submit_training_batch version learning_rate l2 s =
      (do
        refuse_if (not s.mapping.values || (not s.mapping.labels || s.mapping.rows == 0))
            not_mapped_for_training
        refuse_if (version == 0 || (leb_ℤ learning_rate (pos 0) || ltb_ℤ l2 (pos 0)))
            invalid_training
        refuse_if (is_some s.pending_stream_update_version) already_in_flight
        run_training version s.mapping.rows)
        s

  unfoldable pub profiled : Option (ℕ × ℕ) → ℕ
  profiled none = 0
  profiled (some times) = if ltb times.1 times.0 then 0 else times.1 - times.0

  -- `event_ms`: nothing for a null event, or one without a profile.
  unfoldable pub event_ms : Bool → EventName → Impl → ℕ
  unfolding profiled
  event_ms present name s = if present then profiled (cl.profile s.calls name) else 0

  unfoldable pub elapsed : Option ℕ → ℕ → ℕ
  elapsed none now = 0
  elapsed (some started) now = now - started

  unfoldable pub timing_of : Impl → TrainingTiming
  unfolding event_ms elapsed
  timing_of s = record {
    upload = event_ms s.events.unmap unmap_event s;
    kernel = event_ms s.events.kernel kernel_event s + event_ms s.events.reduce reduce_event s;
    readback = event_ms s.events.read read_event s;
    end_to_end = elapsed s.training_started (cl.now s.calls);
  }

  unfoldable pub metrics_of : ℤ × ℤ × ℤ → RegressionMetrics
  unfolding to_u64
  metrics_of values = record {
    squared_error_sum = values.0;
    correct_predictions = to_u64 values.1;
    rows = to_u64 values.2;
  }

  unfoldable pub take_training_update : ℕ → Op (Option TrainingUpdate)
  unfolding update_of timing_of metrics_of release_events
  take_training_update version s = (
    returned (
        some (record {
          model = update_of version s.stream_update_values;
          metrics = metrics_of s.stream_training_metrics;
          timing = timing_of s;
        })),
    record (release_events s) { pending_stream_update_version = none; training_started = none },
  )

  unfoldable pub poll_training : Option ℕ → Op (Option TrainingUpdate)
  unfolding ◌>>◌ give check_opencl take_training_update poll_status
  poll_training none s = give none s
  poll_training (some version) s =
      let status = cl.execution_status s.calls in
      (check_opencl cl get_event_info >> poll_status cl status (take_training_update version)) s

  unfoldable pub poll_training_update : Op (Option TrainingUpdate)
  unfolding poll_training
  poll_training_update s = poll_training s.pending_stream_update_version s

  unfoldable pub discard_labels : Op (Unit {0})
  unfolding ◌>>◌ modify check_opencl
  discard_labels = do
    check_opencl cl (unmap_buffer stream_label_buffer)
    modify (λ s. record s { mapping = record s.mapping { labels = false } })
    check_opencl cl wait_for_events

  unfoldable pub discard_mapped_labels : Op (Unit {0})
  unfolding give discard_labels
  discard_mapped_labels s = if s.mapping.labels then discard_labels s else give tt s

  unfoldable pub discard_training_batch : Op (Unit {0})
  unfolding ◌>>◌ give discard_stream_feature_rows discard_mapped_labels
  discard_training_batch s =
      if s.mapping.values || s.mapping.labels
      then (discard_stream_feature_rows cl >> discard_mapped_labels) s
      else give tt s
