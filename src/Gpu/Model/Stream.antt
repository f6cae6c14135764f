-- ===== src/Gpu/Model/Stream.antt =====
-- The mapped streaming input: its capacity, the mapping, and the deterministic update.
use adaptive_fpga.Prelude.{
  ℕ, ◌*◌, Bool, true, false, not, ◌||◌, List, [], ◌∷◌, ◌++◌, Option, none, some, leb, ltb, ◌==◌,
  if◌then◌else◌, replicate, get_or, take, ◌%◌, ◌/◌,
}
use adaptive_fpga.Prelude.Int.{ℤ, pos, negsuc}
use adaptive_fpga.Gpu.Protocol.{ModelUpdate}
use adaptive_fpga.Gpu.Model.{
  OpenCl, Impl, Op, ◌>>◌, give, fail, modify, enqueue, check_opencl, check_all, refuse_if,
  arguments, is_zero, is_negative, create_buffer, stream_input_buffer, stream_label_buffer,
  stream_update_buffer, stream_gradient_buffer, stream_loss_buffer, stream_correct_buffer,
  stream_metrics_buffer, write_buffer, read_buffer, run_kernel, map_buffer, unmap_buffer,
  phase6_update_kernel, wait_for_events, flush_queue, get_event_info, execution_failed, no_rows,
  cannot_resize, batch_too_large, already_mapped, map_in_flight, not_mapped, invalid_version,
  already_in_flight, too_many_features,
}
use adaptive_fpga.Gpu.Model.Device.{no_buffers}
use adaptive_fpga.Gpu.Model.Smoke.{uint_max}

unfoldable pub is_some {ℓ} : {A : Type ℓ} → Option A → Bool
is_some (some a) = true
is_some none = false

unfoldable pub is_active : Impl → Bool
unfolding is_some
is_active s = s.mapping.values || (s.mapping.labels || is_some s.pending_stream_update_version)

unfoldable pub release_stream_buffers : Impl → Impl
release_stream_buffers s = record s { buffers = no_buffers }

-- Zero weights and thresholds of a quarter, unless a model was configured.
unfoldable pub initial_values : Option (List ℤ) → List ℤ
initial_values (some configured) = configured
initial_values none = replicate 8 (pos 0) ++ pos 16_384 ∷ negsuc 16_383 ∷ []

unfoldable pub initialise_values : Impl → Impl
unfolding initial_values
initialise_values s = record s { stream_update_values = initial_values s.configured_training_model }

unfoldable pub unmap_stream_values : Impl → Impl
unmap_stream_values s = record s { mapping = record s.mapping { values = false; rows = 0 } }

-- `release_event` of the events that the deterministic update uses.
unfoldable pub release_update_events : Impl → Impl
release_update_events s = record s {
  events = record s.events { read = false; kernel = false; unmap = false };
}

-- The values in the order of the buffer: eight weights, then the two thresholds.
unfoldable pub update_of : ℕ → List ℤ → ModelUpdate
update_of version values = record {
  update_version = version;
  weights = take 8 values;
  buy_threshold = get_or values 8 (pos 0);
  sell_threshold = get_or values 9 (pos 0);
}

module _ (cl : OpenCl) where
  unfoldable pub replace_stream_buffers : ℕ → Op (Unit {0})
  unfolding ◌>>◌ enqueue modify refuse_if check_opencl release_stream_buffers initialise_values
  replace_stream_buffers rows = do
    refuse_if (ltb 576_460_752_303_423_487 rows) batch_too_large
    modify release_stream_buffers
    enqueue cl (create_buffer stream_input_buffer (rows * 32))
        (λ ok s. record s { buffers = record s.buffers { input = ok } })
    enqueue cl (create_buffer stream_label_buffer (rows * 4))
        (λ ok s. record s { buffers = record s.buffers { label = ok } })
    enqueue cl (create_buffer stream_update_buffer 40)
        (λ ok s. record s { buffers = record s.buffers { update = ok } })
    enqueue cl
        (create_buffer stream_gradient_buffer (rows * 32 * 8 % 18_446_744_073_709_551_616 / 4))
        (λ ok s. record s { buffers = record s.buffers { gradient = ok } })
    enqueue cl (create_buffer stream_loss_buffer (rows * 8))
        (λ ok s. record s { buffers = record s.buffers { loss = ok } })
    enqueue cl (create_buffer stream_correct_buffer (rows * 4))
        (λ ok s. record s { buffers = record s.buffers { correct = ok } })
    enqueue cl (create_buffer stream_metrics_buffer 24)
        (λ ok s. record s { buffers = record s.buffers { metrics = ok } })
    modify initialise_values
    check_opencl cl (write_buffer stream_update_buffer)
    modify (λ s. record s { stream_capacity_rows = rows })

  unfoldable pub grow_stream : ℕ → Op (Unit {0})
  unfolding ◌>>◌ refuse_if replace_stream_buffers is_active
  grow_stream rows s = (refuse_if (is_active s) cannot_resize >> replace_stream_buffers rows) s

  unfoldable pub ensure_stream_capacity : ℕ → Op (Unit {0})
  unfolding give fail grow_stream
  ensure_stream_capacity rows s =
      if rows == 0
      then fail no_rows s
      else if leb rows s.stream_capacity_rows
      then give tt s
      else grow_stream rows s

  -- The end of `map_stream_feature_rows`; the span is its length.
  unfoldable pub map_values : ℕ → Op ℕ
  unfolding ◌>>◌ enqueue modify give ensure_stream_capacity
  map_values rows = do
    ensure_stream_capacity rows
    enqueue cl (map_buffer stream_input_buffer (rows * 32))
        (λ ok s. record s { mapping = record s.mapping { values = ok } })
    modify (λ s. record s { mapping = record s.mapping { rows = rows } })
    give (rows * 8)

  unfoldable pub map_stream_feature_rows : ℕ → Op ℕ
  unfolding fail map_values is_some
  map_stream_feature_rows rows s =
      if s.mapping.values
      then fail already_mapped s
      else if is_some s.pending_stream_update_version
      then fail map_in_flight s
      else map_values rows s

  -- A read of the update buffer that fills `stream_update_values`.
  unfoldable pub read_update_values : Op (Unit {0})
  unfolding enqueue
  read_update_values s =
      let values = cl.update_values s.calls in
      enqueue cl (read_buffer stream_update_buffer)
        (λ ok t. record t {
          events = record t.events { read = ok };
          stream_update_values = if ok then values else t.stream_update_values;
        })
        s

  unfoldable pub unmap_rows : Op (Unit {0})
  unfolding ◌>>◌ enqueue modify release_update_events unmap_stream_values
  unmap_rows = do
    modify release_update_events
    enqueue cl (unmap_buffer stream_input_buffer)
        (λ ok s. record s { events = record s.events { unmap = ok } })
    modify unmap_stream_values

  unfoldable pub run_phase6_kernel : ℕ → Op (Unit {0})
  unfolding ◌>>◌ enqueue modify check_opencl check_all arguments read_update_values
  run_phase6_kernel version = do
    check_all cl (arguments phase6_update_kernel 0 3)
    enqueue cl (run_kernel phase6_update_kernel 1)
        (λ ok s. record s { events = record s.events { kernel = ok } })
    read_update_values
    check_opencl cl flush_queue
    modify (λ s. record s { pending_stream_update_version = some version })

  unfoldable pub run_phase6_update : ℕ → Op (Unit {0})
  unfolding ◌>>◌ unmap_rows run_phase6_kernel
  run_phase6_update version = unmap_rows >> run_phase6_kernel version

  unfoldable pub submit_phase6_model_update : ℕ → Op (Unit {0})
  unfolding ◌>>◌ refuse_if run_phase6_update is_some
  submit_phase6_model_update version s =
      (do
        refuse_if (not s.mapping.values || s.mapping.rows == 0) not_mapped
        refuse_if (version == 0) invalid_version
        refuse_if (is_some s.pending_stream_update_version) already_in_flight
        refuse_if (ltb uint_max (s.mapping.rows * 8)) too_many_features
        run_phase6_update version)
        s

  unfoldable pub take_update : ℕ → Op (Option ModelUpdate)
  unfolding give update_of release_update_events
  take_update version s =
      give (some (update_of version s.stream_update_values))
        (record (release_update_events s) { pending_stream_update_version = none })

  -- What a poll does with the execution status.
  unfoldable pub poll_status {ℓ} : {A : Type ℓ} → ℤ → Op (Option A) → Op (Option A)
  unfolding give fail is_negative is_zero
  poll_status status complete =
      if is_negative status
      then fail (execution_failed status)
      else if is_zero status
      then complete
      else give none

  unfoldable pub poll_pending : Option ℕ → Op (Option ModelUpdate)
  unfolding ◌>>◌ give check_opencl take_update poll_status
  poll_pending none s = give none s
  poll_pending (some version) s =
      let status = cl.execution_status s.calls in
      (check_opencl cl get_event_info >> poll_status status (take_update version)) s

  unfoldable pub poll_phase6_model_update : Op (Option ModelUpdate)
  unfolding poll_pending
  poll_phase6_model_update s = poll_pending s.pending_stream_update_version s

  unfoldable pub discard_values : Op (Unit {0})
  unfolding ◌>>◌ modify check_opencl unmap_stream_values
  discard_values = do
    check_opencl cl (unmap_buffer stream_input_buffer)
    modify unmap_stream_values
    check_opencl cl wait_for_events

  unfoldable pub discard_stream_feature_rows : Op (Unit {0})
  unfolding give discard_values
  discard_stream_feature_rows s = if s.mapping.values then discard_values s else give tt s
