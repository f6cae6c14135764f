-- ===== src/Gpu/Model/Device.antt =====
-- The constructor and the destructor of GpuModel::Impl.
use adaptive_fpga.Prelude.{ℕ, false, not, ◌&&◌, [], none, leb, if◌then◌else◌, replicate}
use adaptive_fpga.Prelude.Int.{pos}
use adaptive_fpga.Gpu.Model.{
  OpenCl, Impl, Handles, SmokeState, StreamBuffers, StreamEvents, Exit, returned, threw, Op, ◌>>◌,
  enqueue, check_opencl, refuse_if, record_call, is_zero, get_platforms, get_devices,
  create_context, create_queue, create_program, build_program, create_kernel, smoke_kernel,
  phase6_update_kernel, training_kernel, training_reduce_kernel, unmap_buffer, stream_input_buffer,
  stream_label_buffer, wait_for_events, no_platform, no_device, cannot_open_kernel, Buffer, Bool,
}

-- `platform_index` and `device_index` of OpenclDeviceInfo.
pub record Place : Type 0 where
  pub platform_index : ℕ
  pub device_index : ℕ

abbrev pub no_events : StreamEvents
no_events = record { unmap = false; kernel = false; reduce = false; read = false }

abbrev pub no_buffers : StreamBuffers
no_buffers = record {
  input = false;
  label = false;
  update = false;
  gradient = false;
  loss = false;
  correct = false;
  metrics = false;
}

abbrev pub no_handles : Handles
no_handles = record {
  context = false;
  queue = false;
  program = false;
  smoke = false;
  phase6_update = false;
  training = false;
  training_reduce = false;
}

abbrev pub no_smoke : SmokeState
no_smoke = record {
  input = false;
  output = false;
  input_complete = false;
  kernel_complete = false;
  output_complete = false;
  buffer_capacity = 0;
}

-- The members before the constructor's body.
abbrev pub new_impl : Impl
new_impl = record {
  handles = no_handles;
  smoke = no_smoke;
  buffers = no_buffers;
  events = no_events;
  mapping = record { values = false; labels = false; rows = 0 };
  stream_capacity_rows = 0;
  stream_update_values = replicate 10 (pos 0);
  configured_training_model = none;
  stream_training_metrics = (pos 0, pos 0, pos 0);
  pending_stream_update_version = none;
  training_started = none;
  calls = [];
}

-- A handle that is not null is released, and set to null.
unfoldable pub release : Bool → Bool
release created = if created then false else created

unfoldable pub release_stream_events : Impl → Impl
unfolding release
release_stream_events s = record s {
  events = record {
    read = release s.events.read;
    reduce = release s.events.reduce;
    kernel = release s.events.kernel;
    unmap = release s.events.unmap;
  };
}

unfoldable pub release_stream_memory : Impl → Impl
unfolding release
release_stream_memory s = record s {
  buffers = record {
    update = release s.buffers.update;
    metrics = release s.buffers.metrics;
    correct = release s.buffers.correct;
    loss = release s.buffers.loss;
    gradient = release s.buffers.gradient;
    input = release s.buffers.input;
    label = release s.buffers.label;
  };
}

unfoldable pub release_smoke : Impl → Impl
unfolding release
release_smoke s = record s {
  smoke = record s.smoke {
    output_complete = release s.smoke.output_complete;
    kernel_complete = release s.smoke.kernel_complete;
    input_complete = release s.smoke.input_complete;
    output = release s.smoke.output;
    input = release s.smoke.input;
  };
}

unfoldable pub release_handles : Impl → Impl
unfolding release
release_handles s = record s {
  handles = record {
    smoke = release s.handles.smoke;
    phase6_update = release s.handles.phase6_update;
    training = release s.handles.training;
    training_reduce = release s.handles.training_reduce;
    program = release s.handles.program;
    queue = release s.handles.queue;
    context = release s.handles.context;
  };
}

unfoldable pub reset_capacities : Impl → Impl
reset_capacities s = record s {
  smoke = record s.smoke { buffer_capacity = 0 };
  stream_capacity_rows = 0;
  pending_stream_update_version = none;
}

module _ (cl : OpenCl) where
  -- A list of ids is asked for twice: its length, then its elements.
  unfoldable pub find_device_id : Place → Op (Unit {0})
  unfolding ◌>>◌ check_opencl refuse_if
  find_device_id selected = do
    check_opencl cl get_platforms
    refuse_if (leb cl.platform_count selected.platform_index) no_platform
    check_opencl cl get_platforms
    check_opencl cl get_devices
    refuse_if (leb (cl.device_count selected.platform_index) selected.device_index) no_device
    check_opencl cl get_devices

  unfoldable pub create_resources : Place → Op (Unit {0})
  unfolding ◌>>◌ enqueue check_opencl refuse_if find_device_id
  create_resources selected = do
    find_device_id selected
    enqueue cl create_context (λ ok s. record s { handles = record s.handles { context = ok } })
    enqueue cl create_queue (λ ok s. record s { handles = record s.handles { queue = ok } })
    refuse_if (not cl.kernel_file) cannot_open_kernel
    enqueue cl create_program (λ ok s. record s { handles = record s.handles { program = ok } })
    check_opencl cl build_program
    enqueue cl (create_kernel smoke_kernel)
        (λ ok s. record s { handles = record s.handles { smoke = ok } })
    enqueue cl (create_kernel phase6_update_kernel)
        (λ ok s. record s { handles = record s.handles { phase6_update = ok } })
    enqueue cl (create_kernel training_kernel)
        (λ ok s. record s { handles = record s.handles { training = ok } })
    enqueue cl (create_kernel training_reduce_kernel)
        (λ ok s. record s { handles = record s.handles { training_reduce = ok } })

  -- An unmapping whose failure is not reported, and its wait.
  unfoldable pub try_unmap : Buffer → Impl → Impl
  unfolding record_call is_zero
  try_unmap buffer s =
      let unmapped = record_call (unmap_buffer buffer) s in
      if is_zero (cl.status s.calls (unmap_buffer buffer))
      then record_call wait_for_events unmapped
      else unmapped

  unfoldable pub unmap_values : Impl → Impl
  unfolding try_unmap
  unmap_values s =
      let unmapped = try_unmap stream_input_buffer s in
      if s.mapping.values && (s.handles.queue && s.buffers.input)
      then record unmapped { mapping = record unmapped.mapping { values = false; rows = 0 } }
      else s

  unfoldable pub unmap_labels : Impl → Impl
  unfolding try_unmap
  unmap_labels s =
      let unmapped = try_unmap stream_label_buffer s in
      if s.mapping.labels && (s.handles.queue && s.buffers.label)
      then record unmapped { mapping = record unmapped.mapping { labels = false } }
      else s

  unfoldable pub cleanup : Impl → Impl
  unfolding unmap_values unmap_labels release_stream_events release_stream_memory release_smoke
      release_handles reset_capacities
  cleanup s =
      let unmapped = unmap_labels (unmap_values s) in
      let without_stream = release_stream_memory (release_stream_events unmapped) in
      reset_capacities (release_handles (release_smoke without_stream))

  unfoldable pub or_cleanup : Exit (Unit {0}) × Impl → Exit (Unit {0}) × Impl
  unfolding cleanup
  or_cleanup (returned u, s) = (returned u, s)
  or_cleanup (threw e, s) = (threw e, cleanup s)

  -- The constructor: an exception releases what was created, and is thrown again.
  unfoldable pub construct_model : Place → Exit (Unit {0}) × Impl
  unfolding create_resources or_cleanup
  construct_model selected = or_cleanup (create_resources selected new_impl)
