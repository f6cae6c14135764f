-- ===== src/Gpu/Model/Tests.antt =====
-- Runs of the GPU controller, with an OpenCL whose every call succeeds, and one that fails to create the
-- larger input buffer.
use adaptive_fpga.Prelude.{
  ℕ, ◌≡◌, refl, arith, Bool, true, false, not, ◌⊎◌, inl, none, some, [], ◌∷◌, ◌==◌, if◌then◌else◌,
  replicate, ◌≤◌, ◌<◌, length,
}
use adaptive_fpga.Prelude.Int.{pos, negsuc}
use adaptive_fpga.Gpu.Model.{OpenCl, Impl, returned, threw, cannot_open_kernel, create_buffer}
use adaptive_fpga.Gpu.Model.Rules.{After}
use adaptive_fpga.Gpu.Model.Device.{
  Place, construct_model, new_impl, no_buffers, no_handles, no_events, no_smoke,
}
use adaptive_fpga.Gpu.Model.Stream.{ensure_stream_capacity, is_active}
use adaptive_fpga.Gpu.Model.Training.{submit_training_batch, poll_training_update}
use adaptive_fpga.Gpu.Model.Requests.{map_batch, submit_batch, map_rows, run_requests}
use adaptive_fpga.Gpu.Model.Sequences.{run_requests-Exclusive, run_requests-BatchFree}
use adaptive_fpga.Gpu.Model.Complete.{
  submit_training_batch_lem, poll_training_update_lem, Delivered,
}
use adaptive_fpga.Gpu.Model.Release.{construct_lem, all_handles}
use adaptive_fpga.Gpu.Model.Capacity.{
  resized, ensure_stream_capacity_lem, failed_resize_keeps_capacity, all_buffers,
}
use adaptive_fpga.Gpu.Model.SmokeTest.{
  smoke_expected, run_gpu_smoke_test, run_gpu_smoke_test_passed, Ran,
}

abbrev working : OpenCl
working = record {
  status = λ calls action. pos 0;
  execution_status = λ calls. pos 0;
  doubled_values = λ calls. smoke_expected;
  update_values = λ calls. replicate 10 (pos 7);
  training_metrics = λ calls. (pos 5, pos 1, pos 2);
  profile = λ calls name. some (10, 30);
  now = λ calls. 100;
  platform_count = 1;
  device_count = λ platform. 1;
  kernel_file = true;
}

-- Only a creation of an input buffer for four rows fails.
abbrev short_of_memory : OpenCl
short_of_memory = record working {
  status = λ calls action. elim action [
    | create_buffer buffer bytes ↦ if bytes == 128 then negsuc 3 else pos 0
    | _ ↦ pos 0
  ];
}

abbrev place : Place
place = record { platform_index = 0; device_index = 0 }

-- Two rows are mapped and submitted as version 3.
abbrev in_flight : Impl
in_flight = run_requests true working (map_batch 2 ∷ submit_batch 3 (pos 10) (pos 0) ∷ []) new_impl

run_requests-Exclusive_example :
    ((run_requests true working (map_rows 2 ∷ []) new_impl).mapping.values ≡ false)
    ⊎ ((run_requests true working (map_rows 2 ∷ []) new_impl).pending_stream_update_version ≡ none)
run_requests-Exclusive_example =
    run_requests-Exclusive true working (map_rows 2 ∷ []) new_impl (inl refl)

run_requests-BatchFree_example :
    ((in_flight.mapping.values ≡ false) × (in_flight.mapping.labels ≡ false))
    ⊎ (in_flight.pending_stream_update_version ≡ none)
run_requests-BatchFree_example =
    run_requests-BatchFree true working (map_batch 2 ∷ submit_batch 3 (pos 10) (pos 0) ∷ [])
      new_impl (tt, (tt, tt)) (inl (refl, refl))

-- The event is found running once, and is complete at the second read of its status.
abbrev slow : OpenCl
slow = record working {
  execution_status = λ calls. if length calls == length in_flight.calls then pos 2 else pos 0;
}

submit_training_batch_lem_example :
    After
      (λ u s'.
        (s'.pending_stream_update_version ≡ some 4)
        × (s'.mapping.values ≡ false)
        × (s'.mapping.labels ≡ false))
      (λ s'. s'.pending_stream_update_version ≡ in_flight.pending_stream_update_version)
      (submit_training_batch working 4 (pos 10) (pos 0) in_flight)
submit_training_batch_lem_example = submit_training_batch_lem working 4 (pos 10) (pos 0) in_flight

poll_training_update_lem_example :
    After
      (λ u s'. Delivered in_flight.pending_stream_update_version u s'.pending_stream_update_version)
      (λ s'. s'.pending_stream_update_version ≡ in_flight.pending_stream_update_version)
      (poll_training_update working in_flight)
poll_training_update_lem_example = poll_training_update_lem working in_flight

-- The kernel's file cannot be opened once there are a context and a queue.
abbrev without_kernel : OpenCl
without_kernel = record working { kernel_file = false }

kernel_missing : (construct_model without_kernel place).0 ≡ threw cannot_open_kernel
unfolding construct_model
kernel_missing = refl

construct_lem_example :
    After
      (λ u s. s.handles ≡ all_handles)
      (λ s.
        (s.handles ≡ no_handles)
        × (s.buffers ≡ no_buffers)
        × (s.events ≡ no_events)
        × (s.smoke ≡ no_smoke))
      (construct_model without_kernel place)
construct_lem_example = construct_lem without_kernel place

-- A capacity of two rows.
abbrev two_rows : Impl
two_rows = (ensure_stream_capacity working 2 new_impl).1

ensure_stream_capacity_lem_example :
    (two_rows.buffers ≡ all_buffers)
    × (2 ≤ two_rows.stream_capacity_rows)
    × (2 ≤ 0 → two_rows ≡ new_impl)
    × (0 < 2
        → 2 < 72_057_594_037_927_936
        → (two_rows.stream_capacity_rows ≡ 2) × (two_rows.calls ≡ resized 2 128 new_impl.calls))
ensure_stream_capacity_lem_example =
    ensure_stream_capacity_lem working 2 new_impl two_rows (inl refl) grown
  where
    grown : ensure_stream_capacity working 2 new_impl ≡ (returned tt, two_rows)
    grown = unfold ensure_stream_capacity in refl

failed_resize_keeps_capacity_example :
    ((ensure_stream_capacity short_of_memory 4 two_rows).1.buffers ≡ no_buffers)
    × (ensure_stream_capacity short_of_memory two_rows.stream_capacity_rows
          (ensure_stream_capacity short_of_memory 4 two_rows).1
        ≡ (returned tt, (ensure_stream_capacity short_of_memory 4 two_rows).1))
unfolding ensure_stream_capacity is_active
failed_resize_keeps_capacity_example =
    failed_resize_keeps_capacity short_of_memory 4 two_rows refl (omega arith) (omega arith)
      (omega arith) refl

-- Bits differ.
abbrev other_bits : ℕ → ℕ → Bool
other_bits a b = not (a == b)

run_gpu_smoke_test_passed_example :
    (p : Place) × (some place ≡ some p) × Ran other_bits working (construct_model working p)
unfolding run_gpu_smoke_test
run_gpu_smoke_test_passed_example =
    run_gpu_smoke_test_passed other_bits working true (some place) refl
