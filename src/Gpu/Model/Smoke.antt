-- ===== src/Gpu/Model/Smoke.antt =====
-- The doubling kernel of the smoke test.
use adaptive_fpga.Prelude.{ℕ, ◌*◌, false, List, [], leb, ltb, ◌==◌, if◌then◌else◌, length}
use adaptive_fpga.Gpu.Model.{
  OpenCl, Impl, Op, ◌>>◌, give, modify, enqueue, check_opencl, check_all, refuse_if, arguments,
  create_buffer, input_buffer, output_buffer, write_buffer, read_buffer, run_kernel, smoke_kernel,
  wait_for_events, too_many_values, input_too_large,
}

-- `std::numeric_limits<std::size_t>::max()` and that of `cl_uint`.
abbrev pub size_max : ℕ
size_max = 18_446_744_073_709_551_615

abbrev pub uint_max : ℕ
uint_max = 4_294_967_295

unfoldable pub release_smoke_buffers : Impl → Impl
release_smoke_buffers s = record s { smoke = record s.smoke { input = false; output = false } }

unfoldable pub release_smoke_events : Impl → Impl
release_smoke_events s = record s {
  smoke = record s.smoke {
    input_complete = false;
    kernel_complete = false;
    output_complete = false;
  };
}

module _ (cl : OpenCl) where
  unfoldable pub replace_smoke_buffers : ℕ → Op (Unit {0})
  unfolding ◌>>◌ enqueue modify refuse_if release_smoke_buffers
  replace_smoke_buffers count = do
    refuse_if (ltb 4_611_686_018_427_387_903 count) input_too_large
    modify release_smoke_buffers
    enqueue cl (create_buffer input_buffer (count * 4))
        (λ ok s. record s { smoke = record s.smoke { input = ok } })
    enqueue cl (create_buffer output_buffer (count * 4))
        (λ ok s. record s { smoke = record s.smoke { output = ok } })
    modify (λ s. record s { smoke = record s.smoke { buffer_capacity = count } })

  unfoldable pub ensure_buffer_capacity : ℕ → Op (Unit {0})
  unfolding give replace_smoke_buffers
  ensure_buffer_capacity count s =
      if leb count s.smoke.buffer_capacity then give tt s else replace_smoke_buffers count s

  -- The values read back into `output`.
  unfoldable pub read_output : Op (List ℕ)
  unfolding give
  read_output s = give (cl.doubled_values s.calls) s

  unfoldable pub double_on_device : ℕ → Op (List ℕ)
  unfolding ◌>>◌ enqueue modify refuse_if check_opencl check_all arguments release_smoke_events
      ensure_buffer_capacity read_output
  double_on_device count = do
    refuse_if (ltb uint_max count) too_many_values
    ensure_buffer_capacity count
    modify release_smoke_events
    enqueue cl (write_buffer input_buffer)
        (λ ok s. record s { smoke = record s.smoke { input_complete = ok } })
    check_all cl (arguments smoke_kernel 0 3)
    enqueue cl (run_kernel smoke_kernel count)
        (λ ok s. record s { smoke = record s.smoke { kernel_complete = ok } })
    enqueue cl (read_buffer output_buffer)
        (λ ok s. record s { smoke = record s.smoke { output_complete = ok } })
    check_opencl cl wait_for_events
    read_output

  unfoldable pub double_values : List ℕ → Op (List ℕ)
  unfolding give double_on_device
  double_values input s = if length input == 0 then give [] s else double_on_device (length input) s
