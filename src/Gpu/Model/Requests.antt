-- ===== src/Gpu/Model/Requests.antt =====
-- The calls of GpuModel of src/gpu/gpu_model.cpp, in any sequence.
use adaptive_fpga.Prelude.{ℕ, Bool, true, false, List, [], ◌∷◌}
use adaptive_fpga.Prelude.Int.{ℤ}
use adaptive_fpga.Event.{ModelParameters}
use adaptive_fpga.Gpu.Model.{OpenCl, Impl, Op, fail, opencl_not_found}
use adaptive_fpga.Gpu.Model.Smoke.{double_values}
use adaptive_fpga.Gpu.Model.Stream.{
  map_stream_feature_rows, submit_phase6_model_update, poll_phase6_model_update,
  discard_stream_feature_rows,
}
use adaptive_fpga.Gpu.Model.Training.{
  set_training_model, map_training_batch, submit_training_batch, poll_training_update,
  discard_training_batch,
}

pub data Request : Type 0 where
  set_model : ModelParameters → Request
  double : List ℕ → Request
  map_rows map_batch submit_update : ℕ → Request
  submit_batch : ℕ → ℤ → ℤ → Request
  poll_update discard_rows poll_batch discard_batch : Request

-- A method of GpuModel: a build without OpenCL has no implementation behind it.
unfoldable pub public_call {ℓ} : {A : Type ℓ} → Bool → Op A → Op A
unfolding fail
public_call true m = m
public_call false m = fail opencl_not_found

-- The state after a call, whether it returns or throws.
unfoldable pub run_request : Bool → OpenCl → Request → Impl → Impl
unfolding public_call set_training_model double_values map_stream_feature_rows map_training_batch
    submit_phase6_model_update submit_training_batch poll_phase6_model_update
    discard_stream_feature_rows poll_training_update discard_training_batch
run_request built cl (set_model model) s = (public_call built (set_training_model model) s).1
run_request built cl (double input) s = (public_call built (double_values cl input) s).1
run_request built cl (map_rows rows) s = (public_call built (map_stream_feature_rows cl rows) s).1
run_request built cl (map_batch rows) s = (public_call built (map_training_batch cl rows) s).1
run_request built cl (submit_update version) s =
    (public_call built (submit_phase6_model_update cl version) s).1
run_request built cl (submit_batch version rate l2) s =
    (public_call built (submit_training_batch cl version rate l2) s).1
run_request built cl poll_update s = (public_call built (poll_phase6_model_update cl) s).1
run_request built cl discard_rows s = (public_call built (discard_stream_feature_rows cl) s).1
run_request built cl poll_batch s = (public_call built (poll_training_update cl) s).1
run_request built cl discard_batch s = (public_call built (discard_training_batch cl) s).1

unfoldable pub run_requests : Bool → OpenCl → List Request → Impl → Impl
unfolding run_request
run_requests built cl [] s = s
run_requests built cl (request ∷ requests) s =
    run_requests built cl requests (run_request built cl request s)
