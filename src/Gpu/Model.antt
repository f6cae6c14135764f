-- ===== src/Gpu/Model.antt =====
-- src/gpu/gpu_model.cpp: the GPU controller, its OpenCL resources as a state. OpenCL itself is a
-- parameter: each call is an `Call`, what it answers is a function of the calls made before it, so
-- that any order of successes and failures is covered. A handle or a mapped pointer is kept as whether
-- it is not null; a failed creation or mapping leaves it null, as OpenCL documents. `float` values are
-- their 32 bits, and times are in nanoseconds, before the division by a million.
pub mod Device
pub mod Smoke
pub mod Stream
pub mod Training
pub mod Rules
pub mod Frames
pub mod Requests
pub mod Exclusive
pub mod Handover
pub mod Sequences
mod Tests
pub mod SmokeTest
pub mod Capacity
pub mod Release
pub mod Complete
pub mod Polling
use adaptive_fpga.Prelude.{ℕ, zero, suc, ◌+◌, Bool, true, false, List, [], ◌∷◌, Option, ◌==◌}
use adaptive_fpga.Prelude.Int.{ℤ, pos, negsuc}
use adaptive_fpga.Gpu.Protocol.{ModelUpdate}
use adaptive_fpga.Gpu.Oracle.{RegressionMetrics}

pub data Buffer : Type 0 where
  input_buffer output_buffer stream_input_buffer stream_label_buffer stream_update_buffer : Buffer
  stream_gradient_buffer stream_loss_buffer stream_correct_buffer stream_metrics_buffer : Buffer

pub data Kernel : Type 0 where
  smoke_kernel phase6_update_kernel training_kernel training_reduce_kernel : Kernel

-- The OpenCL calls whose status is tested; a size is in bytes, an argument by its index.
pub data Call : Type 0 where
  get_platforms get_devices create_context create_queue create_program build_program : Call
  flush_queue wait_for_events get_event_info : Call
  create_kernel : Kernel → Call
  create_buffer : Buffer → ℕ → Call
  write_buffer read_buffer unmap_buffer : Buffer → Call
  map_buffer : Buffer → ℕ → Call
  set_argument : Kernel → ℕ → Call
  run_kernel : Kernel → ℕ → Call

-- What the operations throw; the first is `check_opencl`'s.
pub data ModelError : Type 0 where
  opencl_failed : Call → ℤ → ModelError
  execution_failed : ℤ → ModelError
  no_platform no_device cannot_open_kernel : ModelError
  too_many_values input_too_large no_rows batch_too_large cannot_resize : ModelError
  already_mapped map_in_flight not_mapped invalid_version already_in_flight : ModelError
  too_many_features batch_active invalid_model invalid_training not_mapped_for_training : ModelError
  opencl_not_found : ModelError

-- The events whose times are read.
pub data EventName : Type 0 where
  unmap_event kernel_event reduce_event read_event : EventName

-- Each answer depends on the calls made before, the last one first.
pub record OpenCl : Type 0 where
  pub status : List Call → Call → ℤ
  pub execution_status : List Call → ℤ
  pub doubled_values : List Call → List ℕ
  pub update_values : List Call → List ℤ
  pub training_metrics : List Call → ℤ × ℤ × ℤ
  pub profile : List Call → EventName → Option (ℕ × ℕ)
  pub now : List Call → ℕ
  pub platform_count : ℕ
  pub device_count : ℕ → ℕ
  pub kernel_file : Bool

pub record Handles : Type 0 where
  pub context : Bool
  pub queue : Bool
  pub program : Bool
  pub smoke : Bool
  pub phase6_update : Bool
  pub training : Bool
  pub training_reduce : Bool

-- The members of the smoke test.
pub record SmokeState : Type 0 where
  pub input : Bool
  pub output : Bool
  pub input_complete : Bool
  pub kernel_complete : Bool
  pub output_complete : Bool
  pub buffer_capacity : ℕ

-- `stream_input_buffer` and the others.
pub record StreamBuffers : Type 0 where
  pub input : Bool
  pub label : Bool
  pub update : Bool
  pub gradient : Bool
  pub loss : Bool
  pub correct : Bool
  pub metrics : Bool

-- `stream_unmap_complete` and the others.
pub record StreamEvents : Type 0 where
  pub unmap : Bool
  pub kernel : Bool
  pub reduce : Bool
  pub read : Bool

-- `mapped_stream_values`, `mapped_stream_labels` and `mapped_stream_rows`.
pub record Mapping : Type 0 where
  pub values : Bool
  pub labels : Bool
  pub rows : ℕ

pub record Impl : Type 0 where
  pub handles : Handles
  pub smoke : SmokeState
  pub buffers : StreamBuffers
  pub events : StreamEvents
  pub mapping : Mapping
  pub stream_capacity_rows : ℕ
  pub stream_update_values : List ℤ
  pub configured_training_model : Option (List ℤ)
  pub stream_training_metrics : ℤ × ℤ × ℤ
  pub pending_stream_update_version : Option ℕ
  pub training_started : Option ℕ
  pub calls : List Call

pub record TrainingTiming : Type 0 where
  pub upload : ℕ
  pub kernel : ℕ
  pub readback : ℕ
  pub end_to_end : ℕ

pub record TrainingUpdate : Type 0 where
  pub model : ModelUpdate
  pub metrics : RegressionMetrics
  pub timing : TrainingTiming

-- How an operation ends.
pub data Exit {ℓ} (A : Type ℓ) : Type ℓ where
  returned : A → Exit A
  threw : ModelError → Exit A

-- An operation keeps what it changed before an exception.
abbrev pub Op {ℓ} : Type ℓ → Type ℓ
Op A = Impl → Exit A × Impl

unfoldable pub resume {ℓ κ} : {A : Type ℓ} {B : Type κ} → Exit A × Impl → (A → Op B) → Exit B × Impl
resume (returned a, s) k = k a s
resume (threw e, s) k = (threw e, s)

infixl 5 ◌>>=◌ ◌>>◌
unfoldable pub ◌>>=◌ {ℓ κ} : {A : Type ℓ} {B : Type κ} → Op A → (A → Op B) → Op B
unfolding resume
(m >>= k) s = resume (m s) k

unfoldable pub ◌>>◌ {ℓ} : {B : Type ℓ} → Op (Unit {0}) → Op B → Op B
unfolding ◌>>=◌
m >> k = m >>= (λ u. k)

unfoldable pub give {ℓ} : {A : Type ℓ} → A → Op A
give a s = (returned a, s)

unfoldable pub fail {ℓ} : {A : Type ℓ} → ModelError → Op A
fail error s = (threw error, s)

unfoldable pub modify : (Impl → Impl) → Op (Unit {0})
modify change s = (returned tt, change s)

-- `if (test) throw error;`
unfoldable pub refuse_if : Bool → ModelError → Op (Unit {0})
unfolding give fail
refuse_if true error = fail error
refuse_if false error = give tt

-- CL_SUCCESS and CL_COMPLETE are 0.
unfoldable pub is_zero : ℤ → Bool
is_zero (pos n) = n == 0
is_zero (negsuc n) = false

unfoldable pub is_negative : ℤ → Bool
is_negative (pos n) = false
is_negative (negsuc n) = true

unfoldable pub settle : Bool → Call → ℤ → (Bool → Impl → Impl) → Op (Unit {0})
settle true action status put s = (returned tt, put true s)
settle false action status put s = (threw (opencl_failed action status), put false s)

unfoldable pub record_call : Call → Impl → Impl
record_call action s = record s { calls = action ∷ s.calls }

-- A call, with the handle it sets to the result or to null, and `check_opencl` of its status.
unfoldable pub enqueue : OpenCl → Call → (Bool → Impl → Impl) → Op (Unit {0})
unfolding settle is_zero record_call
enqueue cl action put s =
    let status = cl.status s.calls action in
    settle (is_zero status) action status put (record_call action s)

unfoldable pub check_opencl : OpenCl → Call → Op (Unit {0})
unfolding enqueue
check_opencl cl action = enqueue cl action (λ ok s. s)

unfoldable pub check_all : OpenCl → List Call → Op (Unit {0})
unfolding ◌>>◌ give check_opencl
check_all cl [] = give tt
check_all cl (action ∷ actions) = do check_opencl cl action; check_all cl actions

-- `clSetKernelArg` for the arguments from the first index on.
unfoldable pub arguments : Kernel → ℕ → ℕ → List Call
arguments kernel from zero = []
arguments kernel from (suc count) = set_argument kernel from ∷ arguments kernel (from + 1) count
