-- ===== src/Gpu/Model/Frames.antt =====
-- The operations of src/gpu/gpu_model.cpp that leave the mapping and the pending update as they are.
use adaptive_fpga.Prelude.{ℕ, Bool, Option, List, [], leb, ◌==◌, length, if◌then◌else◌}
use adaptive_fpga.Gpu.Model.{
  OpenCl, Impl, Mapping, ◌>>◌, give, fail, modify, enqueue, refuse_if, ModelError, Op, read_buffer,
  stream_update_buffer, stream_metrics_buffer, cannot_resize, no_rows,
}
use adaptive_fpga.Gpu.Model.Rules.{
  On, Keeps, Triple, then_triple, give_triple, modify_triple, refuse-Keeps, enqueue-Keeps,
  check-Keeps, check_all-Keeps, if_triple, read_triple, weaken,
}
use adaptive_fpga.Gpu.Model.Smoke.{
  release_smoke_buffers, release_smoke_events, replace_smoke_buffers, ensure_buffer_capacity,
  read_output, double_on_device, double_values,
}
use adaptive_fpga.Gpu.Model.Stream.{
  release_stream_buffers, initialise_values, replace_stream_buffers, grow_stream,
  ensure_stream_capacity, is_active, read_update_values,
}
use adaptive_fpga.Gpu.Model.Training.{run_training_kernels, read_training_metrics}

pub fail_triple :
    {A : Type 0} {P : Impl → Type 0} {R : A → Impl → Type 0} (error : ModelError)
    → Triple P R P (fail error)
unfolding fail
fail_triple error = record { ends = λ s p. p }

module _ (P : Mapping → Option ℕ → Type 0) (cl : OpenCl) where
  pub modify-Keeps :
      (change : Impl → Impl)
      → ((s : Impl) → On P s → On P (change s))
      → Keeps (On P) (modify change)
  modify-Keeps change h = modify_triple change h

  pub then-Keeps :
      {A : Type 0} (m : Op (Unit {0})) (k : Op A)
      → Keeps (On P) m
      → Keeps (On P) k
      → Keeps (On P) (m >> k)
  then-Keeps m k first second = then_triple m k first second

  pub if_Keeps :
      {A : Type 0} (test : Impl → Bool) (m n : Op A)
      → Keeps (On P) m
      → Keeps (On P) n
      → Keeps (On P) (λ s. if test s then m s else n s)
  if_Keeps test m n h h' =
      if_triple test m n (weaken (λ s p. p.0) (λ a s p. p) (λ s p. p) h)
        (weaken (λ s p. p.0) (λ a s p. p) (λ s p. p) h')

  replace_stream_buffers-Keeps : (rows : ℕ) → Keeps (On P) (replace_stream_buffers cl rows)
  unfolding replace_stream_buffers release_stream_buffers initialise_values
  replace_stream_buffers-Keeps rows =
      search (then-Keeps, refuse-Keeps P, check-Keeps P, enqueue-Keeps P, modify-Keeps) depth 40

  grow_stream-Keeps : (rows : ℕ) → Keeps (On P) (grow_stream cl rows)
  unfolding grow_stream
  grow_stream-Keeps rows =
      read_triple is_active (λ x. refuse_if x cannot_resize >> replace_stream_buffers cl rows)
        (λ x.
          weaken (λ s p. p.0) (λ a s p. p) (λ s p. p)
            (then_triple _ _ (refuse-Keeps P _ _) (replace_stream_buffers-Keeps rows)))

  pub ensure_stream_capacity-Keeps : (rows : ℕ) → Keeps (On P) (ensure_stream_capacity cl rows)
  unfolding ensure_stream_capacity
  ensure_stream_capacity-Keeps rows =
      if_Keeps (λ s. rows == 0) (fail no_rows) _ (fail_triple no_rows)
        (if_Keeps (λ s. leb rows s.stream_capacity_rows) (give tt) (grow_stream cl rows)
          (give_triple tt (λ s p. p)) (grow_stream-Keeps rows))

  replace_smoke_buffers-Keeps : (count : ℕ) → Keeps (On P) (replace_smoke_buffers cl count)
  unfolding replace_smoke_buffers release_smoke_buffers
  replace_smoke_buffers-Keeps count =
      search (then-Keeps, refuse-Keeps P, enqueue-Keeps P, modify-Keeps) depth 40

  ensure_buffer_capacity-Keeps : (count : ℕ) → Keeps (On P) (ensure_buffer_capacity cl count)
  unfolding ensure_buffer_capacity
  ensure_buffer_capacity-Keeps count =
      if_Keeps (λ s. leb count s.smoke.buffer_capacity) (give tt) (replace_smoke_buffers cl count)
        (give_triple tt (λ s p. p)) (replace_smoke_buffers-Keeps count)

  read_output-Keeps : Keeps (On P) (read_output cl)
  unfolding read_output give
  read_output-Keeps = record { ends = λ s p. p }

  double_on_device-Keeps : (count : ℕ) → Keeps (On P) (double_on_device cl count)
  unfolding double_on_device release_smoke_events
  double_on_device-Keeps count =
      search
        (
          then-Keeps,
          refuse-Keeps P,
          check-Keeps P,
          check_all-Keeps P,
          enqueue-Keeps P,
          modify-Keeps,
          ensure_buffer_capacity-Keeps,
          read_output-Keeps,
        )
        depth 40

  pub double_values-Keeps : (input : List ℕ) → Keeps (On P) (double_values cl input)
  unfolding double_values
  double_values-Keeps input =
      if_Keeps (λ s. length input == 0) (give []) (double_on_device cl (length input))
        (give_triple [] (λ s p. p)) (double_on_device-Keeps (length input))

  pub run_training_kernels-Keeps : (rows : ℕ) → Keeps (On P) (run_training_kernels cl rows)
  unfolding run_training_kernels
  run_training_kernels-Keeps rows = search (then-Keeps, check_all-Keeps P, enqueue-Keeps P) depth 40

  pub read_update_values-Keeps : Keeps (On P) (read_update_values cl)
  unfolding read_update_values
  read_update_values-Keeps =
      read_triple (λ s. cl.update_values s.calls)
        (λ values. enqueue cl (read_buffer stream_update_buffer) (λ ok t. record t {
          events = record t.events { read = ok };
          stream_update_values = if ok then values else t.stream_update_values;
        }))
        (λ values.
          weaken (λ s p. p.0) (λ a s p. p) (λ s p. p) (enqueue-Keeps P cl _ _ (λ ok s p. p)))

  pub read_training_metrics-Keeps : Keeps (On P) (read_training_metrics cl)
  unfolding read_training_metrics
  read_training_metrics-Keeps =
      read_triple (λ s. cl.training_metrics s.calls)
        (λ metrics. enqueue cl (read_buffer stream_metrics_buffer) (λ ok t. record t {
          stream_training_metrics = if ok then metrics else t.stream_training_metrics;
        }))
        (λ metrics.
          weaken (λ s p. p.0) (λ a s p. p) (λ s p. p) (enqueue-Keeps P cl _ _ (λ ok s p. p)))
