-- ===== src/Gpu/Model/Complete.antt =====
-- src/gpu/gpu_model.cpp: the version of a submitted batch, from `submit_training_batch` to the poll
-- that delivers it.
use adaptive_fpga.Prelude.{
  ℕ, ◌≡◌, refl, Bool, true, false, not, ◌||◌, Option, none, some, ◌==◌, if◌then◌else◌,
}
use adaptive_fpga.Prelude.Int.{ℤ, pos, leb_ℤ, ltb_ℤ}
use adaptive_fpga.Gpu.Model.{
  OpenCl, Impl, Mapping, ◌>>◌, give, check_opencl, is_zero, is_negative, get_event_info,
  flush_queue, not_mapped_for_training, fail, TrainingUpdate, invalid_training, execution_failed,
  already_in_flight,
}
use adaptive_fpga.Gpu.Model.Rules.{
  On, Triple, After, then_triple, give_triple, modify_triple, refuse-Keeps, enqueue-Keeps,
  check-Keeps, read_triple, weaken,
}
use adaptive_fpga.Gpu.Model.Frames.{
  fail_triple, run_training_kernels-Keeps, read_update_values-Keeps, read_training_metrics-Keeps,
}
use adaptive_fpga.Gpu.Model.Stream.{poll_status, update_of, is_some}
use adaptive_fpga.Gpu.Model.Training.{
  run_training, submit_training_batch, start_training, take_training_update, poll_training,
  poll_training_update, unmap_batch, release_events, forget_mapping,
}

-- What `submit_training_batch` leaves when it returns.
abbrev Submitted : ℕ → Mapping → Option ℕ → Type 0
Submitted version m o = (o ≡ some version) × (m.values ≡ false) × (m.labels ≡ false)

-- Nothing of the batch is mapped, and `o` is still pending.
abbrev Unmapped : Option ℕ → Mapping → Option ℕ → Type 0
Unmapped pending m o = (o ≡ pending) × (m.values ≡ false) × (m.labels ≡ false)

module _ (cl : OpenCl) (pending : Option ℕ) where
  unmap_batch-Unmapped :
      Triple
        (On (λ m o. o ≡ pending))
        (λ u. On (Unmapped pending))
        (On (λ m o. o ≡ pending))
        (unmap_batch cl)
  unfolding unmap_batch release_events forget_mapping
  unmap_batch-Unmapped = then_triple _ _ (modify_triple _ (λ s p. p)) (
      then_triple _ _ (enqueue-Keeps (λ m o. o ≡ pending) cl _ _ (λ ok s p. p)) (
        then_triple _ _ (check-Keeps (λ m o. o ≡ pending) cl _)
          (modify_triple _ (λ s p. (p, refl, refl)))))

  start_training-Submitted :
      (version : ℕ)
      → Triple
          (On (Unmapped pending))
          (λ u. On (Submitted version))
          (On (Unmapped pending))
          (start_training cl version)
  unfolding start_training
  start_training-Submitted version = record { ends = λ s p. (refl, p.1, p.2) }

  run_training-Submitted :
      (version rows : ℕ)
      → Triple
          (On (λ m o. o ≡ pending))
          (λ u. On (Submitted version))
          (On (λ m o. o ≡ pending))
          (run_training cl version rows)
  unfolding run_training
  run_training-Submitted version rows = then_triple _ _ unmap_batch-Unmapped (
      weaken (λ s p. p) (λ a s p. p) (λ s p. p.0)
        (then_triple _ _ (run_training_kernels-Keeps (Unmapped pending) cl rows) (
          then_triple _ _ (read_training_metrics-Keeps (Unmapped pending) cl) (
            then_triple _ _ (read_update_values-Keeps (Unmapped pending) cl) (
              then_triple _ _ (check-Keeps (Unmapped pending) cl flush_queue)
                (start_training-Submitted version))))))

-- A submission of a training batch that returns leaves exactly that version
-- pending and nothing of the batch mapped; one that throws leaves the pending version as it was.
pub submit_training_batch_lem :
    (cl : OpenCl) (version : ℕ) (learning_rate l2 : ℤ) (s : Impl)
    → After
        (λ u s'.
          (s'.pending_stream_update_version ≡ some version)
          × (s'.mapping.values ≡ false)
          × (s'.mapping.labels ≡ false))
        (λ s'. s'.pending_stream_update_version ≡ s.pending_stream_update_version)
        (submit_training_batch cl version learning_rate l2 s)
unfolding submit_training_batch
submit_training_batch_lem cl version learning_rate l2 s =
    (then_triple _ _
        (refuse-Keeps Same (not s.mapping.values || (not s.mapping.labels || s.mapping.rows == 0))
          not_mapped_for_training)
        (then_triple _ _
          (refuse-Keeps Same (version == 0 || (leb_ℤ learning_rate (pos 0) || ltb_ℤ l2 (pos 0)))
            invalid_training)
          (then_triple _ _
            (refuse-Keeps Same (is_some s.pending_stream_update_version) already_in_flight)
            (run_training-Submitted cl s.pending_stream_update_version version
              s.mapping.rows)))).ends
      s refl
  where
    Same : Mapping → Option ℕ → Type 0
    Same m o = o ≡ s.pending_stream_update_version

-- Where a poll ends with the update of the pending version, or with none.
abbrev pub Delivered : Option ℕ → Option TrainingUpdate → Option ℕ → Type 0
Delivered pending none o = o ≡ pending
Delivered pending (some update) o = (pending ≡ some update.model.update_version) × (o ≡ none)

module _ (cl : OpenCl) where
  take_training_update-Delivered :
      (version : ℕ)
      → Triple
          (On (λ m o. o ≡ some version))
          (λ u. On (λ m. Delivered (some version) u))
          (On (λ m o. o ≡ some version))
          (take_training_update cl version)
  unfolding take_training_update update_of
  take_training_update-Delivered version = record { ends = λ s p. (refl, refl) }

  poll_status-Delivered :
      (version : ℕ) (status : ℤ)
      → Triple
          (On (λ m o. o ≡ some version))
          (λ u. On (λ m. Delivered (some version) u))
          (On (λ m o. o ≡ some version))
          (poll_status cl status (take_training_update cl version))
  unfolding poll_status
  poll_status-Delivered version status = chosen (is_negative status) (is_zero status)
    where
      chosen :
          (negative zero : Bool)
          → Triple
              (On (λ m o. o ≡ some version))
              (λ u. On (λ m. Delivered (some version) u))
              (On (λ m o. o ≡ some version))
              (if negative
                then fail {A = Option TrainingUpdate} (execution_failed status)
                else if zero
                then take_training_update cl version
                else give none)
      chosen true zero = fail_triple (execution_failed status)
      chosen false true = take_training_update-Delivered version
      chosen false false = give_triple none (λ s p. p)

  poll_training-Delivered :
      (pending : Option ℕ)
      → Triple
          (On (λ m o. o ≡ pending))
          (λ u. On (λ m. Delivered pending u))
          (On (λ m o. o ≡ pending))
          (poll_training cl pending)
  unfolding poll_training
  poll_training-Delivered none = give_triple none (λ s p. p)
  poll_training-Delivered (some version) =
      read_triple (λ s. cl.execution_status s.calls)
        (λ status.
          check_opencl cl get_event_info >> poll_status cl status (take_training_update cl version))
        (λ status.
          weaken (λ s p. p.0) (λ a s p. p) (λ s p. p)
            (then_triple _ _ (check-Keeps (λ m o. o ≡ some version) cl get_event_info)
              (poll_status-Delivered version status)))

-- A poll delivers each submitted version at most once: if it returns an update, that is of the pending
-- version, and none is pending after it; if it returns none or throws, the pending version is as it was.
pub poll_training_update_lem :
    (cl : OpenCl) (s : Impl)
    → After
        (λ u s'. Delivered s.pending_stream_update_version u s'.pending_stream_update_version)
        (λ s'. s'.pending_stream_update_version ≡ s.pending_stream_update_version)
        (poll_training_update cl s)
unfolding poll_training_update
poll_training_update_lem cl s =
    (poll_training-Delivered cl s.pending_stream_update_version).ends s refl
