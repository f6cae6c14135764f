-- ===== src/Gpu/Model/Exclusive.antt =====
-- src/gpu/gpu_model.cpp: mapped memory and the pending update under `map`, `set_training_model` and the polls.
use adaptive_fpga.Prelude.{
  ℕ, ◌*◌, ◌≡◌, refl, Bool, true, false, ◌||◌, ◌⊎◌, inr, Option, none, some, ◌==◌, if◌then◌else◌,
}
use adaptive_fpga.Prelude.Int.{ℤ, leb_ℤ}
use adaptive_fpga.Event.{ModelParameters}
use adaptive_fpga.Gpu.Model.{
  OpenCl, Impl, Mapping, Op, ◌>>◌, give, fail, modify, check_opencl, refuse_if, is_zero,
  is_negative, execution_failed, map_buffer, stream_label_buffer, already_mapped, map_in_flight,
  get_event_info, batch_active, record_call, invalid_model,
}
use adaptive_fpga.Gpu.Model.Rules.{
  On, Keeps, Triple, bind_triple, then_triple, give_triple, modify_triple, enqueue_triple,
  refuse-Keeps, enqueue-Keeps, check-Keeps, read_triple, if_triple, weaken,
}
use adaptive_fpga.Gpu.Model.Frames.{
  fail_triple, then-Keeps, modify-Keeps, ensure_stream_capacity-Keeps,
}
use adaptive_fpga.Gpu.Model.Stream.{
  is_some, is_active, map_values, map_stream_feature_rows, take_update, poll_status, poll_pending,
  poll_phase6_model_update, release_update_events,
}
use adaptive_fpga.Gpu.Model.Training.{
  set_training_model, configure, map_labels, map_training_batch, take_training_update,
  poll_training, poll_training_update, release_events,
}

-- Nothing in flight.
abbrev Idle : Mapping → Option ℕ → Type 0
Idle mapping pending = pending ≡ none

-- `Free` of the mapping, or nothing in flight.
abbrev pub Exclusive : (Mapping → Type 0) → Mapping → Option ℕ → Type 0
Exclusive Free mapping pending = Free mapping ⊎ (pending ≡ none)

abbrev pub ValuesFree : Mapping → Type 0
ValuesFree mapping = mapping.values ≡ false

abbrev pub BatchFree : Mapping → Type 0
BatchFree mapping = (mapping.values ≡ false) × (mapping.labels ≡ false)

idle_of : (pending : Option ℕ) → is_some pending ≡ false → pending ≡ none
unfolding is_some
idle_of none h = refl
idle_of (some version) h = absurd (cc)

-- What `Free` may be: implied of a batch without labels and values, and kept by an unmapping.
pub record Unmaps (Free : Mapping → Type 0) : Type 0 where
  pub forgotten : Free (record { values = false; labels = false; rows = 0 })
  pub values_unmapped : (m : Mapping) → Free m → Free (record m { values = false; rows = 0 })
  pub labels_unmapped : (m : Mapping) → Free m → Free (record m { labels = false })

module _ (Free : Mapping → Type 0) (law : Unmaps Free) (cl : OpenCl) where
  pub map_values-Idle : (rows : ℕ) → Keeps (On Idle) (map_values cl rows)
  unfolding map_values
  map_values-Idle rows = then_triple _ _ (ensure_stream_capacity-Keeps Idle cl rows) (
      then_triple _ _ (enqueue-Keeps Idle cl _ _ (λ ok s p. p))
        (then_triple _ _ (modify_triple _ (λ s p. p)) (give_triple _ (λ s p. p))))

  pub map_rows-Idle :
      (rows : ℕ)
      → Triple
          (On (Exclusive Free))
          (λ a. On Idle)
          (On (Exclusive Free))
          (map_stream_feature_rows cl rows)
  unfolding map_stream_feature_rows
  map_rows-Idle rows =
      if_triple (λ s. s.mapping.values) (fail already_mapped) _
        (weaken (λ s p. p.0) (λ a s p. p) (λ s p. p) (fail_triple already_mapped))
        (if_triple (λ s. is_some s.pending_stream_update_version) (fail map_in_flight)
          (map_values cl rows)
          (weaken (λ s p. p.0.0) (λ a s p. p) (λ s p. p) (fail_triple map_in_flight))
          (weaken (λ s p. idle_of s.pending_stream_update_version p.1) (λ a s p. p) (λ s p. inr p)
            (map_values-Idle rows)))

  pub map_stream_feature_rows-Exclusive :
      (rows : ℕ) → Keeps (On (Exclusive Free)) (map_stream_feature_rows cl rows)
  map_stream_feature_rows-Exclusive rows =
      weaken (λ s p. p) (λ a s p. inr p) (λ s p. p) (map_rows-Idle rows)

  pub map_training_batch-Exclusive :
      (rows : ℕ) → Keeps (On (Exclusive Free)) (map_training_batch cl rows)
  unfolding map_training_batch map_labels
  map_training_batch-Exclusive rows = bind_triple _ _ (map_rows-Idle rows) (λ features.
      then_triple _ _
        (enqueue_triple cl _ _ (λ s p. record_idle s p) (λ s p. inr (record_idle s p)))
        (give_triple _ (λ s p. inr p)))
    where
      record_idle :
          (s : Impl)
          → On Idle s
          → (record_call
              (map_buffer stream_label_buffer (rows * 4))
              s).pending_stream_update_version
            ≡ none
      record_idle s p = unfold record_call in p

  pub set_training_model-Exclusive :
      (model : ModelParameters) → Keeps (On (Exclusive Free)) (set_training_model model)
  unfolding set_training_model configure
  set_training_model-Exclusive model =
      read_triple is_active
        (λ x.
          refuse_if x batch_active
          >> (refuse_if (model.model_version == 0 || leb_ℤ model.buy_threshold model.sell_threshold)
                invalid_model
              >> modify (configure model)))
        (λ x.
          weaken (λ s p. p.0) (λ a s p. p) (λ s p. p)
            (search (then-Keeps, refuse-Keeps (Exclusive Free), modify-Keeps (Exclusive Free) cl)
              depth 10))

  -- The branches of a poll, `complete` among them.
  pub poll_status-Exclusive :
      {A : Type 0} (status : ℤ) (complete : Op (Option A))
      → Keeps (On (Exclusive Free)) complete
      → Keeps (On (Exclusive Free)) (poll_status cl status complete)
  unfolding poll_status
  poll_status-Exclusive {A = A} status complete h = chosen (is_negative status) (is_zero status)
    where
      chosen :
          (negative zero : Bool)
          → Keeps (On (Exclusive Free)) (
              if negative
              then fail {A = Option A} (execution_failed status)
              else if zero
              then complete
              else give none)
      chosen true zero = fail_triple (execution_failed status)
      chosen false true = h
      chosen false false = give_triple none (λ s p. p)

  pub take_update-Exclusive : (version : ℕ) → Keeps (On (Exclusive Free)) (take_update cl version)
  unfolding take_update give release_update_events
  take_update-Exclusive version = record { ends = λ s p. inr refl }

  pub take_training_update-Exclusive :
      (version : ℕ) → Keeps (On (Exclusive Free)) (take_training_update cl version)
  unfolding take_training_update release_events
  take_training_update-Exclusive version = record { ends = λ s p. inr refl }

  pub poll_pending-Exclusive :
      (pending : Option ℕ) → Keeps (On (Exclusive Free)) (poll_pending cl pending)
  unfolding poll_pending
  poll_pending-Exclusive none = give_triple none (λ s p. p)
  poll_pending-Exclusive (some version) =
      read_triple (λ s. cl.execution_status s.calls)
        (λ status. check_opencl cl get_event_info >> poll_status cl status (take_update cl version))
        (λ status.
          weaken (λ s p. p.0) (λ a s p. p) (λ s p. p)
            (then_triple _ _ (check-Keeps (Exclusive Free) cl get_event_info) (
              poll_status-Exclusive status (take_update cl version)
                (take_update-Exclusive version))))

  pub poll_training-Exclusive :
      (pending : Option ℕ) → Keeps (On (Exclusive Free)) (poll_training cl pending)
  unfolding poll_training
  poll_training-Exclusive none = give_triple none (λ s p. p)
  poll_training-Exclusive (some version) =
      read_triple (λ s. cl.execution_status s.calls)
        (λ status.
          check_opencl cl get_event_info >> poll_status cl status (take_training_update cl version))
        (λ status.
          weaken (λ s p. p.0) (λ a s p. p) (λ s p. p)
            (then_triple _ _ (check-Keeps (Exclusive Free) cl get_event_info) (
              poll_status-Exclusive status (take_training_update cl version)
                (take_training_update-Exclusive version))))

  pub poll_phase6_model_update-Exclusive : Keeps (On (Exclusive Free)) (poll_phase6_model_update cl)
  unfolding poll_phase6_model_update
  poll_phase6_model_update-Exclusive = record {
    ends = λ s p. (poll_pending-Exclusive s.pending_stream_update_version).ends s p;
  }

  pub poll_training_update-Exclusive : Keeps (On (Exclusive Free)) (poll_training_update cl)
  unfolding poll_training_update
  poll_training_update-Exclusive = record {
    ends = λ s p. (poll_training-Exclusive s.pending_stream_update_version).ends s p;
  }
