-- ===== src/Gpu/Model/Handover.antt =====
-- src/gpu/gpu_model.cpp: how a mapped batch is given back or handed to the GPU.
use adaptive_fpga.Prelude.{ℕ, ◌*◌, refl, not, ◌||◌, inl, inr, ltb, ◌==◌}
use adaptive_fpga.Prelude.Int.{ℤ, pos, leb_ℤ, ltb_ℤ}
use adaptive_fpga.Gpu.Model.{
  OpenCl, Impl, Mapping, ◌>>◌, give, modify, refuse_if, not_mapped_for_training, invalid_training,
  already_in_flight, not_mapped, invalid_version, too_many_features,
}
use adaptive_fpga.Gpu.Model.Rules.{
  On, Keeps, Triple, then_triple, give_triple, modify_triple, refuse-Keeps, enqueue-Keeps,
  check-Keeps, check_all-Keeps, weaken,
}
use adaptive_fpga.Gpu.Model.Frames.{
  then-Keeps, if_Keeps, modify-Keeps, run_training_kernels-Keeps, read_update_values-Keeps,
  read_training_metrics-Keeps,
}
use adaptive_fpga.Gpu.Model.Smoke.{uint_max}
use adaptive_fpga.Gpu.Model.Stream.{
  is_some, run_phase6_update, submit_phase6_model_update, discard_values,
  discard_stream_feature_rows, release_update_events, unmap_stream_values, run_phase6_kernel,
  unmap_rows,
}
use adaptive_fpga.Gpu.Model.Training.{
  unmap_batch, run_training, submit_training_batch, start_training, discard_labels,
  discard_mapped_labels, discard_training_batch, release_events, forget_mapping,
}
use adaptive_fpga.Gpu.Model.Exclusive.{Exclusive, Unmaps, ValuesFree}

module _ (Free : Mapping → Type 0) (law : Unmaps Free) (cl : OpenCl) where
  pub unmap_stream_values-Exclusive : Keeps (On (Exclusive Free)) (modify unmap_stream_values)
  unfolding unmap_stream_values
  unmap_stream_values-Exclusive =
      modify_triple _
        (λ s p. elim p [ inl f ↦ inl (law.values_unmapped s.mapping f) | inr i ↦ inr i ])

  pub discard_stream_feature_rows-Exclusive :
      Keeps (On (Exclusive Free)) (discard_stream_feature_rows cl)
  unfolding discard_stream_feature_rows discard_values
  discard_stream_feature_rows-Exclusive =
      if_Keeps (Exclusive Free) cl (λ s. s.mapping.values) (discard_values cl) (give tt)
        (search (
          then-Keeps (Exclusive Free) cl,
          check-Keeps (Exclusive Free),
          unmap_stream_values-Exclusive,
        ))
        (give_triple tt (λ s p. p))

  pub discard_labels-Exclusive : Keeps (On (Exclusive Free)) (discard_labels cl)
  unfolding discard_labels
  discard_labels-Exclusive = then_triple _ _ (check-Keeps (Exclusive Free) cl _) (
      then_triple _ _
        (modify_triple _
          (λ s p. elim p [ inl f ↦ inl (law.labels_unmapped s.mapping f) | inr i ↦ inr i ]))
        (check-Keeps (Exclusive Free) cl _))

  pub discard_training_batch-Exclusive : Keeps (On (Exclusive Free)) (discard_training_batch cl)
  unfolding discard_training_batch discard_mapped_labels
  discard_training_batch-Exclusive =
      if_Keeps (Exclusive Free) cl (λ s. s.mapping.values || s.mapping.labels)
        (discard_stream_feature_rows cl >> discard_mapped_labels cl) (give tt)
        (then_triple _ _ discard_stream_feature_rows-Exclusive (
          if_Keeps (Exclusive Free) cl (λ s. s.mapping.labels) (discard_labels cl) (give tt)
            discard_labels-Exclusive (give_triple tt (λ s p. p))))
        (give_triple tt (λ s p. p))

  pub unmap_batch-Free :
      Triple (On (Exclusive Free)) (λ u. On (λ m o. Free m)) (On (Exclusive Free)) (unmap_batch cl)
  unfolding unmap_batch release_events forget_mapping
  unmap_batch-Free = then_triple _ _ (modify_triple _ (λ s p. p)) (
      then_triple _ _ (enqueue-Keeps (Exclusive Free) cl _ _ (λ ok s p. p)) (
        then_triple _ _ (check-Keeps (Exclusive Free) cl _)
          (modify_triple _ (λ s p. law.forgotten))))

  pub start_training-Free : (version : ℕ) → Keeps (On (λ m o. Free m)) (start_training cl version)
  unfolding start_training
  start_training-Free version = record { ends = λ s p. p }

  -- Once the batch is unmapped, what follows leaves it so.
  pub run_training-Exclusive :
      (version rows : ℕ) → Keeps (On (Exclusive Free)) (run_training cl version rows)
  unfolding run_training
  run_training-Exclusive version rows = then_triple _ _ unmap_batch-Free (
      weaken (λ s p. p) (λ a s p. inl p) (λ s p. inl p)
        (search
          (
            then-Keeps (λ m o. Free m) cl,
            run_training_kernels-Keeps (λ m o. Free m),
            read_training_metrics-Keeps (λ m o. Free m),
            read_update_values-Keeps (λ m o. Free m),
            check-Keeps (λ m o. Free m),
            start_training-Free,
          )
          depth 12))

  pub submit_training_batch-Exclusive :
      (version : ℕ) (learning_rate l2 : ℤ)
      → Keeps (On (Exclusive Free)) (submit_training_batch cl version learning_rate l2)
  unfolding submit_training_batch
  submit_training_batch-Exclusive version learning_rate l2 = record {
    ends = λ s p. (checked s).ends s p;
  }
    where
      checked :
          (s : Impl)
          → Keeps (On (Exclusive Free)) (do
            refuse_if
                (not s.mapping.values || (not s.mapping.labels || s.mapping.rows == 0))
                not_mapped_for_training
            refuse_if
                (version == 0 || (leb_ℤ learning_rate (pos 0) || ltb_ℤ l2 (pos 0)))
                invalid_training
            refuse_if (is_some s.pending_stream_update_version) already_in_flight
            run_training cl version s.mapping.rows)
      checked s =
          search
            (then-Keeps (Exclusive Free) cl, refuse-Keeps (Exclusive Free), run_training-Exclusive)

module _ (cl : OpenCl) where
  unmap_rows-ValuesFree :
      Triple
        (On (Exclusive ValuesFree))
        (λ u. On (λ m o. ValuesFree m))
        (On (Exclusive ValuesFree))
        (unmap_rows cl)
  unfolding unmap_rows release_update_events unmap_stream_values
  unmap_rows-ValuesFree = then_triple _ _ (modify_triple _ (λ s p. p)) (
      then_triple _ _ (enqueue-Keeps (Exclusive ValuesFree) cl _ _ (λ ok s p. p))
        (modify_triple _ (λ s p. refl)))

  run_phase6_kernel-ValuesFree :
      (version : ℕ) → Keeps (On (λ m o. ValuesFree m)) (run_phase6_kernel cl version)
  unfolding run_phase6_kernel
  run_phase6_kernel-ValuesFree version =
      search
        (
          then-Keeps (λ m o. ValuesFree m) cl,
          check_all-Keeps (λ m o. ValuesFree m),
          enqueue-Keeps (λ m o. ValuesFree m),
          read_update_values-Keeps (λ m o. ValuesFree m),
          check-Keeps (λ m o. ValuesFree m),
          modify-Keeps (λ m o. ValuesFree m) cl,
        )
        depth 12

  -- The deterministic update unmaps the features only.
  run_phase6_update-Exclusive :
      (version : ℕ) → Keeps (On (Exclusive ValuesFree)) (run_phase6_update cl version)
  unfolding run_phase6_update
  run_phase6_update-Exclusive version =
      then_triple _ _ unmap_rows-ValuesFree
        (weaken (λ s p. p) (λ a s p. inl p) (λ s p. inl p) (run_phase6_kernel-ValuesFree version))

  pub submit_phase6_model_update-Exclusive :
      (version : ℕ) → Keeps (On (Exclusive ValuesFree)) (submit_phase6_model_update cl version)
  unfolding submit_phase6_model_update
  submit_phase6_model_update-Exclusive version = record { ends = λ s p. (checked s).ends s p }
    where
      checked :
          (s : Impl)
          → Keeps (On (Exclusive ValuesFree)) (do
            refuse_if (not s.mapping.values || s.mapping.rows == 0) not_mapped
            refuse_if (version == 0) invalid_version
            refuse_if (is_some s.pending_stream_update_version) already_in_flight
            refuse_if (ltb uint_max (s.mapping.rows * 8)) too_many_features
            run_phase6_update cl version)
      checked s = search (
        then-Keeps (Exclusive ValuesFree) cl,
        refuse-Keeps (Exclusive ValuesFree),
        run_phase6_update-Exclusive,
      )
