-- ===== src/Gpu/Tests.antt =====
-- Batches, model updates, the mailbox and the learner of src/gpu on small inputs.
use adaptive_fpga.Prelude.{
  ℕ, ◌<◌, ◌≡◌, ◌↔◌, refl, arith, List, [], ◌∷◌, ◌++◌, All, true, false, none, replicate, take,
  length,
}
use adaptive_fpga.Prelude.Int.{ℤ, pos, negsuc, ◌+ℤ◌, ◌*ℤ◌}
use adaptive_fpga.Prelude.Words.{shift_right_i64}
use adaptive_fpga.Gpu.Protocol.{FeatureSnapshot, ModelUpdate, batch_time_steps, new_collector}
use adaptive_fpga.Gpu.Protocol.Batches.{add_all, add_all_new, concat, valid_rows}
use adaptive_fpga.Gpu.Mailbox.{new_mailbox, publish, has_update, close}
use adaptive_fpga.Gpu.Mailbox
use adaptive_fpga.Gpu.Mailbox.Newest.{
  Publication, publish-Publication, publish_all, IsNewest, publish_all-IsNewest,
}
use adaptive_fpga.Gpu.Oracle.{
  RegressionResult, result, run_regression_oracle, invalid_arguments, row_score,
}
use adaptive_fpga.Gpu.Oracle.Update.{RegressionOutcome, run_regression_oracle_lem}
use adaptive_fpga.Gpu.Oracle.Fit.{Fits, run_regression_oracle_fit}

abbrev version : ℕ → ModelUpdate
version n = record {
  update_version = n;
  weights = replicate 8 (pos 65_536);
  buy_threshold = pos 16_384;
  sell_threshold = negsuc 16_383;
}

abbrev snapshots : List FeatureSnapshot
snapshots =
    record { event_index = 0; timestamp_ns = 1; valid = true; features = replicate 8 (pos 4) }
    ∷ record { event_index = 1; timestamp_ns = 2; valid = false; features = replicate 8 (pos 5) }
    ∷ []

add_all_new_example :
    let (batches, end) = add_all new_collector snapshots in
    (concat batches ++ take end.size end.batch ≡ valid_rows snapshots)
    × All (λ batch. length batch ≡ batch_time_steps) batches
    × (end.size < batch_time_steps)
add_all_new_example = add_all_new snapshots

publish-Publication_example : Publication new_mailbox (version 4) (publish new_mailbox (version 4))
publish-Publication_example = publish-Publication new_mailbox (version 4)

publish_all-IsNewest_example :
    let m = publish_all new_mailbox (version 2 ∷ version 5 ∷ version 0 ∷ []) in
    let (taken, m') = Mailbox.take m in
    IsNewest (version 2 ∷ version 5 ∷ version 0 ∷ []) taken
    × ((has_update m ≡ false) ↔ (taken ≡ none))
    × (Mailbox.take m' ≡ (none, m'))
publish_all-IsNewest_example = publish_all-IsNewest (version 2 ∷ version 5 ∷ version 0 ∷ [])

-- Eight features of 1.0, to be predicted as 8.0.
abbrev row : List ℤ
row = replicate 8 (pos 65_536)

row-Fits : Fits (version 1).weights row 0 (pos 524_288 ∷ [])
unfolding row_score shift_right_i64 ◌+ℤ◌ ◌*ℤ◌
row-Fits = (refl, tt)

run_regression_oracle_lem_example :
    RegressionOutcome row
      (pos 65_536 ∷ [])
      (version 1)
      (pos 655)
      (pos 65)
      (run_regression_oracle row (pos 65_536 ∷ []) (version 1) (pos 655) (pos 65))
run_regression_oracle_lem_example =
    run_regression_oracle_lem row (pos 65_536 ∷ []) (version 1) (pos 655) (pos 65) (omega arith)
      (record {
        features_small = omega arith;
        labels_small = omega arith;
        weights_small = omega arith;
        few_rows = omega arith;
        rate_small = omega arith;
        penalty_small = omega arith;
      })

row_accepted : invalid_arguments row (pos 524_288 ∷ []) (pos 655) (pos 0) ≡ false
unfolding invalid_arguments
row_accepted = refl

run_regression_oracle_fit_example :
    (r : RegressionResult) × (run_regression_oracle row
        (pos 524_288 ∷ [])
        (version 1)
        (pos 655)
        (pos 0)
      ≡ result r)
    × (r.update ≡ version 1)
    × (r.metrics.squared_error_sum ≡ pos 0)
run_regression_oracle_fit_example =
    run_regression_oracle_fit row (pos 524_288 ∷ []) (version 1) (pos 655) row_accepted
      (omega arith) (omega arith) (omega arith) row-Fits
