-- ===== src/Gpu/Oracle/Fit.antt =====
-- src/gpu/regression_oracle.cpp on a batch that the model predicts exactly.
use adaptive_fpga.Prelude.{
  ℕ, ◌+◌, ◌*◌, ◌<◌, ◌≡◌, refl, ap, ap₂, sym, ◌∙◌, arith, false, List, [], ◌∷◌, All, replicate,
  length,
}
use adaptive_fpga.Prelude.Int.{ℤ, pos, ◌+ℤ◌, ◌-ℤ◌, ◌*ℤ◌, ◌<ℤ◌, int_laws}
use adaptive_fpga.Prelude.Words.{div_i64, shift_right_i64}
use adaptive_fpga.Gpu.Protocol.{ModelUpdate}
use adaptive_fpga.Gpu.Oracle.{
  RegressionResult, result, shift_16, feature_at, row_score, add_gradients, Totals, add_row,
  add_rows, clamp_weight, next_weight, next_weights, order_thresholds, invalid_arguments,
  run_regression_oracle,
}
use adaptive_fpga.Gpu.Oracle.Update.{IsWeight, clamp_weight_id, stored_weight, arguments_valid}

-- Each label of the rows from `row` on is the score that the weights give the row.
abbrev pub Fits : List ℤ → List ℤ → ℕ → List ℤ → Type 0
Fits weights features row [] = Unit {0}
Fits weights features row (label ∷ labels) =
    (label ≡ row_score features (row * 8) weights (pos 0)) × Fits weights features (row + 1) labels

sub_self : (a : ℤ) → a -ℤ a ≡ pos 0
sub_self a = omega int_laws

add_zero : (a : ℤ) → a +ℤ pos 0 ≡ a
add_zero a = omega int_laws

shift_zero_product : (a : ℤ) → shift_16 (pos 0 *ℤ a) ≡ pos 0
unfolding shift_right_i64 ◌*ℤ◌
shift_zero_product a = ground arith

no_gradients :
    (features : List ℤ) (i : ℕ) (gradients : List ℤ)
    → add_gradients features i (pos 0) gradients ≡ gradients
unfolding add_gradients
no_gradients features i [] = refl
no_gradients features i (g ∷ gradients) =
    ap₂ (λ (x : ℤ) (xs : List ℤ). x ∷ xs)
      (ap (λ t. g +ℤ t) (shift_zero_product (feature_at features i)) ∙ add_zero g)
      (no_gradients features (i + 1) gradients)

-- A row without error changes neither the gradients nor the sum of squares.
add_row_fit :
    (weights features : List ℤ) (row : ℕ) (label : ℤ) (totals : Totals)
    → label ≡ row_score features (row * 8) weights (pos 0)
    → let t = add_row weights features row label totals in
      (t.gradients ≡ totals.gradients) × (t.squared_error_sum ≡ totals.squared_error_sum)
unfolding add_row
add_row_fit weights features row label totals h =
    let score = row_score features (row * 8) weights (pos 0) in
    let no_error = ap (λ t. t -ℤ score) h ∙ sub_self score in
    (
      rw no_error (no_gradients features (row * 8) totals.gradients),
      rw no_error (
          ap (λ t. totals.squared_error_sum +ℤ t) (shift_zero_product (pos 0))
          ∙ add_zero totals.squared_error_sum),
    )

add_rows_fit :
    (weights features : List ℤ) (row : ℕ) (labels : List ℤ) (totals : Totals)
    → Fits weights features row labels
    → let t = add_rows weights features row labels totals in
      (t.gradients ≡ totals.gradients) × (t.squared_error_sum ≡ totals.squared_error_sum)
unfolding add_rows
add_rows_fit weights features row [] totals h = (refl, refl)
add_rows_fit weights features row (label ∷ labels) totals h =
    let t = add_row weights features row label totals in
    let one = add_row_fit weights features row label totals h.0 in
    let ih = add_rows_fit weights features (row + 1) labels t h.1 in (ih.0 ∙ one.0, ih.1 ∙ one.1)

zero_mean : (count : ℕ) → 0 < count → div_i64 (pos 0) count ≡ pos 0
unfolding div_i64
zero_mean count h = ground arith

shift_product_zero : (a : ℤ) → shift_16 (a *ℤ pos 0) ≡ pos 0
unfolding shift_right_i64 ◌*ℤ◌
shift_product_zero a = ground arith

next_weight_fit :
    (learning_rate : ℤ) (count : ℕ) (weight : ℤ)
    → 0 < count
    → next_weight learning_rate (pos 0) count weight (pos 0) ≡ weight
unfolding next_weight
next_weight_fit learning_rate count weight h =
    rw
      (
        zero_mean count h,
        shift_zero_product weight,
        sub_self (pos 0),
        shift_product_zero learning_rate,
      )
      (add_zero weight)

next_weights_fit :
    (learning_rate : ℤ) (count : ℕ) (weights : List ℤ)
    → 0 < count
    → All IsWeight weights
    → next_weights learning_rate (pos 0) count weights (replicate (length weights) (pos 0))
      ≡ weights
unfolding next_weights
next_weights_fit learning_rate count [] c h = refl
next_weights_fit learning_rate count (w ∷ weights) c h =
    ap₂ (λ (x : ℤ) (xs : List ℤ). x ∷ xs)
      (stored_weight (next_weight learning_rate (pos 0) count w (pos 0))
        ∙ ap clamp_weight (next_weight_fit learning_rate count w c)
        ∙ clamp_weight_id w h.0)
      (next_weights_fit learning_rate count weights c h.1)

in_order :
    (update : ModelUpdate)
    → update.sell_threshold <ℤ update.buy_threshold
    → order_thresholds update ≡ update
unfolding order_thresholds
in_order update h = ground arith

-- A model with eight weights in range and its thresholds in order, whose score on every row is the
-- row's label, is a fixed point of the update without penalty: it comes back as it was given, with no
-- squared error.
pub run_regression_oracle_fit :
    (features labels : List ℤ) (initial : ModelUpdate) (learning_rate : ℤ)
    → invalid_arguments features labels learning_rate (pos 0) ≡ false
    → length initial.weights ≡ 8
    → All IsWeight initial.weights
    → initial.sell_threshold <ℤ initial.buy_threshold
    → Fits initial.weights features 0 labels
    → (r : RegressionResult) × (run_regression_oracle features labels initial learning_rate (pos 0)
        ≡ result r)
      × (r.update ≡ initial)
      × (r.metrics.squared_error_sum ≡ pos 0)
unfolding run_regression_oracle
run_regression_oracle_fit features labels initial learning_rate v e h o f =
    let totals : Totals = record {
      squared_error_sum = pos 0;
      correct_predictions = 0;
      gradients = replicate 8 (pos 0);
    } in
    let t = add_rows initial.weights features 0 labels totals in
    let fit = add_rows_fit initial.weights features 0 labels totals f in
    let count = arguments_valid features labels learning_rate (pos 0) v in
    let same =
      ap (next_weights learning_rate (pos 0) (length labels) initial.weights) fit.0
      ∙ ap
          (λ (n : ℕ).
            next_weights learning_rate (pos 0) (length labels) initial.weights
              (replicate n (pos 0)))
          (sym e)
      ∙ next_weights_fit learning_rate (length labels) initial.weights count.0 h in
    let r : RegressionResult = record {
      update = order_thresholds (record initial {
        weights = next_weights learning_rate (pos 0) (length labels) initial.weights t.gradients;
      });
      metrics = record {
        squared_error_sum = t.squared_error_sum;
        correct_predictions = t.correct_predictions;
        rows = length labels;
      };
    } in
    (
      r,
      rw v refl,
      ap (λ ws. order_thresholds (record initial { weights = ws })) same ∙ in_order initial o,
      fit.1,
    )
