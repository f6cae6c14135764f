-- ===== src/Gpu/Oracle/Update.antt =====
-- What src/gpu/regression_oracle.cpp returns: when it refuses its arguments, and the ranges of an update
-- that it gives.
use native.Mathlib.Decide.{ℕ_discrete}
use adaptive_fpga.Prelude.{
  ◌⊎◌, ◌≢◌, ℕ, suc, ◌+◌, ◌*◌, ◌≤◌, ◌<◌, ◌≡◌, refl, ap, ◌∙◌, arith, true, false, List, [], ◌∷◌, All,
  replicate, length, Bool-cases, inl, inr, min,
}
use adaptive_fpga.Prelude.Int.{ℤ, leb_ℤ, pos, nat_abs, ◌-ℤ◌, ◌≤ℤ◌, ◌<ℤ◌}
use adaptive_fpga.Prelude.Words.{to_i32, to_i32_lem, IsI32}
use adaptive_fpga.Gpu.Protocol.{ModelUpdate}
use adaptive_fpga.Gpu.Oracle.{
  RegressionResult, Regression, result, invalid_batch, row_score, add_gradients, Totals, add_row,
  add_rows, weight_limit, clamp_weight, next_weight, next_weights, order_thresholds,
  invalid_arguments, run_regression_oracle, negsuc,
}

-- The range of a learned weight, [-32, 32] in Q16.16.
abbrev pub IsWeight : ℤ → Type 0
IsWeight w = nat_abs w ≤ weight_limit

clamp_weight-IsWeight : (next : ℤ) → IsWeight (clamp_weight next)
unfolding clamp_weight
clamp_weight-IsWeight next = ground arith

clamp_weight-IsI32 : (next : ℤ) → IsI32 (clamp_weight next)
unfolding clamp_weight
clamp_weight-IsI32 next = ground arith

pub clamp_weight_id : (next : ℤ) → IsWeight next → clamp_weight next ≡ next
unfolding clamp_weight
clamp_weight_id next h = ground arith

pub stored_weight : (next : ℤ) → to_i32 (clamp_weight next) ≡ clamp_weight next
stored_weight next = to_i32_lem (clamp_weight next) (clamp_weight-IsI32 next)

next_weights-IsWeight :
    (learning_rate l2 : ℤ) (count : ℕ) (weights gradients : List ℤ)
    → All IsWeight (next_weights learning_rate l2 count weights gradients)
unfolding next_weights
next_weights-IsWeight learning_rate l2 count [] gradients = tt
next_weights-IsWeight learning_rate l2 count (w ∷ weights) [] = tt
next_weights-IsWeight learning_rate l2 count (w ∷ weights) (g ∷ gradients) =
    let next = next_weight learning_rate l2 count w g in
    (
      rw (stored_weight next) (clamp_weight-IsWeight next),
      next_weights-IsWeight learning_rate l2 count weights gradients,
    )

length-next_weights :
    (learning_rate l2 : ℤ) (count : ℕ) (weights gradients : List ℤ)
    → length (next_weights learning_rate l2 count weights gradients)
      ≡ min (length weights) (length gradients)
unfolding next_weights
length-next_weights learning_rate l2 count [] gradients = omega arith
length-next_weights learning_rate l2 count (w ∷ weights) [] = omega arith
length-next_weights learning_rate l2 count (w ∷ weights) (g ∷ gradients) =
    omega (arith, length-next_weights learning_rate l2 count weights gradients)

length-add_gradients :
    (features : List ℤ) (i : ℕ) (error : ℤ) (gradients : List ℤ)
    → length (add_gradients features i error gradients) ≡ length gradients
unfolding add_gradients
length-add_gradients features i error [] = refl
length-add_gradients features i error (g ∷ gradients) =
    ap suc (length-add_gradients features (i + 1) error gradients)

-- Each row adds at most one to the count of correct predictions, and keeps the number of gradients.
add_row_bounds :
    (weights features : List ℤ) (row : ℕ) (label : ℤ) (totals : Totals)
    → let t = add_row weights features row label totals in
      (t.correct_predictions ≤ totals.correct_predictions + 1)
      × (length t.gradients ≡ length totals.gradients)
unfolding add_row
add_row_bounds weights features row label totals =
    let score = row_score features (row * 8) weights (pos 0) in
    (ground arith, length-add_gradients features (row * 8) (label -ℤ score) totals.gradients)

add_rows_bounds :
    (weights features : List ℤ) (row : ℕ) (labels : List ℤ) (totals : Totals)
    → let t = add_rows weights features row labels totals in
      (t.correct_predictions ≤ totals.correct_predictions + length labels)
      × (length t.gradients ≡ length totals.gradients)
unfolding add_rows
add_rows_bounds weights features row [] totals = (omega arith, refl)
add_rows_bounds weights features row (label ∷ labels) totals =
    let t = add_row weights features row label totals in
    let b = add_row_bounds weights features row label totals in
    let ih = add_rows_bounds weights features (row + 1) labels t in
    (omega (arith, b.0, ih.0), ih.1 ∙ b.1)

order_thresholds_lem :
    (update : ModelUpdate)
    → let u = order_thresholds update in
      (u.sell_threshold <ℤ u.buy_threshold)
      × (u.weights ≡ update.weights)
      × (u.update_version ≡ update.update_version)
unfolding order_thresholds
order_thresholds_lem update = (ground arith, ground arith, ground arith)

-- What the oracle promises of its result.
pub record IsUpdateOf (initial : ModelUpdate) (labels : List ℤ) (r : RegressionResult)
    : Type 0 where
  pub eight : length r.update.weights ≡ 8
  pub in_range : All IsWeight r.update.weights
  pub same_version : r.update.update_version ≡ initial.update_version
  pub ordered : r.update.sell_threshold <ℤ r.update.buy_threshold
  pub rows : r.metrics.rows ≡ length labels
  pub correct : r.metrics.correct_predictions ≤ length labels

-- What the oracle returns.
pub data RegressionOutcome (features labels : List ℤ) (initial : ModelUpdate) (learning_rate l2 : ℤ)
    : Regression → Type 0 where
  refused :
      (length labels ≡ 0)
        ⊎ (length features ≢ length labels * 8)
        ⊎ (learning_rate ≤ℤ pos 0)
        ⊎ (l2 <ℤ pos 0)
      → RegressionOutcome features labels initial learning_rate l2 invalid_batch
  updated :
      {r : RegressionResult}
      → 0 < length labels
      → length features ≡ length labels * 8
      → pos 0 <ℤ learning_rate
      → pos 0 ≤ℤ l2
      → IsUpdateOf initial labels r
      → RegressionOutcome features labels initial learning_rate l2 (result r)

empty_totals : Totals
empty_totals = record {
  squared_error_sum = pos 0;
  correct_predictions = 0;
  gradients = replicate 8 (pos 0);
}

updated-IsUpdateOf :
    (features labels : List ℤ) (initial : ModelUpdate) (learning_rate l2 : ℤ)
    → length initial.weights ≡ 8
    → let totals = add_rows initial.weights features 0 labels empty_totals in
      IsUpdateOf initial labels (record {
        update = order_thresholds (record initial {
          weights = next_weights learning_rate l2 (length labels) initial.weights totals.gradients;
        });
        metrics = record {
          squared_error_sum = totals.squared_error_sum;
          correct_predictions = totals.correct_predictions;
          rows = length labels;
        };
      })
unfolding empty_totals
updated-IsUpdateOf features labels initial learning_rate l2 h =
    let totals = add_rows initial.weights features 0 labels empty_totals in
    let weights = next_weights learning_rate l2 (length labels) initial.weights totals.gradients in
    let b = add_rows_bounds initial.weights features 0 labels empty_totals in
    let o = order_thresholds_lem (record initial { weights = weights }) in
    record {
      eight =
          ap length o.1
          ∙ length-next_weights learning_rate l2 (length labels) initial.weights totals.gradients
          ∙ omega (arith, h, b.1);
      in_range =
          rw o.1 (
            next_weights-IsWeight learning_rate l2 (length labels) initial.weights
              totals.gradients);
      same_version = o.2;
      ordered = o.0;
      rows = refl;
      correct = omega (arith, b.0);
    }

pub arguments_valid :
    (features labels : List ℤ) (learning_rate l2 : ℤ)
    → invalid_arguments features labels learning_rate l2 ≡ false
    → (0 < length labels)
      × (length features ≡ length labels * 8)
      × (pos 0 <ℤ learning_rate)
      × (pos 0 ≤ℤ l2)
unfolding invalid_arguments
arguments_valid features labels learning_rate l2 e =
    (ground arith, ground arith, ground arith, ground arith)

arguments_invalid :
    (features labels : List ℤ) (learning_rate l2 : ℤ)
    → invalid_arguments features labels learning_rate l2 ≡ true
    → (length labels ≡ 0)
      ⊎ (length features ≢ length labels * 8)
      ⊎ (learning_rate ≤ℤ pos 0)
      ⊎ (l2 <ℤ pos 0)
unfolding invalid_arguments
arguments_invalid features labels learning_rate l2 e =
    choose (ℕ_discrete (length labels) 0) (ℕ_discrete (length features) (length labels * 8))
  where
    choose :
        Dec (length labels ≡ 0)
        → Dec (length features ≡ length labels * 8)
        → (length labels ≡ 0)
          ⊎ (length features ≢ length labels * 8)
          ⊎ (learning_rate ≤ℤ pos 0)
          ⊎ (l2 <ℤ pos 0)
    choose (yes n) f = inl n
    choose (no n) (no f) = inr (inl f)
    choose (no n) (yes f) = elim (Bool-cases (leb_ℤ learning_rate (pos 0))) [
      | inl r ↦ inr (inr (inl (ground (arith, r))))
      | inr r ↦ inr (inr (inr (ground (arith, e, n, f, r))))
    ]

-- Values of at most so much, either way.
abbrev pub Between : ℕ → ℤ → Type 0
Between limit a = (negsuc limit ≤ℤ a) × (a ≤ℤ pos limit)

-- Inputs of a size on which no int64_t of the oracle overflows: features up to 64.0, labels up to 1.0,
-- weights up to the clamp, 65,536 rows, and rates up to 1.0.
pub record IsBounded (features labels : List ℤ) (initial : ModelUpdate) (learning_rate l2 : ℤ)
    : Type 0 where
  pub features_small : All (Between 4_194_304) features
  pub labels_small : All (Between 65_536) labels
  pub weights_small : All (Between 2_097_152) initial.weights
  pub few_rows : length labels ≤ 65_536
  pub rate_small : learning_rate ≤ℤ pos 65_536
  pub penalty_small : l2 ≤ℤ pos 65_536

-- The oracle refuses exactly an empty batch, a batch without eight features for each label, a learning
-- rate that is not positive, and a negative penalty. Otherwise the update has the version of the given
-- one, eight weights from -32 to 32 in Q16.16, and its thresholds in order, and of the rows counted
-- no more are correct than there are labels.
-- The inputs are of the size of `IsBounded`.
pub run_regression_oracle_lem :
    (features labels : List ℤ) (initial : ModelUpdate) (learning_rate l2 : ℤ)
    → length initial.weights ≡ 8
    → IsBounded features labels initial learning_rate l2
    → RegressionOutcome features labels initial learning_rate l2
        (run_regression_oracle features labels initial learning_rate l2)
unfolding run_regression_oracle empty_totals
run_regression_oracle_lem features labels initial learning_rate l2 h bounded =
    elim (Bool-cases (invalid_arguments features labels learning_rate l2)) [
      | inl bad ↦ rw bad (refused (arguments_invalid features labels learning_rate l2 bad))
      | inr good ↦
          let v = arguments_valid features labels learning_rate l2 good in
          rw good (
            updated v.0 v.1 v.2 v.3 (updated-IsUpdateOf features labels initial learning_rate l2 h))
    ]
