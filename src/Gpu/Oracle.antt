-- ===== src/Gpu/Oracle.antt =====
-- include/gpu/regression_oracle.hpp and src/gpu/regression_oracle.cpp: one batch of fixed-point gradient
-- descent, the program's reference for its OpenCL learner. The int64_t values are integers of ℤ.
pub mod Fit
pub mod Update
use adaptive_fpga.Prelude.{
  ℕ, ◌+◌, ◌*◌, Bool, true, false, not, ◌||◌, List, [], ◌∷◌, replicate, length, get_or, ltb, ◌==◌,
  if◌then◌else◌,
}
use adaptive_fpga.Prelude.Int.{ℤ, pos, negsuc, ◌+ℤ◌, ◌-ℤ◌, ◌*ℤ◌, ltb_ℤ, leb_ℤ, ◌==ℤ◌}
use adaptive_fpga.Prelude.Words.{to_i32, div_i64, shift_right_i64}
use adaptive_fpga.Gpu.Protocol.{ModelUpdate}

pub record RegressionMetrics : Type 0 where
  pub squared_error_sum : ℤ
  pub correct_predictions : ℕ
  pub rows : ℕ

pub record RegressionResult : Type 0 where
  pub update : ModelUpdate
  pub metrics : RegressionMetrics

pub data Regression : Type 0 where
  result : RegressionResult → Regression
  invalid_batch : Regression

-- `x >> 16`
abbrev pub shift_16 : ℤ → ℤ
shift_16 x = shift_right_i64 x 65_536

-- `features[i]`; the caller's size check keeps i in range.
abbrev pub feature_at : List ℤ → ℕ → ℤ
feature_at features i = get_or features i (pos 0)

-- The inner loop over a row's features, from position i on.
unfoldable pub row_score : List ℤ → ℕ → List ℤ → ℤ → ℤ
row_score features i [] score = score
row_score features i (weight ∷ weights) score =
    row_score features (i + 1) weights (score +ℤ shift_16 (weight *ℤ feature_at features i))

unfoldable pub add_gradients : List ℤ → ℕ → ℤ → List ℤ → List ℤ
add_gradients features i error [] = []
add_gradients features i error (gradient ∷ gradients) =
    (gradient +ℤ shift_16 (error *ℤ feature_at features i))
    ∷ add_gradients features (i + 1) error gradients

abbrev pub prediction : ℤ → ℤ
prediction score =
    if ltb_ℤ (pos 0) score then pos 65_536 else if ltb_ℤ score (pos 0) then negsuc 65_535 else pos 0

-- What the loop over the rows adds up.
pub record Totals : Type 0 where
  pub squared_error_sum : ℤ
  pub correct_predictions : ℕ
  pub gradients : List ℤ

-- The body of the loop for one row.
unfoldable pub add_row : List ℤ → List ℤ → ℕ → ℤ → Totals → Totals
unfolding row_score add_gradients
add_row weights features row label totals =
    let score = row_score features (row * 8) weights (pos 0) in
    let error = label -ℤ score in
    record {
      squared_error_sum = totals.squared_error_sum +ℤ shift_16 (error *ℤ error);
      correct_predictions =
          totals.correct_predictions + (if prediction score ==ℤ label then 1 else 0);
      gradients = add_gradients features (row * 8) error totals.gradients;
    }

unfoldable pub add_rows : List ℤ → List ℤ → ℕ → List ℤ → Totals → Totals
unfolding add_row
add_rows weights features row [] totals = totals
add_rows weights features row (label ∷ labels) totals =
    add_rows weights features (row + 1) labels (add_row weights features row label totals)

abbrev pub weight_limit : ℕ
weight_limit = 2_097_152

unfoldable pub clamp_weight : ℤ → ℤ
clamp_weight next =
    let next = if ltb_ℤ (pos weight_limit) next then pos weight_limit else next in
    if ltb_ℤ next (negsuc 2_097_151) then negsuc 2_097_151 else next

-- The next weight before the clamp.
unfoldable pub next_weight : ℤ → ℤ → ℕ → ℤ → ℤ → ℤ
next_weight learning_rate l2 count weight gradient =
    let mean = div_i64 gradient count in
    let penalty = shift_16 (l2 *ℤ weight) in weight +ℤ shift_16 (learning_rate *ℤ (mean -ℤ penalty))

unfoldable pub next_weights : ℤ → ℤ → ℕ → List ℤ → List ℤ → List ℤ
unfolding clamp_weight next_weight
next_weights learning_rate l2 count [] gradients = []
next_weights learning_rate l2 count (weight ∷ weights) [] = []
next_weights learning_rate l2 count (weight ∷ weights) (gradient ∷ gradients) =
    to_i32 (clamp_weight (next_weight learning_rate l2 count weight gradient))
    ∷ next_weights learning_rate l2 count weights gradients

-- The default thresholds in place of ones that are not in order.
unfoldable pub order_thresholds : ModelUpdate → ModelUpdate
order_thresholds update =
    if leb_ℤ update.buy_threshold update.sell_threshold
    then record update { buy_threshold = pos 16_384; sell_threshold = negsuc 16_383 }
    else update

unfoldable pub invalid_arguments : List ℤ → List ℤ → ℤ → ℤ → Bool
invalid_arguments features labels learning_rate l2 =
    length labels == 0
    || not (length features == length labels * 8)
    || leb_ℤ learning_rate (pos 0)
    || ltb_ℤ l2 (pos 0)

unfoldable pub run_regression_oracle : List ℤ → List ℤ → ModelUpdate → ℤ → ℤ → Regression
unfolding invalid_arguments add_rows next_weights order_thresholds
run_regression_oracle features labels initial learning_rate l2 =
    if invalid_arguments features labels learning_rate l2
    then invalid_batch
    else result (record {
      update = order_thresholds (record initial {
        weights = next_weights learning_rate l2 (length labels) initial.weights totals.gradients;
      });
      metrics = record {
        squared_error_sum = totals.squared_error_sum;
        correct_predictions = totals.correct_predictions;
        rows = length labels;
      };
    })
  where
    totals : Totals
    totals = add_rows initial.weights features 0 labels (record {
      squared_error_sum = pos 0;
      correct_predictions = 0;
      gradients = replicate 8 (pos 0);
    })
