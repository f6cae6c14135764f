-- ===== src/Features/Decision.antt =====
-- `evaluate_strategy` of src/market/order_book.cpp: score and action.
use adaptive_fpga.Prelude.{
  ℕ, ◌≡◌, ◌↔◌, refl, ap, sym, ◌∙◌, arith, true, false, List, [], ◌∷◌, zero, suc, replicate,
}
use adaptive_fpga.Prelude.Int.{ℤ, pos, ◌+ℤ◌, ◌*ℤ◌, ◌≤ℤ◌, ◌<ℤ◌, int_laws}
use adaptive_fpga.Prelude.Words.{IsI32}
use adaptive_fpga.FixedPoint.{scale, saturate, rounded_divide, rounded_quotient}
use adaptive_fpga.FixedPoint.Bounds.{saturate-IsI32}
use adaptive_fpga.Event.{FeatureVector, ModelParameters, hold, buy, sell}
use adaptive_fpga.Features.{score_from, choose_action, evaluate_strategy}

choose_action_lem :
    (score : ℤ) (parameters : ModelParameters)
    → ((choose_action score parameters ≡ buy) ↔ (parameters.buy_threshold <ℤ score))
      × (parameters.sell_threshold <ℤ parameters.buy_threshold
          → (choose_action score parameters ≡ sell) ↔ (score <ℤ parameters.sell_threshold))
      × (parameters.sell_threshold <ℤ parameters.buy_threshold
          → (choose_action score parameters ≡ hold)
            ↔ ((parameters.sell_threshold ≤ℤ score) × (score ≤ℤ parameters.buy_threshold)))
unfolding choose_action
choose_action_lem score parameters = (
  (λ h. ground arith, λ h. ground arith),
  λ o. (λ h. ground arith, λ h. ground arith),
  λ o. (λ h. ground arith, λ h. ground arith),
)

-- The products in Q16.16, each rounded, and their sum.
abbrev pub products : List ℤ → List ℤ → List ℤ
products [] weights = []
products (value ∷ values) [] = []
products (value ∷ values) (weight ∷ weights) =
    rounded_divide (value *ℤ weight) (pos 65_536) ∷ products values weights

abbrev pub total : List ℤ → ℤ
total [] = pos 0
total (term ∷ terms) = term +ℤ total terms

sum_apart : (a b c : ℤ) → a +ℤ b +ℤ c ≡ a +ℤ (b +ℤ c)
sum_apart a b c = omega int_laws

sum_zero : (a : ℤ) → a +ℤ pos 0 ≡ a
sum_zero a = omega int_laws

zero_sum : (a : ℤ) → pos 0 +ℤ a ≡ a
zero_sum a = omega int_laws

score_from_lem :
    (values weights : List ℤ) (score : ℤ)
    → score_from score values weights ≡ score +ℤ total (products values weights)
unfolding score_from
score_from_lem [] weights score = sym (sum_zero score)
score_from_lem (value ∷ values) [] score = sym (sum_zero score)
score_from_lem (value ∷ values) (weight ∷ weights) score =
    score_from_lem values weights (score +ℤ rounded_divide (value *ℤ weight) scale)
    ∙ sum_apart score (rounded_divide (value *ℤ weight) scale) (total (products values weights))

from_zero :
    (values weights : List ℤ) → score_from (pos 0) values weights ≡ total (products values weights)
from_zero values weights =
    score_from_lem values weights (pos 0) ∙ zero_sum (total (products values weights))

-- An invalid vector gives an idle signal. A valid one gives a valid signal whose score is the sum of the
-- rounded Q16.16 products of features and weights, saturated to int32_t, and with the thresholds in order: BUY exactly above the buy threshold, SELL exactly below the sell
-- threshold, HOLD exactly between them. Either way the signal carries its event's time and index and
-- the model's version.
pub evaluate_strategy_lem :
    (timestamp_ns event_index : ℕ) (features : FeatureVector) (parameters : ModelParameters)
    → parameters.sell_threshold <ℤ parameters.buy_threshold
    → let s = evaluate_strategy timestamp_ns event_index features parameters in
      (features.valid ≡ false → (s.valid ≡ false) × (s.action ≡ hold) × (s.score ≡ pos 0))
      × (features.valid ≡ true
          → (s.valid ≡ true)
            × (s.score ≡ saturate (total (products features.values parameters.weights)))
            × IsI32 s.score
            × ((s.action ≡ buy) ↔ (parameters.buy_threshold <ℤ s.score))
            × ((s.action ≡ sell) ↔ (s.score <ℤ parameters.sell_threshold))
            × ((s.action ≡ hold)
                ↔ ((parameters.sell_threshold ≤ℤ s.score) × (s.score ≤ℤ parameters.buy_threshold))))
      × (s.timestamp_ns ≡ timestamp_ns)
      × (s.event_index ≡ event_index)
      × (s.model_version ≡ parameters.model_version)
unfolding evaluate_strategy
evaluate_strategy_lem timestamp_ns event_index features parameters o =
    let score = saturate (score_from (pos 0) features.values parameters.weights) in
    let range = saturate-IsI32 (score_from (pos 0) features.values parameters.weights) in
    let act = choose_action_lem score parameters in
    (
      λ h. rw h (refl, refl, refl),
      λ h. rw h (
        refl,
        ap saturate (from_zero features.values parameters.weights),
        range,
        act.0,
        act.1 o,
        act.2 o,
      ),
      ground arith,
      ground arith,
      ground arith,
    )

zero_product : (value : ℤ) → rounded_divide (value *ℤ pos 0) scale ≡ pos 0
unfolding rounded_divide rounded_quotient ◌*ℤ◌
zero_product value = ground arith

score_zero :
    (values : List ℤ) (n : ℕ) (score : ℤ) → score_from score values (replicate n (pos 0)) ≡ score
unfolding score_from
score_zero [] n score = refl
score_zero (value ∷ values) zero score = refl
score_zero (value ∷ values) (suc n) score =
    ap (λ t. score_from (score +ℤ t) values (replicate n (pos 0))) (zero_product value)
    ∙ ap (λ t. score_from t values (replicate n (pos 0))) (add_zero score)
    ∙ score_zero values n score
  where
    add_zero : (a : ℤ) → a +ℤ pos 0 ≡ a
    add_zero a = omega int_laws

-- The initial model, which has zero weights, scores every vector zero: with a buy threshold from zero
-- on and a sell threshold up to zero it never trades.
pub zero_weights_hold :
    (timestamp_ns event_index n : ℕ) (features : FeatureVector) (parameters : ModelParameters)
    → parameters.weights ≡ replicate n (pos 0)
    → pos 0 ≤ℤ parameters.buy_threshold
    → parameters.sell_threshold ≤ℤ pos 0
    → let s = evaluate_strategy timestamp_ns event_index features parameters in
      (s.score ≡ pos 0) × (s.action ≡ hold)
unfolding evaluate_strategy saturate
zero_weights_hold timestamp_ns event_index n features parameters w b s =
    let zero_score =
      ap (score_from (pos 0) features.values) w ∙ score_zero features.values n (pos 0) in
    ground (arith, zero_score)
