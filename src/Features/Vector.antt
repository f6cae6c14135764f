-- ===== src/Features/Vector.antt =====
-- The feature vector of src/market/order_book.cpp: its shape, its ranges, and when it is valid.
use native.Mathlib.Nat.{mul-le-mul, le_refl}
use native.Mathlib.Decide.{dec_le}
use adaptive_fpga.Prelude.{
  ℕ, zero, suc, ◌+◌, ◌*◌, ◌≤◌, ◌<◌, ◌≡◌, refl, arith, Option, none, some, Bool, true, false, ◌⊎◌,
  List, length, All, get_or, if◌then◌else◌,
}
use adaptive_fpga.Prelude.Int.{ℤ, pos, negsuc, nat_abs, ◌-ℤ◌, ◌*ℤ◌, ◌≤ℤ◌}
use adaptive_fpga.Prelude.Words.{IsI32}
use adaptive_fpga.FixedPoint.{scale, one, saturate, rounded_quotient, rounded_divide}
use adaptive_fpga.FixedPoint.Rounding.{rounded_quotient_nearest, nat_abs-rounded_divide}
use adaptive_fpga.FixedPoint.Bounds.{saturate-IsI32, nat_abs-*}
use adaptive_fpga.Event.{FeatureVector}
use adaptive_fpga.Book.{BookSnapshot}
use adaptive_fpga.Window.{FeatureWindow}
use adaptive_fpga.Features.{
  best, midpoint_ticks, microprice_ticks, ratio, features_of, feature_values, calculate_features,
  total_quantity, no_features,
}
use adaptive_fpga.Features.Prices.{IsSpread, prices_in_spread}

ratio-IsI32 : (n d : ℤ) → IsI32 (ratio n d)
unfolding ratio
ratio-IsI32 n d = ground (arith, saturate-IsI32 (rounded_divide (n *ℤ scale) d))

-- A quotient of at most 1 is at most 1.0, rounding included.
quotient_at_most_one : (n d : ℕ) → n ≤ d → 0 < d → rounded_quotient (n * 65_536) d ≤ 65_536
quotient_at_most_one n d h p =
    let near = (rounded_quotient_nearest (n * 65_536) d p).0 in
    elim (dec_le (rounded_quotient (n * 65_536) d) 65_536) [
      | yes small ↦ small
      | no large ↦ absurd (
          omega (
            arith,
            near,
            mul-le-mul {n₁ = 65_537} {n₂ = rounded_quotient (n * 65_536) d} (omega arith)
                (le_refl d),
          ))
    ]

ratio_zero : (n : ℤ) → ratio n (pos 0) ≡ pos 0
unfolding ratio
ratio_zero n = refl

ratio_pos :
    (n : ℤ) (d : ℕ) → 0 < d → ratio n (pos d) ≡ saturate (rounded_divide (n *ℤ scale) (pos d))
unfolding ratio
ratio_pos n d h = ground arith

unit_of_abs :
    (a : ℤ) → nat_abs a ≤ 65_536 → (negsuc 65_535 ≤ℤ saturate a) × (saturate a ≤ℤ pos 65_536)
unfolding saturate
unit_of_abs a h = ground arith

-- A ratio of a number to one at least as large in magnitude lies between -1.0 and 1.0.
pub ratio_unit :
    (n : ℤ) (d : ℕ)
    → nat_abs n ≤ d
    → (negsuc 65_535 ≤ℤ ratio n (pos d)) × (ratio n (pos d) ≤ℤ pos 65_536)
ratio_unit n zero h = rw (ratio_zero n) (omega arith)
ratio_unit n (suc d) h =
    let small = quotient_at_most_one (nat_abs n) (suc d) h (omega arith) in
    let value = nat_abs-rounded_divide (n *ℤ scale) (pos (suc d)) in
    let product = nat_abs-* n scale in
    rw (ratio_pos n (suc d) (omega arith))
      (unit_of_abs (rounded_divide (n *ℤ scale) (pos (suc d))) (rw (value, product) small))

-- The difference of two numbers is at most their sum.
difference_bound : (a b : ℕ) → nat_abs (pos a -ℤ pos b) ≤ a + b
unfolding ◌-ℤ◌
difference_bound a b = ground arith

abbrev pub ImbalanceInUnit : List ℤ → Type 0
ImbalanceInUnit values =
    (negsuc 65_535 ≤ℤ get_or values 1 (pos 0))
    × (get_or values 1 (pos 0) ≤ℤ pos 65_536)
    × (negsuc 65_535 ≤ℤ get_or values 2 (pos 0))
    × (get_or values 2 (pos 0) ≤ℤ pos 65_536)

-- What every feature vector satisfies, valid or not.
pub record IsFeatures (f : FeatureVector) : Type 0 where
  pub eight : length f.values ≡ 8
  pub in_range : All IsI32 f.values
  pub imbalance : ImbalanceInUnit f.values
  pub bias : f.valid ≡ true → get_or f.values 7 (pos 0) ≡ one

pub no_features-IsFeatures : IsFeatures no_features
no_features-IsFeatures = record {
  eight = refl;
  in_range = omega arith;
  imbalance = omega arith;
  bias = λ h. absurd (cc);
}

feature_values-IsFeatures :
    (book : BookSnapshot) (window : FeatureWindow) (midpoint microprice : ℤ)
    → IsFeatures (record { values = feature_values book window midpoint microprice; valid = true })
unfolding feature_values
feature_values-IsFeatures book window midpoint microprice =
    let bq = (best book.bids).quantity in
    let aq = (best book.asks).quantity in
    let bt = total_quantity book.bids in
    let at = total_quantity book.asks in
    let l1 = ratio_unit (pos bq -ℤ pos aq) (bq + aq) (difference_bound bq aq) in
    let l10 = ratio_unit (pos bt -ℤ pos at) (bt + at) (difference_bound bt at) in
    record {
      eight = refl;
      in_range = (
        ratio-IsI32 _ _,
        (
          ratio-IsI32 _ _,
          (
            ratio-IsI32 _ _,
            (
              ratio-IsI32 _ _,
              (ratio-IsI32 _ _, (ratio-IsI32 _ _, (ratio-IsI32 _ _, (omega arith, tt)))),
            ),
          ),
        ),
      );
      imbalance = (l1.0, l1.1, l10.0, l10.1);
      bias = λ h. refl;
    }

IsFeatures-if :
    (b : Bool) (f g : FeatureVector) → IsFeatures f → IsFeatures g → IsFeatures (if b then f else g)
IsFeatures-if true f g hf hg = hf
IsFeatures-if false f g hf hg = hg

features_of-IsFeatures :
    (book : BookSnapshot) (window : FeatureWindow) (midpoint microprice : Option ℤ)
    → IsFeatures (features_of book window midpoint microprice)
unfolding features_of
features_of-IsFeatures book window none microprice = no_features-IsFeatures
features_of-IsFeatures book window (some midpoint) none = no_features-IsFeatures
features_of-IsFeatures book window (some midpoint) (some microprice) =
    IsFeatures-if _ no_features _ no_features-IsFeatures
      (feature_values-IsFeatures book window midpoint microprice)

-- Whatever the book and the window, the vector has eight int32_t values, the two imbalances lie
-- between -1.0 and 1.0, and the last value of a valid vector is the constant 1.0.
pub calculate_features-IsFeatures :
    (book : BookSnapshot) (window : FeatureWindow) → IsFeatures (calculate_features book window)
unfolding calculate_features
calculate_features-IsFeatures book window =
    features_of-IsFeatures book window (midpoint_ticks book) (microprice_ticks book)

no_midpoint :
    (book : BookSnapshot)
    → ((best book.bids).quantity ≡ 0) ⊎ ((best book.asks).quantity ≡ 0)
    → midpoint_ticks book ≡ none
unfolding midpoint_ticks
no_midpoint book h = ground arith

features_invalid :
    (book : BookSnapshot) (window : FeatureWindow)
    → midpoint_ticks book ≡ none
    → calculate_features book window ≡ no_features
unfolding calculate_features
features_invalid book window h = rw h refl

features_present :
    (book : BookSnapshot) (window : FeatureWindow) (midpoint microprice : ℕ)
    → 0 < midpoint
    → 0 < (best book.bids).quantity
    → 0 < (best book.asks).quantity
    → (features_of book window (some (pos midpoint)) (some (pos microprice))).valid ≡ true
unfolding features_of
features_present book window midpoint microprice m b a = ground arith

-- An empty side gives the invalid vector of zeros; with both sides used, a bid price from 1 on and
-- the bid not above the ask, the vector is valid.
pub calculate_features_valid :
    (book : BookSnapshot) (window : FeatureWindow)
    → (((best book.bids).quantity ≡ 0) ⊎ ((best book.asks).quantity ≡ 0)
        → calculate_features book window ≡ no_features)
      × ((bid ask : ℕ)
          → IsSpread book bid ask
          → 0 < bid
          → (calculate_features book window).valid ≡ true)
unfolding calculate_features
calculate_features_valid book window = (
  λ h. features_invalid book window (no_midpoint book h),
  λ bid ask s p.
      let x = prices_in_spread book bid ask s in
      rw (x.2, x.3)
        (features_present book window x.0 x.1 (omega (arith, x.4)) s.bid_used s.ask_used),
)
