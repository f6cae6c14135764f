-- ===== src/Features/Prices.antt =====
-- Midpoint and microprice of src/market/order_book.cpp lie in the spread; where the microprice's sum
-- fits an int64_t.
use native.Mathlib.Nat.{mul-le-mul, le_refl}
use native.Mathlib.Decide.{dec_le}
use adaptive_fpga.Prelude.{ℕ, suc, ◌+◌, ◌*◌, ◌/◌, ◌≤◌, ◌<◌, ◌≡◌, refl, arith, some, ◌∙◌}
use adaptive_fpga.Prelude.Int.{pos, ◌+ℤ◌, ◌*ℤ◌}
use adaptive_fpga.Prelude.Words.{IsI64, to_i32_lem, div_i64, wrap_i64_lem}
use adaptive_fpga.FixedPoint.{rounded_quotient, rounded_divide}
use adaptive_fpga.FixedPoint.Rounding.{rounded_quotient_nearest}
use adaptive_fpga.Book.{BookSnapshot}
use adaptive_fpga.Features.{best, midpoint_ticks, microprice_ticks, weighted_prices}

-- Both best levels are used, with prices that are int32_t values, the bid not above the ask, and their weighted sum is an int64_t.
pub record IsSpread (book : BookSnapshot) (bid ask : ℕ) : Type 0 where
  pub bid_price : (best book.bids).price_ticks ≡ pos bid
  pub ask_price : (best book.asks).price_ticks ≡ pos ask
  pub bid_used : 0 < (best book.bids).quantity
  pub ask_used : 0 < (best book.asks).quantity
  pub ordered : bid ≤ ask
  pub in_range : ask ≤ 2_147_483_647
  pub sum_fits : IsI64 (weighted_prices book)

half_between : (bid ask : ℕ) → bid ≤ ask → (bid ≤ (bid + ask) / 2) × ((bid + ask) / 2 ≤ ask)
half_between bid ask h = omega arith

midpoint_value :
    (book : BookSnapshot) (bid ask : ℕ)
    → IsSpread book bid ask
    → midpoint_ticks book ≡ some (pos ((bid + ask) / 2))
unfolding midpoint_ticks ◌+ℤ◌ div_i64
midpoint_value book bid ask s =
    let value = to_i32_lem (pos ((bid + ask) / 2)) (omega (arith, s.in_range, s.ordered)) in
    ground (arith, s.bid_price, s.ask_price, s.bid_used, s.ask_used, value)

-- The weighted mean of two numbers, rounded, lies between them.
mean_between :
    (bid ask bid_weight ask_weight : ℕ)
    → bid ≤ ask
    → 0 < bid_weight + ask_weight
    → let mean = rounded_quotient (ask * bid_weight + bid * ask_weight) (bid_weight + ask_weight) in
      (bid ≤ mean) × (mean ≤ ask)
mean_between bid ask bid_weight ask_weight h p =
    let total = bid_weight + ask_weight in
    let sum = ask * bid_weight + bid * ask_weight in
    let mean = rounded_quotient sum total in
    let near = rounded_quotient_nearest sum total p in
    let low : bid * total ≤ sum = omega (arith, mul-le-mul h (le_refl bid_weight)) in
    let high : sum ≤ ask * total = omega (arith, mul-le-mul h (le_refl ask_weight)) in
    (not_below bid mean total sum low near.1, not_above ask mean total sum p high near.0)
  where
    not_below :
        (bid mean total sum : ℕ)
        → bid * total ≤ sum
        → 2 * sum < 2 * (mean * total) + total
        → bid ≤ mean
    not_below bid mean total sum low near = elim (dec_le bid mean) [
      | yes h ↦ h
      | no h ↦ absurd (
          omega
            (arith, low, near, mul-le-mul {n₁ = suc mean} {n₂ = bid} (omega arith) (le_refl total)))
    ]

    not_above :
        (ask mean total sum : ℕ)
        → 0 < total
        → sum ≤ ask * total
        → 2 * (mean * total) ≤ 2 * sum + total
        → mean ≤ ask
    not_above ask mean total sum p high near = elim (dec_le mean ask) [
      | yes h ↦ h
      | no h ↦ absurd (
          omega (
            arith,
            p,
            high,
            near,
            mul-le-mul {n₁ = suc ask} {n₂ = mean} (omega arith) (le_refl total),
          ))
    ]

-- The sum that `microprice_ticks` divides, on positive prices.
weighted_sum :
    (bid ask bid_quantity ask_quantity : ℕ)
    → pos ask *ℤ pos bid_quantity +ℤ pos bid *ℤ pos ask_quantity
      ≡ pos (ask * bid_quantity + bid * ask_quantity)
unfolding ◌+ℤ◌ ◌*ℤ◌
weighted_sum bid ask bid_quantity ask_quantity = ground arith

divide_pos : (n d : ℕ) → rounded_divide (pos n) (pos d) ≡ pos (rounded_quotient n d)
unfolding rounded_divide
divide_pos n d = refl

weighted_value :
    (book : BookSnapshot) (bid ask : ℕ)
    → (best book.bids).price_ticks ≡ pos bid
    → (best book.asks).price_ticks ≡ pos ask
    → weighted_prices book ≡ pos (ask * (best book.bids).quantity + bid * (best book.asks).quantity)
unfolding weighted_prices
weighted_value book bid ask b a =
    rw (b, a) (weighted_sum bid ask (best book.bids).quantity (best book.asks).quantity)

microprice_value :
    (book : BookSnapshot) (bid ask : ℕ)
    → IsSpread book bid ask
    → let bq = (best book.bids).quantity in
      let aq = (best book.asks).quantity in
      microprice_ticks book ≡ some (pos (rounded_quotient (ask * bq + bid * aq) (bq + aq)))
unfolding microprice_ticks
microprice_value book bid ask s =
    let bq = (best book.bids).quantity in
    let aq = (best book.asks).quantity in
    let between = mean_between bid ask bq aq s.ordered (omega (arith, s.bid_used)) in
    let value =
      to_i32_lem (pos (rounded_quotient (ask * bq + bid * aq) (bq + aq)))
        (omega (arith, between, s.in_range)) in
    let sum = weighted_sum bid ask bq aq in
    let quotient = divide_pos (ask * bq + bid * aq) (bq + aq) in
    let fits =
      wrap_i64_lem (weighted_prices book) s.sum_fits
      ∙ weighted_value book bid ask s.bid_price s.ask_price in
    rw fits (ground (arith, s.bid_used, s.ask_used, value, quotient))

-- With both sides used, the best bid not above the best ask, and the weighted sum of the prices in int64_t,
-- midpoint and microprice exist, and
-- both lie between the best bid and the best ask: no narrowing cast changes a value.
pub prices_in_spread :
    (book : BookSnapshot) (bid ask : ℕ)
    → IsSpread book bid ask
    → (midpoint microprice : ℕ) × (midpoint_ticks book ≡ some (pos midpoint))
      × (microprice_ticks book ≡ some (pos microprice))
      × (bid ≤ midpoint)
      × (midpoint ≤ ask)
      × (bid ≤ microprice)
      × (microprice ≤ ask)
prices_in_spread book bid ask s =
    let bq = (best book.bids).quantity in
    let aq = (best book.asks).quantity in
    let half = half_between bid ask s.ordered in
    let mean = mean_between bid ask bq aq s.ordered (omega (arith, s.bid_used)) in
    (
      (bid + ask) / 2,
      rounded_quotient (ask * bq + bid * aq) (bq + aq),
      midpoint_value book bid ask s,
      microprice_value book bid ask s,
      half.0,
      half.1,
      mean.0,
      mean.1,
    )

-- The int64_t sum of `microprice_ticks` stays in range on a book whose best prices are at most 2^30 and
-- whose quantities are uint32_t values; it overflows on every book whose best prices are at least
-- 2^31 - 2, with at least 2^31 + 4 on both sides.
pub microprice_sum_range :
    (book : BookSnapshot) (bid ask : ℕ)
    → (best book.bids).price_ticks ≡ pos bid
    → (best book.asks).price_ticks ≡ pos ask
    → (bid ≤ 1_073_741_824
        → ask ≤ 1_073_741_824
        → (best book.bids).quantity ≤ 4_294_967_295
        → (best book.asks).quantity ≤ 4_294_967_295
        → IsI64 (weighted_prices book))
      × (2_147_483_646 ≤ bid
          → 2_147_483_646 ≤ ask
          → 2_147_483_652 ≤ (best book.bids).quantity
          → 2_147_483_652 ≤ (best book.asks).quantity
          → ¬ (IsI64 (weighted_prices book)))
microprice_sum_range book bid ask b a = rw (weighted_value book bid ask b a) (
  λ hb ha hq hr. omega (arith, mul-le-mul ha hq, mul-le-mul hb hr),
  λ hb ha hq hr fits. omega (arith, mul-le-mul ha hq, mul-le-mul hb hr, fits),
)
