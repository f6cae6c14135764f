-- ===== src/Gpu/Worker/Label.antt =====
-- The labels of src/gpu/gpu_worker.cpp.
use adaptive_fpga.Prelude.{◌≡◌, ◌↔◌, arith}
use adaptive_fpga.Prelude.Int.{ℤ, pos, ◌-ℤ◌, ◌<ℤ◌, ◌≤ℤ◌, int_laws}
use adaptive_fpga.FixedPoint.{one}
use adaptive_fpga.Gpu.Worker.{
  RtlStreamResult, long_profit, short_profit, minus_one, label_of_profits, row_of,
}

label_of_profits_lem :
    (minimum long short : ℤ)
    → pos 0 <ℤ minimum
    → (minimum ≤ℤ long → short <ℤ minimum)
    → ((label_of_profits minimum long short ≡ one) ↔ (minimum ≤ℤ long))
      × ((label_of_profits minimum long short ≡ minus_one) ↔ (minimum ≤ℤ short))
unfolding label_of_profits
label_of_profits_lem minimum long short p apart = (
  (λ h. ground arith, λ h. ground (arith, apart h)),
  (λ h. ground arith, λ h. ground (arith, apart)),
)

-- Where neither quote is crossed and the minimum profit is positive, the label says which trade would
-- have paid: 1.0 exactly if buying at the entry's ask and selling at the later bid earns the minimum,
-- -1.0 exactly if selling at the entry's bid and buying back at the later ask does. Never do both.
pub row_of_lem :
    (minimum : ℤ) (entry future : RtlStreamResult)
    → pos 0 <ℤ minimum
    → entry.best_bid_price_ticks <ℤ entry.best_ask_price_ticks
    → future.best_bid_price_ticks <ℤ future.best_ask_price_ticks
    → let label = (row_of minimum entry future).label in
      ((label ≡ one) ↔ (minimum ≤ℤ (future.best_bid_price_ticks -ℤ entry.best_ask_price_ticks)))
      × ((label ≡ minus_one)
          ↔ (minimum ≤ℤ (entry.best_bid_price_ticks -ℤ future.best_ask_price_ticks)))
unfolding row_of long_profit short_profit
row_of_lem minimum entry future p e f =
    label_of_profits_lem minimum (long_profit entry future) (short_profit entry future) p
      (λ h. omega int_laws)
