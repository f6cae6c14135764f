-- ===== src/Window/Tests.antt =====
-- Runs of the feature window of src/market/order_book.cpp, and its theorems at concrete windows.
use adaptive_fpga.Prelude.{ℕ, ◌≡◌, refl, List, [], ◌∷◌, zero, suc}
use adaptive_fpga.Prelude.Int.{ℤ, pos, ◌+ℤ◌, ◌-ℤ◌}
use adaptive_fpga.Window.{Entry, empty_window, push}
use adaptive_fpga.Window.Recent.{recent}
use adaptive_fpga.Window.Sums.{Summed, sum_by, push_all, push_all_empty}

abbrev flow : ℤ → Entry
flow a = record { order_flow = a; trade_flow = pos 1; absolute_midpoint_change = pos 2 }

-- The flows n, n - 1, ..., 1.
abbrev countdown : ℕ → List Entry
countdown zero = []
countdown (suc n) = flow (pos (suc n)) ∷ countdown n

-- Of 70 pushes the first six, 70 to 65, have left the sums.
slides :
    ((push_all empty_window (countdown 70)).order_flow_sum ≡ pos 2080)
    × ((push_all empty_window (countdown 70)).trade_flow_sum ≡ pos 64)
    × ((push_all empty_window (countdown 70)).size ≡ 64)
    × ((push_all empty_window (countdown 70)).next ≡ 6)
unfolding push_all push ◌+ℤ◌ ◌-ℤ◌
slides = (refl, refl, refl, refl)

empty-Summed : Summed empty_window
unfolding sum_by
empty-Summed = record { order_flow = refl; trade_flow = refl; motion = refl }

push_all_empty_example :
    let w = push_all empty_window (countdown 3) in
    (recent w ≡ flow (pos 1) ∷ flow (pos 2) ∷ flow (pos 3) ∷ [])
    × (w.order_flow_sum
        ≡ sum_by (λ e. e.order_flow) (flow (pos 1) ∷ flow (pos 2) ∷ flow (pos 3) ∷ []))
    × (w.trade_flow_sum
        ≡ sum_by (λ e. e.trade_flow) (flow (pos 1) ∷ flow (pos 2) ∷ flow (pos 3) ∷ []))
    × (w.absolute_midpoint_change_sum
        ≡ sum_by
            (λ e. e.absolute_midpoint_change)
            (flow (pos 1) ∷ flow (pos 2) ∷ flow (pos 3) ∷ []))
push_all_empty_example = push_all_empty (countdown 3)
