-- ===== src/Window.antt =====
-- `FeatureWindow` of include/market/order_book.hpp and src/market/order_book.cpp: the last 64 entries
-- in a circular array, with their running sums.
pub mod Recent
pub mod Sums
mod Tests
use adaptive_fpga.Prelude.{ℕ, ◌+◌, ◌%◌, Bool, List, ◌==◌, if◌then◌else◌, get_or, set, replicate}
use adaptive_fpga.Prelude.Int.{ℤ, pos, ◌+ℤ◌, ◌-ℤ◌}

pub record Entry : Type 0 where
  pub order_flow : ℤ
  pub trade_flow : ℤ
  pub absolute_midpoint_change : ℤ

abbrev pub window_size : ℕ
window_size = 64

abbrev pub zero_entry : Entry
zero_entry = record { order_flow = pos 0; trade_flow = pos 0; absolute_midpoint_change = pos 0 }

-- `entries_` has 64 entries.
pub record FeatureWindow : Type 0 where
  pub entries : List Entry
  pub next : ℕ
  pub size : ℕ
  pub order_flow_sum : ℤ
  pub trade_flow_sum : ℤ
  pub absolute_midpoint_change_sum : ℤ

abbrev pub empty_window : FeatureWindow
empty_window = record {
  entries = replicate window_size zero_entry;
  next = 0;
  size = 0;
  order_flow_sum = pos 0;
  trade_flow_sum = pos 0;
  absolute_midpoint_change_sum = pos 0;
}

-- The first half of `push`: a full window gives up its oldest entry, another grows.
unfoldable pub make_room : FeatureWindow → FeatureWindow
make_room w =
    if w.size == window_size
    then record w {
      order_flow_sum = w.order_flow_sum -ℤ old.order_flow;
      trade_flow_sum = w.trade_flow_sum -ℤ old.trade_flow;
      absolute_midpoint_change_sum = w.absolute_midpoint_change_sum -ℤ old.absolute_midpoint_change;
    }
    else record w { size = w.size + 1 }
  where
    old : Entry
    old = get_or w.entries w.next zero_entry

-- The second half: the new entry is written and summed.
unfoldable pub write_entry : FeatureWindow → Entry → FeatureWindow
write_entry w e = record w {
  entries = set w.entries w.next e;
  order_flow_sum = w.order_flow_sum +ℤ e.order_flow;
  trade_flow_sum = w.trade_flow_sum +ℤ e.trade_flow;
  absolute_midpoint_change_sum = w.absolute_midpoint_change_sum +ℤ e.absolute_midpoint_change;
  next = (w.next + 1) % window_size;
}

unfoldable pub push : FeatureWindow → ℤ → ℤ → ℤ → FeatureWindow
unfolding make_room write_entry
push w order_flow trade_flow absolute_midpoint_change = write_entry (make_room w) (record {
  order_flow = order_flow;
  trade_flow = trade_flow;
  absolute_midpoint_change = absolute_midpoint_change;
})

-- `*this = {}`
unfoldable pub reset : FeatureWindow → FeatureWindow
reset w = empty_window
