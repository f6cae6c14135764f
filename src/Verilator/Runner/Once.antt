-- ===== src/Verilator/Runner/Once.antt =====
-- `process` of src/verilator/verilator_runner.cpp: its clock edges, and what it hands over.
use mathlib.Core.Path.{subst}
use adaptive_fpga.Prelude.{
  ℕ, zero, suc, ◌+◌, ◌≤◌, ◌≡◌, refl, sym, arith, Bool, true, false, List, Option, none, some,
  length, if◌then◌else◌,
}
use adaptive_fpga.Prelude.Words.{low_u32}
use adaptive_fpga.Event.{MarketEvent}
use adaptive_fpga.Codec.{type_code, side_code}
use adaptive_fpga.Verilator.Runner.{Dut, RtlSnapshot, read_snapshot}
use adaptive_fpga.Verilator.Runner.Drive.{
  Runner, tick, capture, store_latest, count_completed, complete, await_done,
}
use adaptive_fpga.Verilator.Runner.Strobes.{
  Strobe, event_strobe, handed, recorded, Ends, Ends-map, tick-Quiet,
}
use adaptive_fpga.Verilator.Runner.Words.{Idle, Idle-Quiet}

-- What the RTL is given of an event.
abbrev pub strobe_of : MarketEvent → Strobe
strobe_of event =
    event_strobe event.timestamp_ns (type_code event.type) (side_code event.side)
      (low_u32 event.price_ticks) event.quantity

module _ (D : Dut) where
  -- So many edges at most, and so much handed over.
  abbrev pub Spent : ℕ → List Strobe → Runner (recorded D) → Type 0
  Spent edges given r = (length r.dut.1 ≤ edges) × (handed r.dut.1 ≡ given)

  pub tick-Spent :
      (edges : ℕ) (given : List Strobe) (r : Runner (recorded D))
      → Idle r.pins
      → Spent edges given r
      → Spent (suc edges) given (tick (recorded D) r)
  tick-Spent edges given r idle spent = (
    unfold tick in omega (arith, spent.0),
    (tick-Quiet D r.pins given r (Idle-Quiet r.pins idle) (refl, spent.1)).1,
  )

  tick-pins : (r : Runner (recorded D)) → (tick (recorded D) r).pins ≡ r.pins
  unfolding tick
  tick-pins r = refl

  -- The last steps of `process`.
  complete-Spent :
      (edges : ℕ) (given : List Strobe) (r : Runner (recorded D))
      → Spent edges given r
      → Ends (Spent edges given) (Spent edges given) (complete (recorded D) r)
  unfolding complete capture count_completed
  complete-Spent edges given r spent = stored (read_snapshot (D.ports r.dut.0))
    where
      stored :
          (s : Option RtlSnapshot)
          → Ends
              (Spent edges given)
              (Spent edges given)
              (store_latest (recorded D) s (count_completed (recorded D) r))
      stored none = unfold store_latest in spent
      stored (some snapshot) = unfold store_latest in spent

  pub more_edges :
      (edges edges' : ℕ) (given : List Strobe) (r : Runner (recorded D))
      → edges ≤ edges'
      → Spent edges given r
      → Spent edges' given r
  more_edges edges edges' given r h spent = (omega (arith, spent.0), spent.1)

  pub await_done-Spent :
      (cycles edges : ℕ) (given : List Strobe) (r : Runner (recorded D))
      → Idle r.pins
      → Spent edges given r
      → Ends
          (Spent (edges + cycles) given)
          (Spent (edges + cycles) given)
          (await_done (recorded D) cycles r)
  unfolding await_done
  await_done-Spent zero edges given r idle spent =
      more_edges edges (edges + 0) given r (omega arith) spent
  await_done-Spent (suc cycles) edges given r idle spent =
      either (D.ports ticked.dut.0).event_done (
        await_done-Spent cycles (suc edges) given ticked (subst Idle (sym (tick-pins r)) idle) next)
    where
      ticked : Runner (recorded D)
      ticked = tick (recorded D) r

      next : Spent (suc edges) given ticked
      next = tick-Spent edges given r idle spent

      either :
          (is_done : Bool)
          → Ends
              (Spent (suc edges + cycles) given)
              (Spent (suc edges + cycles) given)
              (await_done (recorded D) cycles ticked)
          → Ends (Spent (edges + suc cycles) given) (Spent (edges + suc cycles) given) (
              if is_done
              then complete (recorded D) ticked
              else await_done (recorded D) cycles ticked)
      either true later =
          Ends-map (Spent (suc edges) given) (Spent (edges + suc cycles) given)
            (Spent (suc edges) given) (Spent (edges + suc cycles) given)
            (complete (recorded D) ticked)
            (λ r' e. more_edges (suc edges) (edges + suc cycles) given r' (omega arith) e)
            (λ r' e. more_edges (suc edges) (edges + suc cycles) given r' (omega arith) e)
            (complete-Spent (suc edges) given ticked next)
      either false later =
          Ends-map (Spent (suc edges + cycles) given) (Spent (edges + suc cycles) given)
            (Spent (suc edges + cycles) given) (Spent (edges + suc cycles) given)
            (await_done (recorded D) cycles ticked)
            (λ r' e. more_edges (suc edges + cycles) (edges + suc cycles) given r' (omega arith) e)
            (λ r' e. more_edges (suc edges + cycles) (edges + suc cycles) given r' (omega arith) e)
            later
