-- ===== src/Verilator/Runner/Process.antt =====
-- The whole of `process` of src/verilator/verilator_runner.cpp.
use mathlib.Core.Path.{subst}
use mathlib.Core.List.{append-nil}
use adaptive_fpga.Prelude.{
  ℕ, zero, suc, ◌+◌, ◌≤◌, ◌≡◌, refl, sym, ◌∙◌, arith, Bool, true, false, List, [], ◌∷◌, ◌++◌,
  length, if◌then◌else◌, ap₂,
}
use adaptive_fpga.Event.{MarketEvent}
use adaptive_fpga.Verilator.Runner.{Pins, Dut, not_ready, cycle_limit}
use adaptive_fpga.Verilator.Runner.Drive.{
  Runner, RunnerOutcome, finished, failed, and_run, tick, set_pins, wait_cycles, require_ready,
  wait_until_ready, await_done, submit, drive_event, process_event,
}
use adaptive_fpga.Verilator.Runner.Strobes.{
  Strobe, strobes_of, handed, recorded, Ends, Ends-then, Ends-map,
}
use adaptive_fpga.Verilator.Runner.Words.{Idle, Began, Done, wait-Done}
use adaptive_fpga.Verilator.Runner.Once.{strobe_of, Spent, await_done-Spent}

Ends-both :
    {D : Dut} (P P' Q Q' : Runner D → Type 0) (o : RunnerOutcome D)
    → Ends P Q o
    → Ends P' Q' o
    → Ends (λ r. P r × P' r) (λ r. Q r × Q' r) o
Ends-both P P' Q Q' (finished r) h h' = (h, h')
Ends-both P P' Q Q' (failed e r) h h' = (h, h')

module _ (D : Dut) where
  wait_cycles-Edges :
      (cycles : ℕ) (r : Runner (recorded D))
      → length (wait_cycles (recorded D) cycles r).dut.1 ≤ length r.dut.1 + cycles
  unfolding wait_cycles tick
  wait_cycles-Edges zero r = omega arith
  wait_cycles-Edges (suc cycles) r =
      either (D.ports r.dut.0).in_ready (wait_cycles-Edges cycles (tick (recorded D) r))
    where
      either :
          (ready : Bool)
          → length (wait_cycles (recorded D) cycles (tick (recorded D) r)).dut.1
            ≤ suc (length r.dut.1) + cycles
          → length
              (if ready then r else wait_cycles (recorded D) cycles (tick (recorded D) r)).dut.1
            ≤ length r.dut.1 + suc cycles
      either true h = omega arith
      either false h = omega (arith, h)

  abbrev Edges : ℕ → Runner (recorded D) → Type 0
  Edges edges r = length r.dut.1 ≤ edges

  wait_until_ready-Edges :
      (r : Runner (recorded D))
      → Ends
          (Edges (length r.dut.1 + 64))
          (Edges (length r.dut.1 + 64))
          (wait_until_ready (recorded D) r)
  unfolding wait_until_ready require_ready
  wait_until_ready-Edges r = either (D.ports (wait_cycles (recorded D) 64 r).dut.0).in_ready
    where
      either :
          (ready : Bool)
          → Ends (Edges (length r.dut.1 + 64)) (Edges (length r.dut.1 + 64)) (
              if ready
              then finished (wait_cycles (recorded D) 64 r)
              else failed not_ready (wait_cycles (recorded D) 64 r))
      either true = wait_cycles-Edges 64 r
      either false = wait_cycles-Edges 64 r

  event_pins : MarketEvent → Bool → Pins → Pins
  unfolding drive_event
  event_pins event valid pins = record (drive_event event pins) { in_valid = valid }

  event_pins-strobes :
      (event : MarketEvent) (pins : Pins)
      → Idle pins
      → strobes_of (event_pins event true pins) ≡ strobe_of event ∷ []
  unfolding event_pins drive_event
  event_pins-strobes event pins idle = rw (idle.1, idle.2) refl

  submit-Spent :
      (event : MarketEvent) (edges : ℕ) (given : List Strobe) (r : Runner (recorded D))
      → Idle r.pins
      → Spent D edges given r
      → Idle (submit (recorded D) event r).pins
        × Spent D (suc edges) (given ++ strobe_of event ∷ []) (submit (recorded D) event r)
  submit-Spent event edges given r idle spent = (
    (
      unfold submit set_pins tick drive_event in refl,
      unfold submit set_pins tick drive_event in idle.1,
      unfold submit set_pins tick drive_event in idle.2,
    ),
    (
      unfold submit set_pins tick in omega (arith, spent.0),
      unfold submit set_pins tick event_pins in
          ap₂ (λ g l. g ++ l) spent.1 (event_pins-strobes event r.pins idle),
    ),
  )

  process_event-and_run :
      (event : MarketEvent) (r : Runner (recorded D))
      → process_event (recorded D) event r
        ≡ and_run
            (recorded D)
            (wait_until_ready (recorded D) r)
            (λ w. await_done (recorded D) cycle_limit (submit (recorded D) event w))
  unfolding process_event
  process_event-and_run event r = refl

-- From idle pins, one call of `process` hands the RTL this event and nothing else, exactly once, or, if it throws,
-- once or not at all; and it ends, whatever the RTL does, within 129 clock cycles.
pub process_event_lem :
    (D : Dut) (event : MarketEvent) (r : Runner (recorded D))
    → Idle r.pins
    → Ends
        (λ r'.
          (length r'.dut.1 ≤ length r.dut.1 + 129)
          × (handed r'.dut.1 ≡ handed r.dut.1 ++ strobe_of event ∷ []))
        (λ r'.
          (length r'.dut.1 ≤ length r.dut.1 + 129)
          × Began (handed r.dut.1) (strobe_of event ∷ []) (handed r'.dut.1))
        (process_event (recorded D) event r)
process_event_lem D event r idle = subst (Ends Whole Some) (sym (process_event-and_run D event r)) (
    Ends-then Waiting Whole Some (wait_until_ready (recorded D) r) _
      (Ends-map Waiting Waiting Waiting Some (wait_until_ready (recorded D) r) (λ r' e. e)
        (λ r' e.
          (omega (arith, e.1), ([], strobe_of event ∷ [], refl, e.0.1 ∙ sym (append-nil given))))
        (Ends-both (Done D given) (Edges D (length r.dut.1 + 64)) (Done D given)
          (Edges D (length r.dut.1 + 64)) (wait_until_ready (recorded D) r)
          (wait-Done D given r (idle, refl)) (wait_until_ready-Edges D r)))
      (λ w e. submitted w (submit-Spent D event (length r.dut.1 + 64) given w e.0.0 (e.1, e.0.1))))
  where
    given : List Strobe
    given = handed r.dut.1

    Waiting : Runner (recorded D) → Type 0
    Waiting w = Done D given w × Edges D (length r.dut.1 + 64) w

    Whole : Runner (recorded D) → Type 0
    Whole r' =
        (length r'.dut.1 ≤ length r.dut.1 + 129) × (handed r'.dut.1 ≡ given ++ strobe_of event ∷ [])

    Some : Runner (recorded D) → Type 0
    Some r' =
        (length r'.dut.1 ≤ length r.dut.1 + 129)
        × Began given (strobe_of event ∷ []) (handed r'.dut.1)

    submitted :
        (w : Runner (recorded D))
        → Idle (submit (recorded D) event w).pins
          × Spent D
              (suc (length r.dut.1 + 64))
              (given ++ strobe_of event ∷ [])
              (submit (recorded D) event w)
        → Ends Whole Some (await_done (recorded D) cycle_limit (submit (recorded D) event w))
    submitted w e =
        Ends-map (Spent D (suc (length r.dut.1 + 64) + 64) (given ++ strobe_of event ∷ [])) Whole
          (Spent D (suc (length r.dut.1 + 64) + 64) (given ++ strobe_of event ∷ [])) Some
          (await_done (recorded D) cycle_limit (submit (recorded D) event w))
          (λ r' s. (omega (arith, s.0), s.1))
          (λ r' s. (omega (arith, s.0), (strobe_of event ∷ [], [], refl, s.1)))
          (await_done-Spent D 64 (suc (length r.dut.1 + 64)) (given ++ strobe_of event ∷ [])
            (submit (recorded D) event w) e.0 e.1)
