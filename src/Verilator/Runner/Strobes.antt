-- ===== src/Verilator/Runner/Strobes.antt =====
-- What the runner of src/verilator/verilator_runner.cpp puts on the pins: the model is run with a record of
-- the pins at each rising edge.
use mathlib.Core.List.{append-nil}
use adaptive_fpga.Prelude.{
  ℕ, zero, suc, ◌≡◌, refl, ◌∙◌, ap, Bool, true, false, List, [], ◌∷◌, ◌++◌, if◌then◌else◌, ap₂,
}
use adaptive_fpga.Prelude.Int.{ℤ}
use adaptive_fpga.Verilator.Runner.{Pins, Dut, cycle_limit, not_ready}
use adaptive_fpga.Verilator.Runner.Drive.{
  Runner, RunnerOutcome, finished, failed, and_run, tick, set_pins, wait_cycles, require_ready,
  wait_until_ready,
}

-- What a rising edge hands over to the model.
pub data Strobe : Type 0 where
  event_strobe : ℕ → ℕ → ℕ → ℕ → ℕ → Strobe
  word_strobe : ℕ → ℤ → ℕ → Strobe
  commit_strobe : Strobe

abbrev pub one_if : Bool → Strobe → List Strobe
one_if true s = s ∷ []
one_if false s = []

abbrev pub strobes_of : Pins → List Strobe
strobes_of pins =
    one_if pins.in_valid
      (event_strobe pins.timestamp_ns pins.event_type pins.side pins.price_ticks pins.quantity)
    ++ one_if pins.param_write_valid
        (word_strobe pins.param_write_index pins.param_write_value pins.param_write_model_version)
    ++ one_if pins.param_commit commit_strobe

-- The edges, the last one first, and what they handed over, in order.
abbrev pub handed : List Pins → List Strobe
handed [] = []
handed (pins ∷ edges) = handed edges ++ strobes_of pins

abbrev pub edge : Bool → Pins → List Pins → List Pins
edge true pins edges = pins ∷ edges
edge false pins edges = edges

abbrev pub recorded : Dut → Dut
recorded D = record {
  State = D.State × List Pins;
  eval = λ clk pins s. (D.eval clk pins s.0, edge clk pins s.1);
  ports = λ s. D.ports s.0;
}

-- Where the runner stands: its pins, and what was handed over so far.
abbrev pub At : (D : Dut) → Pins → List Strobe → Runner (recorded D) → Type 0
At D pins given r = (r.pins ≡ pins) × (handed r.dut.1 ≡ given)

abbrev pub Quiet : Pins → Type 0
Quiet pins = strobes_of pins ≡ []

-- What holds when an operation ends, and when it throws.
abbrev pub Ends : {D : Dut} → (Runner D → Type 0) → (Runner D → Type 0) → RunnerOutcome D → Type 0
Ends P Q (finished r) = P r
Ends P Q (failed e r) = Q r

pub Ends-then :
    {D : Dut} (P P' Q : Runner D → Type 0) (o : RunnerOutcome D) (k : Runner D → RunnerOutcome D)
    → Ends P Q o
    → ((r : Runner D) → P r → Ends P' Q (k r))
    → Ends P' Q (and_run D o k)
Ends-then P P' Q (finished r) k h next = next r h
Ends-then P P' Q (failed e r) k h next = h

pub Ends-map :
    {D : Dut} (P P' Q Q' : Runner D → Type 0) (o : RunnerOutcome D)
    → ((r : Runner D) → P r → P' r)
    → ((r : Runner D) → Q r → Q' r)
    → Ends P Q o
    → Ends P' Q' o
Ends-map P P' Q Q' (finished r) f g h = f r h
Ends-map P P' Q Q' (failed e r) f g h = g r h

module _ (D : Dut) where
  pub tick-At :
      (pins : Pins) (given : List Strobe) (r : Runner (recorded D))
      → At D pins given r
      → At D pins (given ++ strobes_of pins) (tick (recorded D) r)
  unfolding tick
  tick-At pins given r at = (at.0, ap₂ (λ g p. g ++ strobes_of p) at.1 at.0)

  pub set_pins-At :
      (pins pins' : Pins) (given : List Strobe) (r : Runner (recorded D))
      → At D pins given r
      → At D pins' given (set_pins (recorded D) pins' r)
  unfolding set_pins
  set_pins-At pins pins' given r at = (refl, at.1)

  pub tick-Quiet :
      (pins : Pins) (given : List Strobe) (r : Runner (recorded D))
      → Quiet pins
      → At D pins given r
      → At D pins given (tick (recorded D) r)
  tick-Quiet pins given r quiet at =
      let ticked = tick-At pins given r at in
      (ticked.0, ticked.1 ∙ ap (λ l. given ++ l) quiet ∙ append-nil given)

  wait_cycles-At :
      (cycles : ℕ) (pins : Pins) (given : List Strobe) (r : Runner (recorded D))
      → Quiet pins
      → At D pins given r
      → At D pins given (wait_cycles (recorded D) cycles r)
  unfolding wait_cycles
  wait_cycles-At zero pins given r quiet at = at
  wait_cycles-At (suc cycles) pins given r quiet at = either (D.ports r.dut.0).in_ready (
      wait_cycles-At cycles pins given (tick (recorded D) r) quiet
        (tick-Quiet pins given r quiet at))
    where
      either :
          (ready : Bool)
          → At D pins given (wait_cycles (recorded D) cycles (tick (recorded D) r))
          → At D pins given
              (if ready then r else wait_cycles (recorded D) cycles (tick (recorded D) r))
      either true later = at
      either false later = later

  pub wait_until_ready-At :
      (pins : Pins) (given : List Strobe) (r : Runner (recorded D))
      → Quiet pins
      → At D pins given r
      → Ends (At D pins given) (At D pins given) (wait_until_ready (recorded D) r)
  unfolding wait_until_ready require_ready
  wait_until_ready-At pins given r quiet at = either (D.ports waited.dut.0).in_ready
    where
      waited : Runner (recorded D)
      waited = wait_cycles (recorded D) cycle_limit r

      either :
          (ready : Bool)
          → Ends
              (At D pins given)
              (At D pins given)
              (if ready then finished waited else failed not_ready waited)
      either true = wait_cycles-At cycle_limit pins given r quiet at
      either false = wait_cycles-At cycle_limit pins given r quiet at
