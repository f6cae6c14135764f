-- ===== src/Verilator/Runner/Drive.antt =====
-- The operations of VerilatorRunner::Impl, each a change of the runner that ends or throws.
use adaptive_fpga.Prelude.{
  ℕ, zero, suc, Bool, true, false, ◌&&◌, Option, none, some, ◌==◌, if◌then◌else◌,
}
use adaptive_fpga.Prelude.Int.{pos}
use adaptive_fpga.Prelude.Words.{low_u32, add_u64}
use adaptive_fpga.Event.{MarketEvent}
use adaptive_fpga.Codec.{type_code, side_code}
use adaptive_fpga.Verilator.Runner.{
  Pins, Ports, Dut, RtlSnapshot, RunnerMetrics, RunnerStep, RunnerError, zero_period,
  not_ready_after_reset, not_ready, timed_out, invalid_snapshot_index, cycle_limit, read_snapshot,
}

-- `quiet` pins offer no event and write no parameter.
abbrev pub reset_pins : Pins
reset_pins = record {
  rst_n = false;
  in_valid = false;
  timestamp_ns = 0;
  event_type = 0;
  side = 0;
  price_ticks = 0;
  quantity = 0;
  result_ready = true;
  param_write_valid = false;
  param_write_index = 0;
  param_write_value = pos 0;
  param_write_model_version = 0;
  param_commit = false;
}

unfoldable pub drive_event : MarketEvent → Pins → Pins
drive_event event pins = record pins {
  timestamp_ns = event.timestamp_ns;
  event_type = type_code event.type;
  side = side_code event.side;
  price_ticks = low_u32 event.price_ticks;
  quantity = event.quantity;
}

unfoldable pub offered : Option MarketEvent → Bool → Pins → Pins
unfolding drive_event
offered (some event) true pins = record (drive_event event pins) { in_valid = true }
offered input ready pins = record pins { in_valid = false }

unfoldable pub is_offered : Option MarketEvent → Bool → Bool
is_offered (some event) ready = ready
is_offered none ready = false

module _ (D : Dut) where
  pub record Runner : Type 0 where
    pub dut : D.State
    pub pins : Pins
    pub latest : Option RtlSnapshot
    pub metrics : RunnerMetrics

  -- How an operation ends, with what it changed.
  pub data RunnerOutcome : Type 0 where
    finished : Runner → RunnerOutcome
    failed : RunnerError → Runner → RunnerOutcome

  abbrev pub and_run : RunnerOutcome → (Runner → RunnerOutcome) → RunnerOutcome
  and_run (finished r) k = k r
  and_run (failed e r) k = failed e r

  abbrev pub ports_of : Runner → Ports
  ports_of r = D.ports r.dut

  unfoldable pub set_pins : Pins → Runner → Runner
  set_pins pins r = record r { pins = pins }

  -- One clock period: the low half, then the rising edge.
  unfoldable pub tick : Runner → Runner
  tick r = record r {
    dut = D.eval true r.pins (D.eval false r.pins r.dut);
    metrics = record r.metrics { cycles = add_u64 r.metrics.cycles 1 };
  }

  -- `latest_ = read_snapshot()`, which may throw.
  unfoldable pub store_latest : Option RtlSnapshot → Runner → RunnerOutcome
  store_latest none r = failed invalid_snapshot_index r
  store_latest (some snapshot) r = finished (record r { latest = some snapshot })

  unfoldable pub capture : Runner → RunnerOutcome
  unfolding store_latest read_snapshot
  capture r = store_latest (read_snapshot (ports_of r)) r

  unfoldable pub after_reset : Runner → RunnerOutcome
  unfolding capture
  after_reset r = if (ports_of r).in_ready then capture r else failed not_ready_after_reset r

  unfoldable pub reset_rtl : Runner → RunnerOutcome
  unfolding tick set_pins after_reset
  reset_rtl r =
      let held = tick (tick (set_pins reset_pins r)) in
      after_reset (tick (set_pins (record reset_pins { rst_n = true }) held))

  -- The constructor, on a model that has not been evaluated; only the period's zero matters here.
  unfoldable pub construct_runner : ℕ → D.State → RunnerOutcome
  unfolding reset_rtl
  construct_runner clock_period_ns start =
      if clock_period_ns == 0 then failed zero_period fresh else reset_rtl fresh
    where
      fresh : Runner
      fresh = record {
        dut = start;
        pins = reset_pins;
        latest = none;
        metrics = record { cycles = 0; completed_events = 0 };
      }

  -- The loop that waits, for so many cycles at most.
  unfoldable pub wait_cycles : ℕ → Runner → Runner
  unfolding tick
  wait_cycles zero r = r
  wait_cycles (suc cycles) r =
      let waited = wait_cycles cycles (tick r) in if (ports_of r).in_ready then r else waited

  unfoldable pub require_ready : Runner → RunnerOutcome
  require_ready r = if (ports_of r).in_ready then finished r else failed not_ready r

  unfoldable pub wait_until_ready : Runner → RunnerOutcome
  unfolding wait_cycles require_ready
  wait_until_ready r = require_ready (wait_cycles cycle_limit r)

  unfoldable pub count_completed : Runner → Runner
  count_completed r = record r {
    metrics = record r.metrics { completed_events = add_u64 r.metrics.completed_events 1 };
  }

  unfoldable pub accept_result : Bool → Runner → RunnerOutcome
  unfolding count_completed capture
  accept_result true r = capture (count_completed r)
  accept_result false r = finished r

  -- Both handshakes are read before the clock.
  unfoldable pub step_clock : Option MarketEvent → Bool → Runner → RunnerStep × RunnerOutcome
  unfolding set_pins tick accept_result offered is_offered
  step_clock input accept r = (
    record {
      input_accepted = is_offered input before.in_ready;
      result_accepted = before.result_valid && accept;
    },
    accept_result (before.result_valid && accept)
        (set_pins (record driven { in_valid = false }) (tick (set_pins driven r))),
  )
    where
      before : Ports
      before = ports_of r

      driven : Pins
      driven = record (offered input before.in_ready r.pins) { result_ready = accept }

  unfoldable pub complete : Runner → RunnerOutcome
  unfolding count_completed capture
  complete r = capture (count_completed r)

  -- The loop after an event is accepted.
  unfoldable pub await_done : ℕ → Runner → RunnerOutcome
  unfolding tick complete
  await_done zero r = failed timed_out r
  await_done (suc cycles) r =
      let awaited = await_done cycles (tick r) in
      if (ports_of (tick r)).event_done then complete (tick r) else awaited

  -- One clock with `in_valid` high.
  unfoldable pub submit : MarketEvent → Runner → Runner
  unfolding set_pins tick drive_event
  submit event r =
      let driven = drive_event event r.pins in
      set_pins (record driven { in_valid = false })
        (tick (set_pins (record driven { in_valid = true }) r))

  unfoldable pub process_event : MarketEvent → Runner → RunnerOutcome
  unfolding wait_until_ready submit await_done
  process_event event r =
      and_run (wait_until_ready r) (λ w. await_done cycle_limit (submit event w))
