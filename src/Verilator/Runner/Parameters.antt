-- ===== src/Verilator/Runner/Parameters.antt =====
-- `write_model_parameters` of src/verilator/verilator_runner.cpp.
use adaptive_fpga.Prelude.{
  ℕ, zero, suc, ◌+◌, Bool, true, false, ◌&&◌, Option, none, some, ◌==◌, ltb, if◌then◌else◌, get_or,
}
use adaptive_fpga.Prelude.Int.{ℤ, pos}
use adaptive_fpga.Prelude.Words.{add_u64}
use adaptive_fpga.Event.{ModelParameters}
use adaptive_fpga.Verilator.Runner.{Pins, Dut, RtlSnapshot, commit_not_active}
use adaptive_fpga.Verilator.Runner.Drive.{
  Runner, RunnerOutcome, finished, failed, and_run, ports_of, set_pins, tick, wait_until_ready,
  capture,
}

unfoldable pub parameter_word : ModelParameters → ℕ → ℤ
parameter_word parameters index =
    if ltb index 8
    then get_or parameters.weights index (pos 0)
    else if index == 8
    then parameters.buy_threshold
    else parameters.sell_threshold

unfoldable pub is_committed : ℕ → ℕ → Option RtlSnapshot → Bool
is_committed version previous none = false
is_committed version previous (some latest) =
    latest.signal.model_version == version && latest.update_count == add_u64 previous 1

module _ (D : Dut) where
  -- One clock with the pins given and one with them quiet again.
  unfoldable pub pulse : Pins → Pins → Runner D → Runner D
  unfolding set_pins tick
  pulse high low r = tick D (set_pins D low (tick D (set_pins D high r)))

  unfoldable pub write_word : ModelParameters → ℕ → Runner D → Runner D
  unfolding pulse parameter_word
  write_word parameters index r =
      pulse (record word { param_write_valid = true }) (record word { param_write_valid = false }) r
    where
      word : Pins
      word = record r.pins {
        param_write_index = index;
        param_write_value = parameter_word parameters index;
        param_write_model_version = parameters.model_version;
      }

  -- The loop over the words, for so many from an index on.
  unfoldable pub write_words : ModelParameters → ℕ → ℕ → Runner D → RunnerOutcome D
  unfolding wait_until_ready write_word
  write_words parameters zero index r = finished r
  write_words parameters (suc count) index r =
      and_run D (wait_until_ready D r)
        (λ w. write_words parameters count (index + 1) (write_word parameters index w))

  unfoldable pub commit_parameters : Runner D → Runner D
  unfolding pulse
  commit_parameters r =
      pulse (record r.pins { param_commit = true }) (record r.pins { param_commit = false }) r

  unfoldable pub verify_commit : ModelParameters → ℕ → Runner D → RunnerOutcome D
  unfolding is_committed
  verify_commit parameters previous r =
      if is_committed parameters.model_version previous r.latest
      then finished r
      else failed commit_not_active r

  unfoldable pub write_model_parameters : ModelParameters → Runner D → RunnerOutcome D
  unfolding write_words wait_until_ready commit_parameters capture verify_commit
  write_model_parameters parameters r = and_run D (write_words parameters 10 0 r) (λ w.
      and_run D (wait_until_ready D w) (λ ready.
        and_run D (capture D (commit_parameters ready))
          (λ c. verify_commit parameters (ports_of D r).update_count c)))
