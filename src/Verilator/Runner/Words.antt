-- ===== src/Verilator/Runner/Words.antt =====
-- `write_model_parameters` of src/verilator/verilator_runner.cpp: what reaches the parameter bank.
use mathlib.Core.Path.{subst}
use mathlib.Core.List.{append_assoc, append-nil}
use adaptive_fpga.Prelude.{
  ℕ, zero, suc, ◌+◌, ◌≡◌, refl, sym, ◌∙◌, ap, Bool, true, false, List, [], ◌∷◌, ◌++◌,
}
use adaptive_fpga.Event.{ModelParameters}
use adaptive_fpga.Verilator.Runner.{Pins, Dut}
use adaptive_fpga.Verilator.Runner.Drive.{
  Runner, RunnerOutcome, and_run, wait_until_ready, set_pins, tick,
}
use adaptive_fpga.Verilator.Runner.Parameters.{parameter_word, pulse, write_word, write_words}
use adaptive_fpga.Verilator.Runner.Strobes.{
  Strobe, word_strobe, strobes_of, handed, recorded, At, Quiet, Ends, Ends-then, tick-At,
  tick-Quiet, set_pins-At, wait_until_ready-At, Ends-map,
}

-- The ten words in their order: each index with its value and the version.
abbrev pub words_from : ModelParameters → ℕ → ℕ → List Strobe
words_from parameters zero index = []
words_from parameters (suc count) index =
    word_strobe index (parameter_word parameters index) parameters.model_version
    ∷ words_from parameters count (index + 1)

-- No event, no word and no commit are on the pins.
abbrev pub Idle : Pins → Type 0
Idle pins = (pins.in_valid ≡ false) × (pins.param_write_valid ≡ false) × (pins.param_commit ≡ false)

pub Idle-Quiet : (pins : Pins) → Idle pins → Quiet pins
Idle-Quiet pins idle = rw (idle.0, idle.1, idle.2) refl

-- `given`, and then the beginning of `sequence`.
abbrev pub Began : List Strobe → List Strobe → List Strobe → Type 0
Began given sequence now =
    (sent : List Strobe) × (rest : List Strobe) × (sent ++ rest ≡ sequence) × (now ≡ given ++ sent)

module _ (D : Dut) where
  pub pulse-At :
      (high low : Pins) (given : List Strobe) (r : Runner (recorded D))
      → Quiet low
      → handed r.dut.1 ≡ given
      → At D low (given ++ strobes_of high) (pulse (recorded D) high low r)
  unfolding pulse
  pulse-At high low given r quiet h =
      let driven : Runner (recorded D) = set_pins (recorded D) high r in
      let clocked : Runner (recorded D) = tick (recorded D) driven in
      let after = tick-At D high given driven (set_pins-At D r.pins high given r (refl, h)) in
      tick-Quiet D low (given ++ strobes_of high) (set_pins (recorded D) low clocked) quiet
        (set_pins-At D high low (given ++ strobes_of high) clocked after)

  -- The pins are idle, and so much was handed over.
  abbrev pub Done : List Strobe → Runner (recorded D) → Type 0
  Done given r = Idle r.pins × (handed r.dut.1 ≡ given)

  At-Idle :
      (pins : Pins) (given : List Strobe) (r : Runner (recorded D))
      → Idle pins
      → At D pins given r
      → Done given r
  At-Idle pins given r idle at = (subst Idle (sym at.0) idle, at.1)

  pub wait-Done :
      (given : List Strobe) (r : Runner (recorded D))
      → Done given r
      → Ends (Done given) (Done given) (wait_until_ready (recorded D) r)
  wait-Done given r done =
      Ends-map (At D r.pins given) (Done given) (At D r.pins given) (Done given)
        (wait_until_ready (recorded D) r) (λ r' at. At-Idle r.pins given r' done.0 at)
        (λ r' at. At-Idle r.pins given r' done.0 at)
        (wait_until_ready-At D r.pins given r (Idle-Quiet r.pins done.0) (refl, done.1))

  word_pins : ModelParameters → ℕ → Bool → Pins → Pins
  word_pins parameters index valid pins = record pins {
    param_write_valid = valid;
    param_write_index = index;
    param_write_value = parameter_word parameters index;
    param_write_model_version = parameters.model_version;
  }

  word_pins-strobes :
      (parameters : ModelParameters) (index : ℕ) (pins : Pins)
      → Idle pins
      → strobes_of (word_pins parameters index true pins)
        ≡ word_strobe index (parameter_word parameters index) parameters.model_version ∷ []
  unfolding word_pins
  word_pins-strobes parameters index pins idle = rw (idle.0, idle.2) refl

  word_pins-Idle :
      (parameters : ModelParameters) (index : ℕ) (pins : Pins)
      → Idle pins
      → Idle (word_pins parameters index false pins)
  unfolding word_pins
  word_pins-Idle parameters index pins idle = (idle.0, refl, idle.2)

  write_word-pulse :
      (parameters : ModelParameters) (index : ℕ) (r : Runner (recorded D))
      → write_word (recorded D) parameters index r
        ≡ pulse
            (recorded D)
            (word_pins parameters index true r.pins)
            (word_pins parameters index false r.pins)
            r
  unfolding write_word word_pins
  write_word-pulse parameters index r = refl

  write_word-Done :
      (parameters : ModelParameters) (index : ℕ) (given : List Strobe) (r : Runner (recorded D))
      → Done given r
      → Done
          (given
            ++ word_strobe index (parameter_word parameters index) parameters.model_version ∷ [])
          (write_word (recorded D) parameters index r)
  write_word-Done parameters index given r done =
      let low : Pins = word_pins parameters index false r.pins in
      let high : Pins = word_pins parameters index true r.pins in
      let idle = word_pins-Idle parameters index r.pins done.0 in
      let at = pulse-At high low given r (Idle-Quiet low idle) done.1 in
      let at' = At-Idle low (given ++ strobes_of high) (pulse (recorded D) high low r) idle at in
      subst
        (λ r'.
          Done
            (given
              ++ word_strobe index (parameter_word parameters index) parameters.model_version ∷ [])
            r')
        (sym (write_word-pulse parameters index r))
        (subst (λ l. Done (given ++ l) (pulse (recorded D) high low r))
          (word_pins-strobes parameters index r.pins done.0) at')

  write_words-suc :
      (parameters : ModelParameters) (count index : ℕ) (r : Runner (recorded D))
      → write_words (recorded D) parameters (suc count) index r
        ≡ and_run (recorded D) (wait_until_ready (recorded D) r) (λ w.
          write_words
            (recorded D)
            parameters
            count
            (index + 1)
            (write_word (recorded D) parameters index w))
  unfolding write_words
  write_words-suc parameters count index r = refl

  -- So much of the words from an index on, after what was given.
  abbrev pub Partly : ModelParameters → ℕ → ℕ → List Strobe → Runner (recorded D) → Type 0
  Partly parameters count index given r =
      Began given (words_from parameters count index) (handed r.dut.1)

  Partly-suc :
      (parameters : ModelParameters) (count index : ℕ) (given : List Strobe)
      (r : Runner (recorded D))
      → Partly parameters count
          (index + 1)
          (given
            ++ word_strobe index (parameter_word parameters index) parameters.model_version ∷ [])
          r
      → Partly parameters (suc count) index given r
  Partly-suc parameters count index given r (sent, rest, whole, now) = (
    word_strobe index (parameter_word parameters index) parameters.model_version ∷ sent,
    rest,
    ap (λ l. word_strobe index (parameter_word parameters index) parameters.model_version ∷ l)
        whole,
    now ∙ append_assoc given _ sent,
  )

  write_words-step :
      (parameters : ModelParameters) (count index : ℕ)
      → ((given : List Strobe) (r : Runner (recorded D))
          → Done given r
          → Ends
              (Done (given ++ words_from parameters count (index + 1)))
              (Partly parameters count (index + 1) given)
              (write_words (recorded D) parameters count (index + 1) r))
      → (given : List Strobe) (r : Runner (recorded D)) → Done given r
      → Ends
          (Done (given ++ words_from parameters (suc count) index))
          (Partly parameters (suc count) index given)
          (write_words (recorded D) parameters (suc count) index r)
  write_words-step parameters count index shorter given r done = later
    where
      word : Strobe
      word = word_strobe index (parameter_word parameters index) parameters.model_version

      next : Runner (recorded D) → RunnerOutcome (recorded D)
      next w =
          write_words (recorded D) parameters count (index + 1)
            (write_word (recorded D) parameters index w)

      after :
          (w : Runner (recorded D))
          → Done given w
          → Ends
              (Done (given ++ words_from parameters (suc count) index))
              (Partly parameters (suc count) index given)
              (next w)
      after w d =
          Ends-map (Done ((given ++ word ∷ []) ++ words_from parameters count (index + 1)))
            (Done (given ++ words_from parameters (suc count) index))
            (Partly parameters count (index + 1) (given ++ word ∷ []))
            (Partly parameters (suc count) index given) (next w)
            (λ r' e. (e.0, e.1 ∙ append_assoc given (word ∷ []) _))
            (λ r' e. Partly-suc parameters count index given r' e)
            (shorter (given ++ word ∷ []) (write_word (recorded D) parameters index w)
              (write_word-Done parameters index given w d))

      waited :
          Ends
            (Done given)
            (Partly parameters (suc count) index given)
            (wait_until_ready (recorded D) r)
      waited =
          Ends-map (Done given) (Done given) (Done given)
            (Partly parameters (suc count) index given) (wait_until_ready (recorded D) r)
            (λ r' e. e)
            (λ r' e.
              ([], words_from parameters (suc count) index, refl, e.1 ∙ sym (append-nil given)))
            (wait-Done given r done)

      later :
          Ends
            (Done (given ++ words_from parameters (suc count) index))
            (Partly parameters (suc count) index given)
            (write_words (recorded D) parameters (suc count) index r)
      later =
          subst
            (Ends (Done (given ++ words_from parameters (suc count) index))
              (Partly parameters (suc count) index given))
            (sym (write_words-suc parameters count index r))
            (Ends-then (Done given) (Done (given ++ words_from parameters (suc count) index))
              (Partly parameters (suc count) index given) (wait_until_ready (recorded D) r) next
              waited after)

  pub write_words-Done :
      (parameters : ModelParameters) (count index : ℕ) (given : List Strobe)
      (r : Runner (recorded D))
      → Done given r
      → Ends
          (Done (given ++ words_from parameters count index))
          (Partly parameters count index given)
          (write_words (recorded D) parameters count index r)
  write_words-Done parameters zero index given r done =
      unfold write_words in (done.0, done.1 ∙ sym (append-nil given))
  write_words-Done parameters (suc count) index given r done =
      write_words-step parameters count index (write_words-Done parameters count (index + 1)) given
        r done
