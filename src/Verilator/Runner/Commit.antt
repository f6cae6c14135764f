-- ===== src/Verilator/Runner/Commit.antt =====
-- The whole of `write_model_parameters` of src/verilator/verilator_runner.cpp, from the words to the commit.
use mathlib.Core.Path.{subst}
use mathlib.Core.List.{append_assoc, append-nil}
use adaptive_fpga.Prelude.{
  ℕ, ◌≡◌, refl, sym, ◌∙◌, ap, Bool, true, false, List, [], ◌∷◌, ◌++◌, Option, none, some,
  if◌then◌else◌, get_or,
}
use adaptive_fpga.Event.{ModelParameters}
use adaptive_fpga.Verilator.Runner.{Pins, Dut, RtlSnapshot, read_snapshot, commit_not_active, pos}
use adaptive_fpga.Verilator.Runner.Drive.{
  Runner, RunnerOutcome, finished, failed, and_run, ports_of, wait_until_ready, capture,
  store_latest,
}
use adaptive_fpga.Verilator.Runner.Parameters.{
  write_words, commit_parameters, verify_commit, is_committed, write_model_parameters,
  parameter_word,
}
use adaptive_fpga.Verilator.Runner.Strobes.{
  Strobe, commit_strobe, strobes_of, handed, recorded, Ends, Ends-then, Ends-map, word_strobe,
}
use adaptive_fpga.Verilator.Runner.Words.{
  words_from, Idle, Idle-Quiet, Began, Done, pulse-At, wait-Done, Partly, write_words-Done,
}

-- The whole upload: the eight weights by their positions, the buy threshold, the sell threshold, and the
-- commit.
abbrev pub weight_strobe : ModelParameters → ℕ → Strobe
weight_strobe parameters i =
    word_strobe i (get_or parameters.weights i (pos 0)) parameters.model_version

abbrev pub upload : ModelParameters → List Strobe
upload parameters =
    weight_strobe parameters 0
    ∷ weight_strobe parameters 1
    ∷ weight_strobe parameters 2
    ∷ weight_strobe parameters 3
    ∷ weight_strobe parameters 4
    ∷ weight_strobe parameters 5
    ∷ weight_strobe parameters 6
    ∷ weight_strobe parameters 7
    ∷ word_strobe 8 parameters.buy_threshold parameters.model_version
    ∷ word_strobe 9 parameters.sell_threshold parameters.model_version
    ∷ commit_strobe
    ∷ []

upload_words :
    (parameters : ModelParameters)
    → words_from parameters 10 0 ++ commit_strobe ∷ [] ≡ upload parameters
unfolding parameter_word
upload_words parameters = refl

module _ (D : Dut) where
  commit_parameters-handed :
      (given : List Strobe) (r : Runner (recorded D))
      → Done D given r
      → handed (commit_parameters (recorded D) r).dut.1 ≡ given ++ commit_strobe ∷ []
  unfolding commit_parameters
  commit_parameters-handed given r done =
      (pulse-At D high low given r (Idle-Quiet low (done.0.0, done.0.1, refl)) done.1).1
      ∙ ap (λ l. given ++ l) only
    where
      high : Pins
      high = record r.pins { param_commit = true }

      low : Pins
      low = record r.pins { param_commit = false }

      only : strobes_of high ≡ commit_strobe ∷ []
      only = rw (done.0.0, done.0.1) refl

  -- What was handed over, and no more.
  abbrev Given : List Strobe → Runner (recorded D) → Type 0
  Given given r = handed r.dut.1 ≡ given

  capture-Given :
      (given : List Strobe) (r : Runner (recorded D))
      → Given given r
      → Ends (Given given) (Given given) (capture (recorded D) r)
  unfolding capture
  capture-Given given r h = stored (read_snapshot (D.ports r.dut.0))
    where
      stored :
          (s : Option RtlSnapshot)
          → Ends (Given given) (Given given) (store_latest (recorded D) s r)
      stored none = unfold store_latest in h
      stored (some snapshot) = unfold store_latest in h

  verify_commit-Given :
      (parameters : ModelParameters) (previous : ℕ) (given : List Strobe) (r : Runner (recorded D))
      → Given given r
      → Ends (Given given) (Given given) (verify_commit (recorded D) parameters previous r)
  unfolding verify_commit
  verify_commit-Given parameters previous given r h =
      either (is_committed parameters.model_version previous r.latest)
    where
      either :
          (active : Bool)
          → Ends
              (Given given)
              (Given given)
              (if active then finished r else failed commit_not_active r)
      either true = h
      either false = h

  -- The part after the words.
  finish : ModelParameters → ℕ → Runner (recorded D) → RunnerOutcome (recorded D)
  finish parameters previous w = and_run (recorded D) (wait_until_ready (recorded D) w) (λ ready.
      and_run (recorded D) (capture (recorded D) (commit_parameters (recorded D) ready))
        (λ c. verify_commit (recorded D) parameters previous c))

  finish-Given :
      (parameters : ModelParameters) (previous : ℕ) (given : List Strobe) (r : Runner (recorded D))
      → Done D given r
      → Ends
          (Given (given ++ commit_strobe ∷ []))
          (λ r'. Began given (commit_strobe ∷ []) (handed r'.dut.1))
          (finish parameters previous r)
  unfolding finish
  finish-Given parameters previous given r done =
      Ends-then (Done D given) (Given whole) Some (wait_until_ready (recorded D) r) _
        (Ends-map (Done D given) (Done D given) (Done D given) Some
          (wait_until_ready (recorded D) r) (λ r' e. e)
          (λ r' e. ([], commit_strobe ∷ [], refl, e.1 ∙ sym (append-nil given)))
          (wait-Done D given r done))
        (λ ready d.
          Ends-then (Given whole) (Given whole) Some
            (capture (recorded D) (commit_parameters (recorded D) ready)) _
            (Ends-map (Given whole) (Given whole) (Given whole) Some
              (capture (recorded D) (commit_parameters (recorded D) ready)) (λ r' e. e) full
              (capture-Given whole (commit_parameters (recorded D) ready)
                (commit_parameters-handed given ready d)))
            (λ c e.
              Ends-map (Given whole) (Given whole) (Given whole) Some
                (verify_commit (recorded D) parameters previous c) (λ r' e'. e') full
                (verify_commit-Given parameters previous whole c e)))
    where
      whole : List Strobe
      whole = given ++ commit_strobe ∷ []

      Some : Runner (recorded D) → Type 0
      Some r' = Began given (commit_strobe ∷ []) (handed r'.dut.1)

      full : (r' : Runner (recorded D)) → Given whole r' → Some r'
      full r' e = (commit_strobe ∷ [], [], refl, e)

  write_model_parameters-finish :
      (parameters : ModelParameters) (r : Runner (recorded D))
      → write_model_parameters (recorded D) parameters r
        ≡ and_run
            (recorded D)
            (write_words (recorded D) parameters 10 0 r)
            (finish parameters (ports_of (recorded D) r).update_count)
  unfolding write_model_parameters finish
  write_model_parameters-finish parameters r = refl

abbrev words_then_commit : ModelParameters → List Strobe
words_then_commit parameters = words_from parameters 10 0 ++ commit_strobe ∷ []

write_model_parameters-words :
    (D : Dut) (parameters : ModelParameters) (r : Runner (recorded D))
    → Idle r.pins
    → Ends
        (λ r'. handed r'.dut.1 ≡ handed r.dut.1 ++ words_then_commit parameters)
        (λ r'. Began (handed r.dut.1) (words_then_commit parameters) (handed r'.dut.1))
        (write_model_parameters (recorded D) parameters r)
write_model_parameters-words D parameters r idle =
    subst (Ends Whole Some) (sym (write_model_parameters-finish D parameters r)) (
      Ends-then (Done D (given ++ words_from parameters 10 0)) Whole Some
        (write_words (recorded D) parameters 10 0 r) _
        (Ends-map (Done D (given ++ words_from parameters 10 0))
          (Done D (given ++ words_from parameters 10 0)) (Partly D parameters 10 0 given) Some
          (write_words (recorded D) parameters 10 0 r) (λ r' e. e) part
          (write_words-Done D parameters 10 0 given r (idle, refl)))
        (λ w d.
          Ends-map (Given D ((given ++ words_from parameters 10 0) ++ commit_strobe ∷ [])) Whole
            (λ r'.
              Began (given ++ words_from parameters 10 0) (commit_strobe ∷ []) (handed r'.dut.1))
            Some (finish D parameters (ports_of (recorded D) r).update_count w)
            (λ r' e. e ∙ append_assoc given (words_from parameters 10 0) _) rest
            (finish-Given D parameters (ports_of (recorded D) r).update_count
              (given ++ words_from parameters 10 0) w d)))
  where
    given : List Strobe
    given = handed r.dut.1

    Whole : Runner (recorded D) → Type 0
    Whole r' = handed r'.dut.1 ≡ given ++ words_then_commit parameters

    Some : Runner (recorded D) → Type 0
    Some r' = Began given (words_then_commit parameters) (handed r'.dut.1)

    part : (r' : Runner (recorded D)) → Partly D parameters 10 0 given r' → Some r'
    part r' (sent, more, whole, now) = (
      sent,
      more ++ commit_strobe ∷ [],
      sym (append_assoc sent more (commit_strobe ∷ [])) ∙ ap (λ l. l ++ commit_strobe ∷ []) whole,
      now,
    )

    rest :
        (r' : Runner (recorded D))
        → Began (given ++ words_from parameters 10 0) (commit_strobe ∷ []) (handed r'.dut.1)
        → Some r'
    rest r' (sent, more, whole, now) = (
      words_from parameters 10 0 ++ sent,
      more,
      append_assoc (words_from parameters 10 0) sent more
          ∙ ap (λ l. words_from parameters 10 0 ++ l) whole,
      now ∙ append_assoc given (words_from parameters 10 0) sent,
    )

-- From idle pins, an upload hands the RTL its ten parameter words, with indices 0 to 9 in this order, each
-- once and with the model's version, and after them exactly one commit, with no event between; an upload that
-- throws has handed over a beginning of this sequence.
pub write_model_parameters_lem :
    (D : Dut) (parameters : ModelParameters) (r : Runner (recorded D))
    → Idle r.pins
    → Ends
        (λ r'. handed r'.dut.1 ≡ handed r.dut.1 ++ upload parameters)
        (λ r'. Began (handed r.dut.1) (upload parameters) (handed r'.dut.1))
        (write_model_parameters (recorded D) parameters r)
write_model_parameters_lem D parameters r idle =
    subst
      (λ l.
        Ends (λ r'. handed r'.dut.1 ≡ handed r.dut.1 ++ l)
          (λ r'. Began (handed r.dut.1) l (handed r'.dut.1))
          (write_model_parameters (recorded D) parameters r))
      (upload_words parameters) (write_model_parameters-words D parameters r idle)
