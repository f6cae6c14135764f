-- ===== src/App/Generator/Tests.antt =====
-- A stream of five events.
use adaptive_fpga.Prelude.{ℕ, ◌*◌, ◌+◌, ◌≡◌, refl, arith, All, length}
use adaptive_fpga.App.Generator.{no_levels, generate_events}
use adaptive_fpga.App.Generator.Stream.{OnItsSide, generate_events_lem}

abbrev engine : ℕ → ℕ
engine n = n * n * 37 + 11

five : length (generate_events engine 5 0 no_levels) ≡ 5
unfolding generate_events
five = refl

generate_events_lem_example : All OnItsSide (generate_events engine 5 0 no_levels)
generate_events_lem_example = generate_events_lem engine 5 (omega arith)
