-- ===== src/App/Generator/Stream.antt =====
-- The stream of src/app/market_data_generator.cpp.
use adaptive_fpga.Prelude.{
  ℕ, zero, suc, ◌+◌, ◌-◌, ◌*◌, ◌≤◌, ◌<◌, ◌≡◌, refl, arith, Bool, true, false, List, [], ◌∷◌, All,
  ◌==◌, ltb, if◌then◌else◌, length, get_or,
}
use adaptive_fpga.Event.{
  MarketEvent, EventType, add, update, cancel, trade, unknown_type, valid_type,
}
use adaptive_fpga.App.Generator.{
  BookLevel, Generator, no_levels, no_level, type_of_choice, uniform, generate_change,
  generate_typed, generate_on, put_side, levels_of, generate_event, generate_events,
}
use adaptive_fpga.App.Generator.Valid.{
  IsLevel, IsGenerated, Good, uniform_bounds, All-get_or, generate_add-Good, generate_update-Good,
  generate_removal-Good, raise,
}

-- A valid event on its own side of the spread.
abbrev pub OnItsSide : MarketEvent → Type 0
OnItsSide event = (is_bid : Bool) × IsGenerated is_bid event

type_of_choice_known : (choice : ℕ) → valid_type (type_of_choice choice) ≡ true
unfolding type_of_choice
type_of_choice_known choice = either (ltb choice 45) (ltb choice 60) (ltb choice 80)
  where
    either :
        (a b c : Bool)
        → valid_type (if a then add else if b then update else if c then cancel else trade) ≡ true
    either true b c = unfold valid_type in refl
    either false true c = unfold valid_type in refl
    either false false true = unfold valid_type in refl
    either false false false = unfold valid_type in refl

-- Both sides' levels, of at most so much.
abbrev Levels : ℕ → Generator → Type 0
Levels most g = All (IsLevel true most) g.bids × All (IsLevel false most) g.asks

module _ (random : ℕ → ℕ) where
  generate_change-Good :
      (index : ℕ) (type : EventType) (is_bid : Bool) (drawn position most : ℕ)
      (selected : BookLevel) (levels : List BookLevel)
      → valid_type type ≡ true
      → most + 500 < 4_294_967_296
      → IsLevel is_bid most selected
      → All (IsLevel is_bid most) levels
      → Good is_bid
          (most + 1_000)
          (generate_change random index type is_bid drawn position selected levels)
  unfolding generate_change
  generate_change-Good index update is_bid drawn position most selected levels known small s h =
      generate_update-Good random index is_bid drawn position most selected levels s h
  generate_change-Good index add is_bid drawn position most selected levels known small s h =
      generate_removal-Good random index add is_bid drawn position most selected levels known small
        s h
  generate_change-Good index cancel is_bid drawn position most selected levels known small s h =
      generate_removal-Good random index cancel is_bid drawn position most selected levels known
        small s h
  generate_change-Good index trade is_bid drawn position most selected levels known small s h =
      generate_removal-Good random index trade is_bid drawn position most selected levels known
        small s h
  generate_change-Good index (unknown_type n) is_bid drawn position most selected levels known small
        s h =
      generate_removal-Good random index (unknown_type n) is_bid drawn position most selected levels
        known small s h

  selected-IsLevel :
      (is_bid : Bool) (drawn most : ℕ) (level : BookLevel) (levels : List BookLevel)
      → All (IsLevel is_bid most) (level ∷ levels)
      → IsLevel is_bid most
          (get_or (level ∷ levels) (uniform random 0 (length (level ∷ levels) - 1) drawn) no_level)
  selected-IsLevel is_bid drawn most level levels h =
      All-get_or (IsLevel is_bid most) (level ∷ levels) _ no_level
        (omega
          (arith, (uniform_bounds random 0 (length (level ∷ levels) - 1) drawn (omega arith)).1))
        h

  generate_typed-Good :
      (index : ℕ) (type : EventType) (is_bid : Bool) (drawn most : ℕ) (level : BookLevel)
      (levels : List BookLevel)
      → valid_type type ≡ true
      → most + 500 < 4_294_967_296
      → All (IsLevel is_bid most) (level ∷ levels)
      → Good is_bid (most + 1_000) (generate_typed random index type is_bid drawn (level ∷ levels))
  unfolding generate_typed
  generate_typed-Good index add is_bid drawn most level levels known small h =
      generate_add-Good random index is_bid drawn most (level ∷ levels) h
  generate_typed-Good index update is_bid drawn most level levels known small h =
      generate_change-Good index update is_bid (drawn + 1) _ most _ (level ∷ levels) known small
        (selected-IsLevel is_bid drawn most level levels h) h
  generate_typed-Good index cancel is_bid drawn most level levels known small h =
      generate_change-Good index cancel is_bid (drawn + 1) _ most _ (level ∷ levels) known small
        (selected-IsLevel is_bid drawn most level levels h) h
  generate_typed-Good index trade is_bid drawn most level levels known small h =
      generate_change-Good index trade is_bid (drawn + 1) _ most _ (level ∷ levels) known small
        (selected-IsLevel is_bid drawn most level levels h) h
  generate_typed-Good index (unknown_type n) is_bid drawn most level levels known small h =
      generate_change-Good index (unknown_type n) is_bid (drawn + 1) _ most _ (level ∷ levels) known
        small (selected-IsLevel is_bid drawn most level levels h) h

  generate_on-Good :
      (index : ℕ) (is_bid : Bool) (drawn most : ℕ) (levels : List BookLevel)
      → most + 500 < 4_294_967_296
      → All (IsLevel is_bid most) levels
      → Good is_bid (most + 1_000) (generate_on random index is_bid drawn levels)
  unfolding generate_on
  generate_on-Good index is_bid drawn most [] small h =
      generate_add-Good random index is_bid drawn most [] h
  generate_on-Good index is_bid drawn most (level ∷ levels) small h =
      generate_typed-Good index (type_of_choice (uniform random 0 99 drawn)) is_bid (drawn + 1) most
        level levels (type_of_choice_known (uniform random 0 99 drawn)) small h

  put_side-Levels :
      (is_bid : Bool) (most : ℕ) (g : Generator) (r : MarketEvent × List BookLevel × ℕ)
      → Levels most g
      → Good is_bid (most + 1_000) r
      → OnItsSide (put_side random is_bid g r).0
        × Levels (most + 1_000) (put_side random is_bid g r).1
  unfolding put_side
  put_side-Levels true most g r h good =
      ((true, good.0), (good.1, raise false most (most + 1_000) g.asks (omega arith) h.1))
  put_side-Levels false most g r h good =
      ((false, good.0), (raise true most (most + 1_000) g.bids (omega arith) h.0, good.1))

  levels_of-IsLevel :
      (is_bid : Bool) (most : ℕ) (g : Generator)
      → Levels most g
      → All (IsLevel is_bid most) (levels_of random is_bid g)
  unfolding levels_of
  levels_of-IsLevel true most g h = h.0
  levels_of-IsLevel false most g h = h.1

  generate_event-Levels :
      (index most : ℕ) (g : Generator)
      → most + 500 < 4_294_967_296
      → Levels most g
      → OnItsSide (generate_event random index g).0
        × Levels (most + 1_000) (generate_event random index g).1
  unfolding generate_event
  generate_event-Levels index most g small h =
      let is_bid = uniform random 0 1 g.drawn == 0 in
      put_side-Levels is_bid most g _ h (
        generate_on-Good index is_bid (g.drawn + 1) most (levels_of random is_bid g) small
          (levels_of-IsLevel is_bid most g h))

  generate_events-OnItsSide :
      (count index most : ℕ) (g : Generator)
      → most + 1_000 * count < 4_294_966_000
      → Levels most g
      → All OnItsSide (generate_events random count index g)
  unfolding generate_events
  generate_events-OnItsSide zero index most g small h = tt
  generate_events-OnItsSide (suc count) index most g small h =
      let e = generate_event-Levels index most g (omega (arith, small)) h in
      (
        e.0,
        generate_events-OnItsSide count (index + 1) (most + 1_000) (generate_event random index g).1
            (omega (arith, small)) e.1,
      )

-- Whatever the random engine gives, each event of a generated stream of at most 4,294,965 events is valid, and is a
-- bid at 9991 to 10000 or an ask at 10002 to 10011, so that bids and asks never meet.
pub generate_events_lem :
    (random : ℕ → ℕ) (count : ℕ)
    → count ≤ 4_294_965
    → All OnItsSide (generate_events random count 0 no_levels)
generate_events_lem random count few =
    generate_events-OnItsSide random count 0 0 no_levels (omega (arith, few)) (tt, tt)
