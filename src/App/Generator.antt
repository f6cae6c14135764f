-- ===== src/App/Generator.antt =====
-- The events of `generate_market_csv` of src/app/market_data_generator.cpp. The outputs of the random
-- engine are a parameter; a `std::map` of levels is the list of its entries in the order of their prices,
-- which are all positive. Writing the file and the progress callback are left out.
pub mod Valid
pub mod Stream
mod Tests
use adaptive_fpga.Prelude.{
  ℕ, zero, suc, ◌+◌, ◌-◌, ◌*◌, ◌%◌, min, Bool, true, false, List, [], ◌∷◌, ltb, leb, ◌==◌,
  if◌then◌else◌, length, get_or, set,
}
use adaptive_fpga.Prelude.Int.{pos}
use adaptive_fpga.Event.{MarketEvent, EventType, add, update, cancel, trade, Side, bid, ask}

pub record BookLevel : Type 0 where
  pub price : ℕ
  pub quantity : ℕ

-- The maps of both sides, and how many outputs the engine has given.
pub record Generator : Type 0 where
  pub bids : List BookLevel
  pub asks : List BookLevel
  pub drawn : ℕ

abbrev pub no_levels : Generator
no_levels = record { bids = []; asks = []; drawn = 0 }

abbrev pub no_level : BookLevel
no_level = record { price = 0; quantity = 0 }

-- The type for a draw from 0 to 99.
unfoldable pub type_of_choice : ℕ → EventType
type_of_choice choice =
    if ltb choice 45
    then add
    else if ltb choice 60
    then update
    else if ltb choice 80
    then cancel
    else trade

unfoldable pub saturated_quantity : ℕ → ℕ → ℕ
saturated_quantity old quantity = min (old + quantity) 4_294_967_295

-- `levels[price]` is added to, from zero where it is missing.
unfoldable pub add_quantity : ℕ → ℕ → List BookLevel → List BookLevel
unfolding saturated_quantity
add_quantity price quantity [] =
    record { price = price; quantity = saturated_quantity 0 quantity } ∷ []
add_quantity price quantity (level ∷ levels) =
    let rest = add_quantity price quantity levels in
    if level.price == price
    then record { price = level.price; quantity = saturated_quantity level.quantity quantity }
      ∷ levels
    else if ltb price level.price
    then record { price = price; quantity = saturated_quantity 0 quantity } ∷ level ∷ levels
    else level ∷ rest

unfoldable pub erase : ℕ → List BookLevel → List BookLevel
erase index [] = []
erase zero (level ∷ levels) = levels
erase (suc index) (level ∷ levels) = level ∷ erase index levels

unfoldable pub side_of : Bool → Side
side_of true = bid
side_of false = ask

unfoldable pub set_quantity : ℕ → BookLevel → ℕ → List BookLevel → List BookLevel
set_quantity index selected quantity levels =
    set levels index (record selected { quantity = quantity })

unfoldable pub event_of : ℕ → EventType → Bool → ℕ → ℕ → MarketEvent
unfolding side_of
event_of index type is_bid price quantity = record {
  timestamp_ns = 1_000 + index * 10;
  type = type;
  side = side_of is_bid;
  price_ticks = pos price;
  quantity = quantity;
}

module _ (random : ℕ → ℕ) where
  -- `uniform`, on the output number `drawn`.
  unfoldable pub uniform : ℕ → ℕ → ℕ → ℕ
  uniform low high drawn = low + random drawn % (high - low + 1)

  unfoldable pub add_price : Bool → ℕ → ℕ
  unfolding uniform
  add_price true drawn = uniform 9_991 10_000 drawn
  add_price false drawn = uniform 10_002 10_011 drawn

  unfoldable pub generate_add : ℕ → Bool → ℕ → List BookLevel → MarketEvent × List BookLevel × ℕ
  unfolding add_price uniform add_quantity event_of
  generate_add index is_bid drawn levels =
      let price = add_price is_bid drawn in
      let quantity = uniform 1 1_000 (drawn + 1) in
      (event_of index add is_bid price quantity, add_quantity price quantity levels, drawn + 2)

  unfoldable pub generate_update :
      ℕ → Bool → ℕ → ℕ → BookLevel → List BookLevel → MarketEvent × List BookLevel × ℕ
  unfolding uniform event_of erase set_quantity
  generate_update index is_bid drawn position selected levels =
      let quantity = uniform 0 1_000 drawn in
      (
        event_of index update is_bid selected.price quantity,
        if quantity == 0
            then erase position levels
            else set_quantity position selected quantity levels,
        drawn + 1,
      )

  -- A Cancel or a Trade; the quantity is narrowed to 32 bits.
  unfoldable pub generate_removal :
      ℕ → EventType → Bool → ℕ → ℕ → BookLevel → List BookLevel → MarketEvent × List BookLevel × ℕ
  unfolding uniform event_of erase set_quantity
  generate_removal index type is_bid drawn position selected levels =
      let quantity = uniform 1 (selected.quantity + 500) drawn % 4_294_967_296 in
      (
        event_of index type is_bid selected.price quantity,
        if leb selected.quantity quantity
            then erase position levels
            else set_quantity position selected (selected.quantity - quantity) levels,
        drawn + 1,
      )

  unfoldable pub generate_change :
      ℕ → EventType → Bool → ℕ → ℕ → BookLevel → List BookLevel → MarketEvent × List BookLevel × ℕ
  unfolding generate_update generate_removal
  generate_change index update is_bid drawn position selected levels =
      generate_update index is_bid drawn position selected levels
  generate_change index type is_bid drawn position selected levels =
      generate_removal index type is_bid drawn position selected levels

  unfoldable pub generate_typed :
      ℕ → EventType → Bool → ℕ → List BookLevel → MarketEvent × List BookLevel × ℕ
  unfolding generate_add generate_change uniform
  generate_typed index add is_bid drawn levels = generate_add index is_bid drawn levels
  generate_typed index type is_bid drawn levels =
      let position = uniform 0 (length levels - 1) drawn in
      generate_change index type is_bid (drawn + 1) position (get_or levels position no_level)
        levels

  -- An event on one side, whose type is drawn unless the side is empty.
  unfoldable pub generate_on : ℕ → Bool → ℕ → List BookLevel → MarketEvent × List BookLevel × ℕ
  unfolding generate_add generate_typed type_of_choice uniform
  generate_on index is_bid drawn [] = generate_add index is_bid drawn []
  generate_on index is_bid drawn (level ∷ levels) =
      generate_typed index (type_of_choice (uniform 0 99 drawn)) is_bid (drawn + 1) (level ∷ levels)

  unfoldable pub put_side :
      Bool → Generator → MarketEvent × List BookLevel × ℕ → MarketEvent × Generator
  put_side true g r = (r.0, record g { bids = r.1; drawn = r.2 })
  put_side false g r = (r.0, record g { asks = r.1; drawn = r.2 })

  unfoldable pub levels_of : Bool → Generator → List BookLevel
  levels_of true g = g.bids
  levels_of false g = g.asks

  -- The body of the loop.
  unfoldable pub generate_event : ℕ → Generator → MarketEvent × Generator
  unfolding uniform generate_on put_side levels_of
  generate_event index g =
      let is_bid = uniform 0 1 g.drawn == 0 in
      put_side is_bid g (generate_on index is_bid (g.drawn + 1) (levels_of is_bid g))

  -- The loop over so many events, from an index on.
  unfoldable pub generate_events : ℕ → ℕ → Generator → List MarketEvent
  unfolding generate_event
  generate_events zero index g = []
  generate_events (suc count) index g =
      let rest = generate_events count (index + 1) (generate_event index g).1 in
      (generate_event index g).0 ∷ rest
