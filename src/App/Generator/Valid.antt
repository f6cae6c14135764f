-- ===== src/App/Generator/Valid.antt =====
-- The events of src/app/market_data_generator.cpp and the levels that they refer to.
use adaptive_fpga.Event.Validation.{validate_event-IsValid}
use adaptive_fpga.Prelude.{
  ℕ, zero, suc, ◌+◌, ◌-◌, ◌%◌, ◌≤◌, ◌<◌, ◌≡◌, refl, arith, Bool, true, false, List, [], ◌∷◌, All,
  ltb, leb, ◌==◌, if◌then◌else◌, length, get_or, set, ◌⊎◌, inr, inl,
}
use adaptive_fpga.Prelude.Int.{pos}
use adaptive_fpga.Event.{
  MarketEvent, EventType, add, update, no_error, validate_event, valid_type, valid_side,
}
use adaptive_fpga.App.Generator.{
  BookLevel, saturated_quantity, add_quantity, erase, side_of, set_quantity, event_of, uniform,
  add_price, generate_add, generate_update, generate_removal,
}

-- A price of the side: bids up to 10000, asks from 10002.
abbrev pub InRange : Bool → ℕ → Type 0
InRange true price = (9_991 ≤ price) × (price ≤ 10_000)
InRange false price = (10_002 ≤ price) × (price ≤ 10_011)

-- A level of the side with at most so much.
abbrev pub IsLevel : Bool → ℕ → BookLevel → Type 0
IsLevel is_bid most level =
    InRange is_bid level.price × (0 < level.quantity) × (level.quantity ≤ most)

-- A valid event of the side, in its price range.
abbrev pub IsGenerated : Bool → MarketEvent → Type 0
IsGenerated is_bid event =
    (validate_event event ≡ no_error)
    × (event.side ≡ side_of is_bid)
    × (price : ℕ) × (event.price_ticks ≡ pos price)
    × InRange is_bid price

All-set :
    (P : BookLevel → Type 0) (levels : List BookLevel) (index : ℕ) (level : BookLevel)
    → P level
    → All P levels
    → All P (set levels index level)
All-set P [] index level p h = tt
All-set P (l ∷ ls) zero level p h = (p, h.1)
All-set P (l ∷ ls) (suc index) level p h = (h.0, All-set P ls index level p h.1)

All-erase :
    (P : BookLevel → Type 0) (levels : List BookLevel) (index : ℕ)
    → All P levels
    → All P (erase index levels)
unfolding erase
All-erase P [] index h = tt
All-erase P (l ∷ ls) zero h = h.1
All-erase P (l ∷ ls) (suc index) h = (h.0, All-erase P ls index h.1)

pub All-get_or :
    (P : BookLevel → Type 0) (levels : List BookLevel) (index : ℕ) (level : BookLevel)
    → index < length levels
    → All P levels
    → P (get_or levels index level)
All-get_or P [] index level b h = elim b [ ]
All-get_or P (l ∷ ls) zero level b h = h.0
All-get_or P (l ∷ ls) (suc index) level b h = All-get_or P ls index level (omega arith) h.1

pub raise :
    (is_bid : Bool) (most most' : ℕ) (levels : List BookLevel)
    → most ≤ most'
    → All (IsLevel is_bid most) levels
    → All (IsLevel is_bid most') levels
raise is_bid most most' [] le h = tt
raise is_bid most most' (l ∷ ls) le h =
    ((h.0.0, h.0.1, omega (arith, h.0.2)), raise is_bid most most' ls le h.1)

saturated_bounds :
    (old quantity most : ℕ)
    → 0 < quantity
    → quantity ≤ 1_000
    → old ≤ most
    → (0 < saturated_quantity old quantity) × (saturated_quantity old quantity ≤ most + 1_000)
unfolding saturated_quantity
saturated_bounds old quantity most positive small le = (omega arith, omega arith)

add_quantity-IsLevel :
    (is_bid : Bool) (most price quantity : ℕ) (levels : List BookLevel)
    → InRange is_bid price
    → 0 < quantity
    → quantity ≤ 1_000
    → All (IsLevel is_bid most) levels
    → All (IsLevel is_bid (most + 1_000)) (add_quantity price quantity levels)
unfolding add_quantity
add_quantity-IsLevel is_bid most price quantity [] range positive small h =
    let q = saturated_bounds 0 quantity most positive small (omega arith) in ((range, q.0, q.1), tt)
add_quantity-IsLevel is_bid most price quantity (level ∷ levels) range positive small h =
    either (level.price == price) (ltb price level.price)
      (raise is_bid most (most + 1_000) (level ∷ levels) (omega arith) h)
      (add_quantity-IsLevel is_bid most price quantity levels range positive small h.1)
  where
    either :
        (same before : Bool)
        → All (IsLevel is_bid (most + 1_000)) (level ∷ levels)
        → All (IsLevel is_bid (most + 1_000)) (add_quantity price quantity levels)
        → All (IsLevel is_bid (most + 1_000)) (
            if same
            then record {
              price = level.price;
              quantity = saturated_quantity level.quantity quantity;
            }
              ∷ levels
            else if before
            then record { price = price; quantity = saturated_quantity 0 quantity } ∷ level ∷ levels
            else level ∷ add_quantity price quantity levels)
    either true before raised later =
        let q = saturated_bounds level.quantity quantity most positive small h.0.2 in
        ((h.0.0, q.0, q.1), raised.1)
    either false true raised later =
        let q = saturated_bounds 0 quantity most positive small (omega arith) in
        ((range, q.0, q.1), raised)
    either false false raised later = (raised.0, later)

valid_event :
    (index : ℕ) (type : EventType) (is_bid : Bool) (price quantity : ℕ)
    → valid_type type ≡ true
    → InRange is_bid price
    → (type ≡ update) ⊎ (0 < quantity)
    → IsGenerated is_bid (event_of index type is_bid price quantity)
unfolding event_of
valid_event index type true price quantity known range some_quantity = (
  (validate_event-IsValid _).1 (record {
    known_type = known;
    known_side = unfold valid_side side_of in refl;
    priced = ground arith;
    sized = some_quantity;
  }),
  refl,
  price,
  refl,
  range,
)
valid_event index type false price quantity known range some_quantity = (
  (validate_event-IsValid _).1 (record {
    known_type = known;
    known_side = unfold valid_side side_of in refl;
    priced = ground arith;
    sized = some_quantity;
  }),
  refl,
  price,
  refl,
  range,
)

-- A valid event of the side, with levels of the side of at most so much.
abbrev pub Good : Bool → ℕ → MarketEvent × List BookLevel × ℕ → Type 0
Good is_bid most r = IsGenerated is_bid r.0 × All (IsLevel is_bid most) r.1

module _ (random : ℕ → ℕ) where
  pub uniform_bounds :
      (low high drawn : ℕ)
      → low ≤ high
      → (low ≤ uniform random low high drawn) × (uniform random low high drawn ≤ high)
  unfolding uniform
  uniform_bounds low high drawn le = (omega arith, grind arith)

  add_price-InRange : (is_bid : Bool) (drawn : ℕ) → InRange is_bid (add_price random is_bid drawn)
  unfolding add_price
  add_price-InRange true drawn = uniform_bounds 9_991 10_000 drawn (omega arith)
  add_price-InRange false drawn = uniform_bounds 10_002 10_011 drawn (omega arith)

  pub generate_add-Good :
      (index : ℕ) (is_bid : Bool) (drawn most : ℕ) (levels : List BookLevel)
      → All (IsLevel is_bid most) levels
      → Good is_bid (most + 1_000) (generate_add random index is_bid drawn levels)
  unfolding generate_add
  generate_add-Good index is_bid drawn most levels h =
      let q = uniform_bounds 1 1_000 (drawn + 1) (omega arith) in
      (
        valid_event index add is_bid _ _ (unfold valid_type in refl)
            (add_price-InRange is_bid drawn) (inr (omega (arith, q.0))),
        add_quantity-IsLevel is_bid most _ _ levels (add_price-InRange is_bid drawn)
            (omega (arith, q.0)) q.1 h,
      )

  pub generate_update-Good :
      (index : ℕ) (is_bid : Bool) (drawn position most : ℕ) (selected : BookLevel)
      (levels : List BookLevel)
      → IsLevel is_bid most selected
      → All (IsLevel is_bid most) levels
      → Good is_bid
          (most + 1_000)
          (generate_update random index is_bid drawn position selected levels)
  unfolding generate_update set_quantity
  generate_update-Good index is_bid drawn position most selected levels s h = (
    valid_event index update is_bid selected.price _ (unfold valid_type in refl) s.0 (inl refl),
    either (uniform random 0 1_000 drawn == 0) refl,
  )
    where
      raised : All (IsLevel is_bid (most + 1_000)) levels
      raised = raise is_bid most (most + 1_000) levels (omega arith) h

      either :
          (b : Bool)
          → (uniform random 0 1_000 drawn == 0) ≡ b
          → All (IsLevel is_bid (most + 1_000)) (
              if b
              then erase position levels
              else set levels position
                  (record selected { quantity = uniform random 0 1_000 drawn }))
      either true t = All-erase (IsLevel is_bid (most + 1_000)) levels position raised
      either false t =
          All-set (IsLevel is_bid (most + 1_000)) levels position _
            (s.0, ground (arith, t), omega (arith, (uniform_bounds 0 1_000 drawn (omega arith)).1))
            raised

  pub generate_removal-Good :
      (index : ℕ) (type : EventType) (is_bid : Bool) (drawn position most : ℕ)
      (selected : BookLevel) (levels : List BookLevel)
      → valid_type type ≡ true
      → most + 500 < 4_294_967_296
      → IsLevel is_bid most selected
      → All (IsLevel is_bid most) levels
      → Good is_bid
          (most + 1_000)
          (generate_removal random index type is_bid drawn position selected levels)
  unfolding generate_removal set_quantity
  generate_removal-Good index type is_bid drawn position most selected levels known small s h = (
    valid_event index type is_bid selected.price _ known s.0 (inr positive),
    either (leb selected.quantity quantity) refl,
  )
    where
      quantity : ℕ
      quantity = uniform random 1 (selected.quantity + 500) drawn % 4_294_967_296

      positive : 0 < quantity
      positive =
          let q = uniform_bounds 1 (selected.quantity + 500) drawn (omega arith) in
          omega (arith, q.0, q.1, s.2)

      raised : All (IsLevel is_bid (most + 1_000)) levels
      raised = raise is_bid most (most + 1_000) levels (omega arith) h

      either :
          (b : Bool)
          → leb selected.quantity quantity ≡ b
          → All (IsLevel is_bid (most + 1_000)) (
              if b
              then erase position levels
              else set levels position
                  (record selected { quantity = selected.quantity - quantity }))
      either true t = All-erase (IsLevel is_bid (most + 1_000)) levels position raised
      either false t =
          All-set (IsLevel is_bid (most + 1_000)) levels position _
            (s.0, ground (arith, t), omega (arith, s.2)) raised
