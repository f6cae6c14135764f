-- ===== src/Book/Changes/Write.antt =====
-- Update events of src/market/order_book.cpp, and the write that every event type makes on a level
-- that is found.
use adaptive_fpga.Prelude.{
  ℕ, ◌<◌, ◌≤◌, ◌≡◌, refl, ap, ◌∙◌, inl, inr, true, ◌==◌, none, arith, length, get_or, set,
  Bool-cases, if◌then◌else◌, length-set,
}
use adaptive_fpga.Prelude.Int.{ℤ, ◌==ℤ◌, ◌*ℤ◌}
use adaptive_fpga.Event.{EventType, update, MarketEvent}
use adaptive_fpga.Book.Array.{PriceLevel, Levels, empty_level, lookup, remove, max_u32}
use adaptive_fpga.Book.Shifts.{remove-erase_at, length-erase_at}
use adaptive_fpga.Book.Sides.{IsSide, erase_at-IsSide}
use adaptive_fpga.Book.Lookup.{set-IsSide}
use adaptive_fpga.Book.Ranges.{Fits, Fits-set, Fits-get_or, Fits-erase_at}
use adaptive_fpga.Book.Quantity.{quantity_at, quantity_at-set, quantity_at-erase_at}
use adaptive_fpga.Book.{changed, quantity_delta, side_sign, update_change}
use adaptive_fpga.Book.Changes.{new_quantity, has_place, trade_part, ChangeOk, Searched}

-- A level's quantity overwritten, or the level taken out at zero: the map at that price alone.
unfoldable pub write_quantity : Levels → ℕ → ℕ → Levels
write_quantity levels index quantity =
    if quantity == 0
    then remove levels index
    else set levels index (record (get_or levels index empty_level) { quantity = quantity })

pub write_quantity_lem :
    (levels : Levels) (event : MarketEvent) (quantity : ℕ) (other : ℤ)
    → Searched levels event
    → (lookup levels event.side event.price_ticks).0 ≡ true
    → quantity ≤ max_u32
    → let after = write_quantity levels (lookup levels event.side event.price_ticks).1 quantity in
      IsSide event.side none after
      × Fits after
      × (length after ≡ length levels)
      × (quantity_at after other
          ≡ (if event.price_ticks ==ℤ other then quantity else quantity_at levels other))
unfolding write_quantity
write_quantity_lem levels event quantity other v f small =
    let index = (lookup levels event.side event.price_ticks).1 in
    elim (Bool-cases (quantity == 0)) [
      | inl gone ↦
          rw (gone, remove-erase_at levels index (v.index_in.1 f))
            (
              erase_at-IsSide event.side none levels index v.ordered,
              Fits-erase_at levels index v.fits,
              length-erase_at levels index,
              ground (
                arith,
                quantity_at-erase_at event.side none levels event.price_ticks other f v.ordered,
              ),
            )
      | inr kept ↦ rw kept (
        set-IsSide event.side none levels event.price_ticks quantity (ground arith) f v.ordered,
        Fits-set levels index _ (small, (Fits-get_or levels index v.fits).1) v.fits,
        length-set levels index _,
        quantity_at-set event.side none levels event.price_ticks quantity other f v.ordered,
      )
    ]

unfoldable pub level_at : Levels → MarketEvent → PriceLevel
level_at levels event = get_or levels (lookup levels event.side event.price_ticks).1 empty_level

pub found_quantity :
    (levels : Levels) (event : MarketEvent)
    → Searched levels event
    → (lookup levels event.side event.price_ticks).0 ≡ true
    → ((level_at levels event).quantity ≡ quantity_at levels event.price_ticks)
      × (0 < (level_at levels event).quantity)
      × (has_place event.side levels event.price_ticks ≡ true)
unfolding level_at
found_quantity levels event v f = ground (arith, v.agrees, v.index_in, v.place)

-- A found price whose level gets the quantity of the event type, with the delta from its old one.
pub written :
    (type : EventType) (levels : Levels) (event : MarketEvent) (quantity : ℕ) (order_flow flow : ℤ)
    → Searched levels event
    → (lookup levels event.side event.price_ticks).0 ≡ true
    → quantity ≡ new_quantity type (level_at levels event).quantity event.quantity
    → order_flow ≡ side_sign event.side *ℤ quantity_delta quantity (level_at levels event).quantity
    → flow ≡ trade_part type order_flow
    → quantity ≤ max_u32
    → ChangeOk type levels event (
        changed
          (write_quantity levels (lookup levels event.side event.price_ticks).1 quantity)
          order_flow
          flow)
written type levels event quantity order_flow flow v f eq eo et small =
    let q = found_quantity levels event v f in
    (
      (write_quantity_lem levels event quantity event.price_ticks v f small).0,
      (write_quantity_lem levels event quantity event.price_ticks v f small).1,
      (write_quantity_lem levels event quantity event.price_ticks v f small).2,
      λ _. ground (arith, q),
      λ other _. ground (arith, write_quantity_lem levels event quantity other v f small, q),
      eo
          ∙ ap (λ t. side_sign event.side *ℤ t)
              (ground
                (arith, write_quantity_lem levels event quantity event.price_ticks v f small, q)),
      et,
    )

pub update-ChangeOk :
    (levels : Levels) (event : MarketEvent)
    → Searched levels event
    → let (found, index) = lookup levels event.side event.price_ticks in
      ChangeOk update levels event (update_change levels found index event)
unfolding update_change new_quantity
update-ChangeOk levels event v =
    let (found, index) = lookup levels event.side event.price_ticks in
    elim (Bool-cases found) [
      | inl f ↦ rw f (
          unfold write_quantity level_at in
          written update levels event event.quantity _ _ v f refl refl refl v.event_fits.0)
      | inr n ↦ rw n (refl, λ e. cc, ground (arith, v.agrees))
    ]
