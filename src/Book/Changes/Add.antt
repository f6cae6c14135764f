-- ===== src/Book/Changes/Add.antt =====
-- Add events of src/market/order_book.cpp.
use adaptive_fpga.Prelude.{
  ℕ, ◌+◌, ◌-◌, ◌<◌, ◌≤◌, ◌≡◌, refl, ap, inl, inr, Bool, true, false, none, arith, length, get_or,
  set, Bool-cases, if◌then◌else◌, ltb, min,
}
use adaptive_fpga.Prelude.Int.{ℤ, pos, ◌*ℤ◌, ◌-ℤ◌}
use adaptive_fpga.Event.{Side, bid, ask, unknown_side, add, MarketEvent}
use adaptive_fpga.Book.Array.{PriceLevel, Levels, empty_level, lookup, saturated_add, max_u32}
use adaptive_fpga.Book.Prices.{==ℤ_refl}
use adaptive_fpga.Book.Shifts.{insert_at, insert-insert_at, length-insert_at}
use adaptive_fpga.Book.Lookup.{insert_at-IsSide}
use adaptive_fpga.Book.Ranges.{Fits-get_or, Fits-insert_at}
use adaptive_fpga.Book.Quantity.{quantity_at, NotLast, quantity_at-insert_at}
use adaptive_fpga.Book.{changed, book_depth, quantity_delta, side_sign, add_change}
use adaptive_fpga.Book.Changes.{new_quantity, ChangeOk, Searched, NotLast-of_zero}
use adaptive_fpga.Book.Changes.Write.{write_quantity, level_at, found_quantity, written}

-- The level that Add puts on a price that has none.
new_level : MarketEvent → PriceLevel
new_level event = record { price_ticks = event.price_ticks; quantity = event.quantity }

add_new_delta :
    (s : Side) (visible : Bool) (after quantity : ℕ)
    → after ≡ (if visible then quantity else 0)
    → (if visible then side_sign s *ℤ pos quantity else pos 0)
      ≡ side_sign s *ℤ quantity_delta after 0
unfolding side_sign ◌*ℤ◌ ◌-ℤ◌
add_new_delta bid visible after quantity h = ground arith
add_new_delta ask visible after quantity h = ground arith
add_new_delta (unknown_side n) visible after quantity h = ground arith

add_found_delta :
    (s : Side) (old quantity : ℕ)
    → old ≤ max_u32
    → side_sign s *ℤ pos (saturated_add old quantity - old)
      ≡ side_sign s *ℤ quantity_delta (saturated_add old quantity) old
unfolding ◌-ℤ◌ saturated_add
add_found_delta s old quantity h = ap (λ t. side_sign s *ℤ t) (ground arith)

write_quantity_pos :
    (levels : Levels) (index quantity : ℕ)
    → 0 < quantity
    → write_quantity levels index quantity
      ≡ set levels index (record (get_or levels index empty_level) { quantity = quantity })
unfolding write_quantity
write_quantity_pos levels index quantity h = ground arith

saturated_add_lem : (old quantity : ℕ) → saturated_add old quantity ≡ min (old + quantity) max_u32
unfolding saturated_add
saturated_add_lem old quantity = ground arith

add_found :
    (levels : Levels) (event : MarketEvent)
    → Searched levels event
    → (lookup levels event.side event.price_ticks).0 ≡ true
    → let index = (lookup levels event.side event.price_ticks).1 in
      let level = get_or levels index empty_level in
      let total = saturated_add level.quantity event.quantity in
      ChangeOk add levels event (
        changed
          (set levels index (record level { quantity = total }))
          (side_sign event.side *ℤ pos (total - level.quantity))
          (pos 0))
unfolding new_quantity level_at
add_found levels event v f =
    let index = (lookup levels event.side event.price_ticks).1 in
    let old = (get_or levels index empty_level).quantity in
    let total = saturated_add old event.quantity in
    let fits = (Fits-get_or levels index v.fits).0 in
    rw
      (← write_quantity_pos levels index total
        (omega (arith, saturated_add_lem old event.quantity, (found_quantity levels event v f).1)))
      (written add levels event total _ _ v f (saturated_add_lem old event.quantity)
        (add_found_delta event.side old event.quantity fits) refl
        (omega (arith, saturated_add_lem old event.quantity)))

add_new :
    (levels : Levels) (event : MarketEvent)
    → event.type ≡ add
    → length levels ≡ book_depth
    → Searched levels event
    → (lookup levels event.side event.price_ticks).0 ≡ false
    → let index = (lookup levels event.side event.price_ticks).1 in
      ChangeOk add levels event (
        changed
          (insert_at levels index (new_level event))
          (if ltb index book_depth then side_sign event.side *ℤ pos event.quantity else pos 0)
          (pos 0))
unfolding new_quantity new_level
add_new levels event t d v n =
    let index = (lookup levels event.side event.price_ticks).1 in
    let level = new_level event in
    let absent : quantity_at levels event.price_ticks ≡ 0 = ground (arith, v.agrees) in
    let at = λ (other : ℤ) (kept : NotLast levels other).
      quantity_at-insert_at event.side none levels level other n v.ordered kept in
    let own =
      at event.price_ticks
        (NotLast-of_zero event.side none levels event.price_ticks v.priced v.ordered absent) in
    (
      insert_at-IsSide event.side none levels level (ground (arith, v.sized)) v.priced tt n
          v.ordered,
      Fits-insert_at levels index level v.event_fits v.fits,
      length-insert_at levels index level,
      λ other_type. absurd (other_type refl),
      λ other kept. ground (arith, at other (kept refl absent), v.place, v.event_fits),
      rw absent (
          add_new_delta event.side (ltb index book_depth)
            (quantity_at (insert_at levels index level) event.price_ticks) event.quantity
            (ground (arith, own, ==ℤ_refl event.price_ticks, d))),
      refl,
    )

pub add-ChangeOk :
    (levels : Levels) (event : MarketEvent)
    → event.type ≡ add
    → length levels ≡ book_depth
    → Searched levels event
    → let (found, index) = lookup levels event.side event.price_ticks in
      ChangeOk add levels event (add_change levels found index event)
unfolding add_change new_level
add-ChangeOk levels event t d v =
    let (found, index) = lookup levels event.side event.price_ticks in
    elim (Bool-cases found) [
      | inl f ↦ rw f (add_found levels event v f)
      | inr n ↦
          rw (n, insert-insert_at levels index (new_level event) v.index_in.0)
            (add_new levels event t d v n)
    ]
