-- ===== src/Book/Changes/Removal.antt =====
-- Cancel and Trade events of src/market/order_book.cpp.
use adaptive_fpga.Prelude.{
  ℕ, zero, suc, ◌-◌, ◌<◌, ◌≡◌, ◌≢◌, refl, ap, sym, ◌∙◌, inl, inr, Bool, true, false, ◌==◌, [], ◌∷◌,
  arith, length, get_or, set, Bool-cases, if◌then◌else◌, min, length-set,
}
use adaptive_fpga.Prelude.Int.{neg_ℤ, pos, ◌*ℤ◌, ◌-ℤ◌}
use adaptive_fpga.Event.{
  Side, bid, ask, unknown_side, EventType, add, cancel, trade, MarketEvent, valid_side,
}
use adaptive_fpga.Book.Array.{PriceLevel, Levels, empty_level, lookup, remove}
use adaptive_fpga.Book.Shifts.{erase_at, remove-erase_at}
use adaptive_fpga.Book.Ranges.{Fits-get_or}
use adaptive_fpga.Book.{quantity_delta, side_sign, removal_change, trade_flow}
use adaptive_fpga.Book.Changes.{new_quantity, trade_part, ChangeOk, Searched}
use adaptive_fpga.Book.Changes.Write.{write_quantity, level_at, written}

erase_at-set :
    (levels : Levels) (index : ℕ) (level : PriceLevel)
    → erase_at (set levels index level) index ≡ erase_at levels index
unfolding erase_at
erase_at-set [] index level = refl
erase_at-set (first ∷ rest) zero level = refl
erase_at-set (first ∷ rest) (suc index) level = ap (λ t. first ∷ t) (erase_at-set rest index level)

remove-set :
    (levels : Levels) (index : ℕ) (level : PriceLevel)
    → index < length levels
    → remove (set levels index level) index ≡ remove levels index
remove-set levels index level h =
    remove-erase_at (set levels index level) index (omega (arith, length-set levels index level))
    ∙ erase_at-set levels index level
    ∙ sym (remove-erase_at levels index h)

removal_delta :
    (s : Side) (old quantity : ℕ)
    → neg_ℤ (side_sign s) *ℤ pos (min old quantity)
      ≡ side_sign s *ℤ quantity_delta (old - min old quantity) old
unfolding side_sign ◌*ℤ◌ ◌-ℤ◌
removal_delta bid old quantity = ground arith
removal_delta ask old quantity = ground arith
removal_delta (unknown_side n) old quantity = ground arith

removal_flow :
    (s : Side) (removed : ℕ)
    → valid_side s ≡ true
    → trade_flow s removed ≡ neg_ℤ (side_sign s) *ℤ pos removed
unfolding side_sign ◌*ℤ◌ ◌-ℤ◌ trade_flow valid_side
removal_flow bid removed h = ground arith
removal_flow ask removed h = ground arith
removal_flow (unknown_side n) removed h = absurd (cc)

-- The levels that Cancel and Trade leave are those with the reduced quantity written.
removal_levels :
    (levels : Levels) (index left : ℕ)
    → index < length levels
    → let reduced =
        set levels index (record (get_or levels index empty_level) { quantity = left }) in
      (if left == 0 then remove reduced index else reduced) ≡ write_quantity levels index left
unfolding write_quantity
removal_levels levels index left h =
    rw (remove-set levels index (record (get_or levels index empty_level) { quantity = left }) h)

-- The two event types that `removal_change` serves.
abbrev removal_type : Bool → EventType
removal_type true = trade
removal_type false = cancel

removal_type-ne-add : (is_trade : Bool) → removal_type is_trade ≢ add
removal_type-ne-add true e = cc
removal_type-ne-add false e = cc

removal_quantity :
    (is_trade : Bool) (old quantity : ℕ)
    → old - min old quantity ≡ new_quantity (removal_type is_trade) old quantity
unfolding new_quantity
removal_quantity true old quantity = omega arith
removal_quantity false old quantity = omega arith

removal_trade_part :
    (is_trade : Bool) (s : Side) (removed : ℕ)
    → valid_side s ≡ true
    → (if is_trade then trade_flow s removed else pos 0)
      ≡ trade_part (removal_type is_trade) (neg_ℤ (side_sign s) *ℤ pos removed)
removal_trade_part true s removed h = removal_flow s removed h
removal_trade_part false s removed h = refl

pub removal-ChangeOk :
    (is_trade : Bool) (levels : Levels) (event : MarketEvent)
    → Searched levels event
    → let (found, index) = lookup levels event.side event.price_ticks in
      ChangeOk
        (removal_type is_trade)
        levels
        event
        (removal_change is_trade levels found index event)
unfolding removal_change
removal-ChangeOk is_trade levels event v =
    let (found, index) = lookup levels event.side event.price_ticks in
    let old = (get_or levels index empty_level).quantity in
    let removed = min old event.quantity in
    elim (Bool-cases found) [
      | inl f ↦
          rw (f, removal_levels levels index (old - removed) (v.index_in.1 f))
            (unfold level_at in
              written (removal_type is_trade) levels event (old - removed) _ _ v f
                (removal_quantity is_trade old event.quantity)
                (removal_delta event.side old event.quantity)
                (removal_trade_part is_trade event.side removed v.known_side)
                (omega (arith, (Fits-get_or levels index v.fits).0)))
      | inr n ↦ rw n (refl, removal_type-ne-add is_trade, ground (arith, v.agrees))
    ]
