-- ===== src/Event/Validation.antt =====
-- Which events `validate_event` accepts.
use adaptive_fpga.Prelude.{◌<◌, ◌≡◌, ◌↔◌, ◌⊎◌, true, arith}
use adaptive_fpga.Prelude.Int.{pos, ◌<ℤ◌}
use adaptive_fpga.Event.{update, MarketEvent, no_error, valid_type, valid_side, validate_event}

-- An event that every consumer may rely on: an enumerator for type and side, a positive price, and a
-- positive quantity unless it replaces a level's quantity.
pub record IsValid (e : MarketEvent) : Type 0 where
  pub known_type : valid_type e.type ≡ true
  pub known_side : valid_side e.side ≡ true
  pub priced : pos 0 <ℤ e.price_ticks
  pub sized : (e.type ≡ update) ⊎ (0 < e.quantity)

-- `validate_event` reports no error exactly for the events that are valid.
pub validate_event-IsValid : (e : MarketEvent) → (validate_event e ≡ no_error) ↔ IsValid e
unfolding validate_event
validate_event-IsValid e = (λ h. ground arith, λ v. ground arith)
