-- ===== src/Event/Tests.antt =====
-- Events as src/market/event.cpp judges them.
use adaptive_fpga.Prelude.{◌≡◌, refl}
use adaptive_fpga.Prelude.Int.{pos, negsuc}
use adaptive_fpga.Event.{
  MarketEvent, add, update, unknown_type, bid, no_error, invalid_event_type, non_positive_price,
  zero_quantity, validate_event,
}

abbrev quote : MarketEvent
quote = record { timestamp_ns = 7; type = add; side = bid; price_ticks = pos 100; quantity = 3 }

judged :
    (validate_event quote ≡ no_error)
    × (validate_event (record quote { quantity = 0 }) ≡ zero_quantity)
    × (validate_event (record quote { quantity = 0; type = update }) ≡ no_error)
    × (validate_event (record quote { price_ticks = negsuc 0 }) ≡ non_positive_price)
    × (validate_event (record quote { type = unknown_type 4 }) ≡ invalid_event_type)
unfolding validate_event
judged = (refl, refl, refl, refl, refl)
