-- ===== src/Reference/Tests.antt =====
-- The model of src/reference/reference_model.cpp on a short stream.
use adaptive_fpga.Prelude.{ℕ, ◌≡◌, arith, List, [], ◌∷◌, false}
use adaptive_fpga.Prelude.Int.{pos, negsuc}
use adaptive_fpga.Event.{EventType, Side, MarketEvent, add, cancel, bid, ask}
use adaptive_fpga.Book.{new_book}
use adaptive_fpga.Book.Apply.{replay}
use adaptive_fpga.Reference.{ReferenceModel, new_model}
use adaptive_fpga.Reference.Process.{IsModel, process_all, process_all-new_model}

abbrev event_at : EventType → Side → ℕ → MarketEvent
event_at type s price = record {
  timestamp_ns = price;
  type = type;
  side = s;
  price_ticks = pos price;
  quantity = 5;
}

abbrev fresh : ReferenceModel
fresh = new_model false (pos 16_384) (negsuc 16_383)

abbrev stream : List MarketEvent
stream = event_at add bid 99 ∷ event_at cancel ask 98 ∷ event_at add ask 103 ∷ []

process_all-new_model_example :
    let m = process_all fresh 0 stream in IsModel m × (m.book ≡ replay (new_book false) stream)
process_all-new_model_example =
    process_all-new_model false (pos 16_384) (negsuc 16_383) stream (omega arith)
