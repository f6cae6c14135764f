-- ===== src/Codec/Tests.antt =====
-- The binary codec of src/market/event.cpp on two events.
use adaptive_fpga.Prelude.{ℕ, ◌≡◌, ◌+◌, ◌*◌, refl, arith, List, [], ◌∷◌, ◌++◌, All, length}
use adaptive_fpga.Prelude.Int.{pos}
use adaptive_fpga.Event.{MarketEvent, add, update, bid, ask, validate_event, zero_quantity}
use adaptive_fpga.Event.Validation.{IsValid}
use adaptive_fpga.Codec.{
  done, throws, cannot_write, trailing_bytes, write_binary, write_header, type_code, side_code,
  read_binary,
}
use adaptive_fpga.Codec.RoundTrip.{FieldsFit, read_binary-write_binary}
use adaptive_fpga.Codec.Strict.{read_binary-IsValid}

abbrev quotes : List MarketEvent
quotes =
    record { timestamp_ns = 7; type = add; side = bid; price_ticks = pos 100; quantity = 3 }
    ∷ record { timestamp_ns = 300; type = update; side = ask; price_ticks = pos 103; quantity = 0 }
    ∷ []

abbrev quotes_bytes : List ℕ
quotes_bytes =
    77 ∷ 75 ∷ 84 ∷ 49 ∷ 1 ∷ 0 ∷ 16 ∷ 0 ∷ 20 ∷ 0 ∷ 0 ∷ 0 ∷ 2 ∷ 0 ∷ 0 ∷ 0 ∷ 7 ∷ 0 ∷ 0 ∷ 0 ∷ 0 ∷ 0 ∷ 0
    ∷ 0 ∷ 0 ∷ 0 ∷ 0 ∷ 0 ∷ 100 ∷ 0 ∷ 0 ∷ 0 ∷ 3 ∷ 0 ∷ 0 ∷ 0 ∷ 44 ∷ 1 ∷ 0 ∷ 0 ∷ 0 ∷ 0 ∷ 0 ∷ 0 ∷ 1 ∷ 1
    ∷ 0 ∷ 0 ∷ 103 ∷ 0 ∷ 0 ∷ 0 ∷ 0 ∷ 0 ∷ 0 ∷ 0 ∷ []

quotes_written : write_binary quotes ≡ done quotes_bytes
unfolding write_binary validate_event type_code side_code
quotes_written = refl

unwritable :
    write_binary (
      record { timestamp_ns = 7; type = add; side = bid; price_ticks = pos 100; quantity = 0 } ∷ [])
    ≡ throws (cannot_write zero_quantity)
unfolding write_binary validate_event
unwritable = refl

trailing : read_binary (write_header 0 ++ (9 ∷ [])) ≡ throws trailing_bytes
unfolding read_binary write_header
trailing = refl

quotes-FieldsFit : All FieldsFit quotes
quotes-FieldsFit = omega arith

read_binary-write_binary_example : read_binary quotes_bytes ≡ done quotes
read_binary-write_binary_example =
    read_binary-write_binary quotes quotes_bytes quotes-FieldsFit quotes_written

read_binary-IsValid_example : All IsValid quotes × (length quotes_bytes ≡ 16 + 20 * length quotes)
read_binary-IsValid_example =
    read_binary-IsValid quotes_bytes quotes read_binary-write_binary_example
