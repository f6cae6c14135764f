-- ===== src/Codec.antt =====
-- The binary codec of src/market/event.cpp, over lists of bytes: a stream's bytes that are not yet
-- read are a list, and what is written to a stream is a list. An EventCodecError is a value.
pub mod Numbers
pub mod RoundTrip
pub mod Strict
mod Tests
use adaptive_fpga.Prelude.{
  ℕ, zero, suc, ◌+◌, ◌*◌, ◌/◌, ◌%◌, Bool, true, false, not, ◌||◌, ◌&&◌, List, [], ◌∷◌, ◌++◌, ltb,
  ◌==◌, if◌then◌else◌, length,
}
use adaptive_fpga.Prelude.Words.{low_u32, signed_u32}
use adaptive_fpga.Event.{
  EventType, Side, MarketEvent, EventValidationError, no_error, validate_event, add, update, cancel,
  trade, unknown_type, bid, ask, unknown_side,
}

-- The field names of `read_le`'s errors.
pub data Field : Type 0 where
  version header_size record_size record_count timestamp reserved price quantity : Field

-- The messages of EventCodecError that the binary codec throws.
pub data CodecError : Type 0 where
  too_many_events invalid_magic unsupported_layout truncated_event trailing_bytes : CodecError
  cannot_write : EventValidationError → CodecError
  truncated : Field → CodecError
  nonzero_reserved : ℕ → CodecError
  invalid_event : ℕ → EventValidationError → CodecError

pub data Coded {ℓ} (A : Type ℓ) : Type ℓ where
  done : A → Coded A
  throws : CodecError → Coded A

infixl 5 ◌>>=◌ ◌>>◌
abbrev pub ◌>>=◌ {ℓ κ} : {A : Type ℓ} {B : Type κ} → Coded A → (A → Coded B) → Coded B
done a >>= k = k a
throws e >>= k = throws e

abbrev pub ◌>>◌ {ℓ} : {B : Type ℓ} → Coded (Unit {0}) → Coded B → Coded B
done u >> k = k
throws e >> k = throws e

-- `write_u16`, `write_u32` and `write_u64`: that many bytes, the lowest first.
unfoldable pub write_le : ℕ → ℕ → List ℕ
write_le zero value = []
write_le (suc bytes) value = value % 256 ∷ write_le bytes (value / 256)

-- The loop of `read_le`; `place` is 2^(8 i) for the byte i that is read next, so that the bits joined
-- to `value` are all higher than its own, and the `|=` is a sum.
unfoldable pub read_le_from : Field → ℕ → ℕ → ℕ → List ℕ → Coded (ℕ × List ℕ)
read_le_from name zero place value input = done (value, input)
read_le_from name (suc bytes) place value [] = throws (truncated name)
read_le_from name (suc bytes) place value (next ∷ input) =
    read_le_from name bytes (place * 256) (value + next * place) input

unfoldable pub read_le : Field → ℕ → List ℕ → Coded (ℕ × List ℕ)
unfolding read_le_from
read_le name bytes input = read_le_from name bytes 1 0 input

-- `require_valid`, with the error that its context makes of the event's.
abbrev pub refuse : EventValidationError → (EventValidationError → CodecError) → Coded (Unit {0})
refuse no_error context = done tt
refuse e context = throws (context e)

unfoldable pub require_valid : MarketEvent → (EventValidationError → CodecError) → Coded (Unit {0})
require_valid event context = refuse (validate_event event) context

unfoldable pub type_code : EventType → ℕ
type_code add = 0
type_code update = 1
type_code cancel = 2
type_code trade = 3
type_code (unknown_type n) = n

unfoldable pub side_code : Side → ℕ
side_code bid = 0
side_code ask = 1
side_code (unknown_side n) = n

-- `static_cast<EventType>` and `static_cast<Side>` of a byte.
unfoldable pub type_of_code : ℕ → EventType
type_of_code code =
    if code == 0
    then add
    else if code == 1
    then update
    else if code == 2
    then cancel
    else if code == 3
    then trade
    else unknown_type code

unfoldable pub side_of_code : ℕ → Side
side_of_code code = if code == 0 then bid else if code == 1 then ask else unknown_side code

-- One record of twenty bytes.
unfoldable pub write_event : MarketEvent → List ℕ
unfolding write_le
write_event event =
    write_le 8 event.timestamp_ns
    ++ type_code event.type ∷ side_code event.side ∷ write_le 2 0
    ++ write_le 4 (low_u32 event.price_ticks)
    ++ write_le 4 event.quantity

unfoldable pub write_events : List MarketEvent → List ℕ
unfolding write_event
write_events [] = []
write_events (event ∷ events) = write_event event ++ write_events events

unfoldable pub require_all_valid : List MarketEvent → Coded (Unit {0})
unfolding require_valid
require_all_valid [] = done tt
require_all_valid (event ∷ events) = do require_valid event cannot_write; require_all_valid events

unfoldable pub write_header : ℕ → List ℕ
unfolding write_le
write_header count =
    77 ∷ 75 ∷ 84 ∷ 49 ∷ write_le 2 1 ++ write_le 2 16 ++ write_le 4 20 ++ write_le 4 count

-- Writing to a list never fails, so that `check_output` has no part.
unfoldable pub write_binary : List MarketEvent → Coded (List ℕ)
unfolding require_all_valid write_header write_events
write_binary events =
    if ltb 4_294_967_295 (length events)
    then throws too_many_events
    else do require_all_valid events; done (write_header (length events) ++ write_events events)

unfoldable pub read_magic : List ℕ → Coded (List ℕ)
read_magic (a ∷ b ∷ c ∷ d ∷ input) =
    if a == 77 && (b == 75 && (c == 84 && d == 49)) then done input else throws invalid_magic
read_magic _ = throws invalid_magic

-- The two bytes read by `get`, an end of input being noticed after both.
unfoldable pub read_type_and_side : List ℕ → Coded (ℕ × ℕ × List ℕ)
read_type_and_side (type ∷ side ∷ input) = done (type, side, input)
read_type_and_side _ = throws truncated_event

unfoldable pub require_zero : ℕ → ℕ → Coded (Unit {0})
require_zero index bits = if bits == 0 then done tt else throws (nonzero_reserved index)

-- The end of the loop's body.
unfoldable pub checked_event : ℕ → MarketEvent → List ℕ → Coded (MarketEvent × List ℕ)
unfolding require_valid
checked_event index event input = do require_valid event (invalid_event index); done (event, input)

unfoldable pub read_event : ℕ → List ℕ → Coded (MarketEvent × List ℕ)
unfolding read_le read_type_and_side require_zero checked_event
read_event index input = do
  t ← read_le timestamp 8 input
  ts ← read_type_and_side t.1
  r ← read_le reserved 2 ts.2
  require_zero index r.0
  p ← read_le price 4 r.1
  q ← read_le quantity 4 p.1
  checked_event index
      (record {
        timestamp_ns = t.0;
        type = type_of_code ts.0;
        side = side_of_code ts.1;
        price_ticks = signed_u32 p.0;
        quantity = q.0;
      })
      q.1

-- The loop over `count` records, from `index` on.
unfoldable pub read_events : ℕ → ℕ → List ℕ → Coded (List MarketEvent × List ℕ)
unfolding read_event
read_events zero index input = done ([], input)
read_events (suc count) index input = do
  e ← read_event index input
  rest ← read_events count (index + 1) e.1
  done (e.0 ∷ rest.0, rest.1)

unfoldable pub require_layout : ℕ → ℕ → ℕ → Coded (Unit {0})
require_layout v h r = if v == 1 && (h == 16 && r == 20) then done tt else throws unsupported_layout

unfoldable pub require_end : List ℕ → Coded (Unit {0})
require_end [] = done tt
require_end (next ∷ input) = throws trailing_bytes

unfoldable pub read_binary : List ℕ → Coded (List MarketEvent)
unfolding read_magic read_le require_layout read_events require_end
read_binary input = do
  input' ← read_magic input
  v ← read_le version 2 input'
  h ← read_le header_size 2 v.1
  r ← read_le record_size 4 h.1
  count ← read_le record_count 4 r.1
  require_layout v.0 h.0 r.0
  events ← read_events count.0 0 count.1
  require_end events.1
  done events.0
