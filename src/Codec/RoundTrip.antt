-- ===== src/Codec/RoundTrip.antt =====
-- What `write_binary` of src/market/event.cpp writes, `read_binary` reads.
use mathlib.Core.List.{append_assoc, append-nil}
use adaptive_fpga.Prelude.{
  ℕ, suc, ◌+◌, ◌≤◌, ◌<◌, ◌≡◌, ◌↔◌, refl, ap, sym, ◌∙◌, arith, Bool, true, false, List, [], ◌∷◌,
  ◌++◌, All, length, ltb, if◌then◌else◌,
}
use adaptive_fpga.Prelude.Int.{ℤ}
use adaptive_fpga.Prelude.Words.{IsI32, low_u32, signed_u32, to_i32, to_i32_lem}
use adaptive_fpga.Event.{
  EventType, Side, MarketEvent, EventValidationError, no_error, validate_event, valid_type,
  valid_side, add, update, cancel, trade, unknown_type, bid, ask, unknown_side,
}
use adaptive_fpga.Event.Validation.{IsValid, validate_event-IsValid}
use adaptive_fpga.Codec.{
  timestamp, reserved, price, quantity, Coded, done, throws, ◌>>=◌, ◌>>◌, CodecError, invalid_event,
  cannot_write, too_many_events, write_le, refuse, require_valid, type_code, side_code,
  type_of_code, side_of_code, write_event, write_events, require_all_valid, write_header,
  write_binary, read_magic, read_type_and_side, require_zero, checked_event, read_event,
  read_events, require_layout, require_end, read_binary,
}
use adaptive_fpga.Codec.Numbers.{read_le-write_le}

-- The ranges of an event's fields.
pub record FieldsFit (e : MarketEvent) : Type 0 where
  pub time : e.timestamp_ns < 18_446_744_073_709_551_616
  pub price_range : IsI32 e.price_ticks
  pub quantity_range : e.quantity < 4_294_967_296

type_of_code-type_code : (t : EventType) → valid_type t ≡ true → type_of_code (type_code t) ≡ t
unfolding type_of_code type_code valid_type
type_of_code-type_code add h = refl
type_of_code-type_code update h = refl
type_of_code-type_code cancel h = refl
type_of_code-type_code trade h = refl
type_of_code-type_code (unknown_type n) h = absurd (cc)

side_of_code-side_code : (s : Side) → valid_side s ≡ true → side_of_code (side_code s) ≡ s
unfolding side_of_code side_code valid_side
side_of_code-side_code bid h = refl
side_of_code-side_code ask h = refl
side_of_code-side_code (unknown_side n) h = absurd (cc)

low_u32-range : (a : ℤ) → low_u32 a < 4_294_967_296
low_u32-range a = ground arith

price_bits : (a : ℤ) → IsI32 a → signed_u32 (low_u32 a) ≡ a
price_bits a h = unfold to_i32 in to_i32_lem a h

require_valid_lem :
    (e : MarketEvent) (context : EventValidationError → CodecError)
    → validate_event e ≡ no_error
    → require_valid e context ≡ done tt
unfolding require_valid
require_valid_lem e context h = ap (λ t. refuse t context) h

-- The bytes of an event in front of the others, bracketed as they are read.
write_event-append :
    (e : MarketEvent) (rest : List ℕ)
    → write_event e ++ rest
      ≡ write_le 8 e.timestamp_ns
        ++ (type_code e.type
            ∷ side_code e.side
            ∷ (write_le 2 0
                ++ (write_le 4 (low_u32 e.price_ticks) ++ (write_le 4 e.quantity ++ rest))))
unfolding write_event write_le
write_event-append e rest = refl

read_event-write_event :
    (index : ℕ) (e : MarketEvent) (rest : List ℕ)
    → FieldsFit e
    → IsValid e
    → read_event index (write_event e ++ rest) ≡ done (e, rest)
unfolding read_event read_type_and_side require_zero checked_event require_valid
read_event-write_event index e rest fits v =
    rw
      (
        write_event-append e rest,
        read_le-write_le timestamp 8 e.timestamp_ns _ (omega (arith, fits.time)),
        read_le-write_le reserved 2 0 _ (omega arith),
        read_le-write_le price 4 (low_u32 e.price_ticks) _
            (omega (arith, low_u32-range e.price_ticks)),
        read_le-write_le quantity 4 e.quantity rest (omega (arith, fits.quantity_range)),
        type_of_code-type_code e.type v.known_type,
        side_of_code-side_code e.side v.known_side,
        price_bits e.price_ticks fits.price_range,
      )
      (ap (λ t. refuse t (λ x. invalid_event index x) >> done (e, rest))
        ((validate_event-IsValid e).1 v))

write_events-cons :
    (e : MarketEvent) (events : List MarketEvent)
    → write_events (e ∷ events) ≡ write_event e ++ write_events events
unfolding write_events
write_events-cons e events = refl

pub read_events-suc :
    (count index : ℕ) (input : List ℕ)
    → read_events (suc count) index input ≡ (
        read_event index input >>= λ e.
        read_events count (index + 1) e.1 >>= λ rest. done (e.0 ∷ rest.0, rest.1))
unfolding read_events
read_events-suc count index input = refl

read_events-write_events :
    (index : ℕ) (events : List MarketEvent) (rest : List ℕ)
    → All FieldsFit events
    → All IsValid events
    → read_events (length events) index (write_events events ++ rest) ≡ done (events, rest)
read_events-write_events index [] rest fits v = unfold read_events write_events in refl
read_events-write_events index (e ∷ events) rest fits v =
    ap (λ t. read_events (suc (length events)) index (t ++ rest)) (write_events-cons e events)
    ∙ ap (read_events (suc (length events)) index)
        (append_assoc (write_event e) (write_events events) rest)
    ∙ read_events-suc (length events) index (write_event e ++ (write_events events ++ rest))
    ∙ rw
        (
          read_event-write_event index e (write_events events ++ rest) fits.0 v.0,
          read_events-write_events (index + 1) events rest fits.1 v.1,
        )
        refl

refuse_done :
    (error : EventValidationError) (k : Coded (Unit {0}))
    → (refuse error cannot_write >> k) ≡ done tt
    → (error ≡ no_error) × (k ≡ done tt)
refuse_done no_error k h = (refl, h)
refuse_done _ k h = absurd (cc)

require_all_valid-All :
    (events : List MarketEvent) → require_all_valid events ≡ done tt → All IsValid events
unfolding require_all_valid require_valid
require_all_valid-All [] h = tt
require_all_valid-All (e ∷ events) h =
    let r = refuse_done (validate_event e) (require_all_valid events) h in
    ((validate_event-IsValid e).0 r.0, require_all_valid-All events r.1)

read_binary_header :
    (count : ℕ) (rest : List ℕ)
    → count < 4_294_967_296
    → read_binary (write_header count ++ rest)
      ≡ (read_events count 0 rest >>= λ events. require_end events.1 >> done events.0)
unfolding read_binary write_header write_le read_magic require_layout
read_binary_header count rest h =
    ap (λ n. read_events n 0 rest >>= λ events. require_end events.1 >> done events.0) {y = count}
      (omega arith)

written :
    (too_many : Bool) (checked : Coded (Unit {0})) (bs bytes : List ℕ)
    → (if too_many then throws too_many_events else checked >> done bs) ≡ done bytes
    → (too_many ≡ false) × (checked ≡ done tt) × (bytes ≡ bs)
written true checked bs bytes h = absurd (cc)
written false (done u) bs bytes h = (refl, refl, cc)
written false (throws e) bs bytes h = absurd (cc)

-- All the events have been checked, and there are not too many, if `write_binary` returns.
write_binary-done :
    (events : List MarketEvent) (bytes : List ℕ)
    → write_binary events ≡ done bytes
    → (require_all_valid events ≡ done tt)
      × (length events ≤ 4_294_967_295)
      × (bytes ≡ write_header (length events) ++ write_events events)
unfolding write_binary
write_binary-done events bytes h =
    let w =
      written (ltb 4_294_967_295 (length events)) (require_all_valid events)
        (write_header (length events) ++ write_events events) bytes h in
    (w.1, ground (arith, w.0), w.2)

-- Whatever events `write_binary` accepts, with fields in the range of their types: `read_binary` gives
-- them back from the bytes, all of them and in order.
pub read_binary-write_binary :
    (events : List MarketEvent) (bytes : List ℕ)
    → All FieldsFit events
    → write_binary events ≡ done bytes
    → read_binary bytes ≡ done events
read_binary-write_binary events bytes fits h =
    let w = write_binary-done events bytes h in
    let body = read_events-write_events 0 events [] fits (require_all_valid-All events w.0) in
    ap read_binary w.2
    ∙ read_binary_header (length events) (write_events events) (omega (arith, w.1))
    ∙ ap (λ t. read_events (length events) 0 t >>= λ r. require_end r.1 >> done r.0)
        (sym (append-nil (write_events events)))
    ∙ rw body (unfold require_end in refl)

All-require_all_valid :
    (events : List MarketEvent) → All IsValid events → require_all_valid events ≡ done tt
unfolding require_all_valid
All-require_all_valid [] v = refl
All-require_all_valid (e ∷ events) v =
    ap (λ t. t >> require_all_valid events)
      (require_valid_lem e cannot_write ((validate_event-IsValid e).1 v.0))
    ∙ All-require_all_valid events v.1

writes :
    (events : List MarketEvent)
    → All IsValid events
    → length events ≤ 4_294_967_295
    → write_binary events ≡ done (write_header (length events) ++ write_events events)
unfolding write_binary
writes events v h = rw (few (length events) h, All-require_all_valid events v) refl
  where
    few : (n : ℕ) → n ≤ 4_294_967_295 → ltb 4_294_967_295 n ≡ false
    few n k = ground arith

-- `write_binary` returns exactly for at most 2^32 - 1 events that are all valid.
pub write_binary_accepts :
    (events : List MarketEvent)
    → ((bytes : List ℕ) × (write_binary events ≡ done bytes))
      ↔ (All IsValid events × (length events ≤ 4_294_967_295))
write_binary_accepts events = (
  λ w. let d = write_binary-done events w.0 w.1 in (require_all_valid-All events d.0, d.1),
  λ v. (write_header (length events) ++ write_events events, writes events v.0 v.1),
)
