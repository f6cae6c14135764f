-- ===== src/Codec/Strict.antt =====
-- What `read_binary` of src/market/event.cpp lets through.
use mathlib.Core.Path.{subst}
use adaptive_fpga.Prelude.{
  ℕ, zero, suc, ◌+◌, ◌*◌, ◌≡◌, refl, ap, sym, ◌∙◌, arith, Bool, true, false, ◌&&◌, List, [], ◌∷◌,
  All, length, ◌==◌, if◌then◌else◌,
}
use adaptive_fpga.Event.{MarketEvent, EventValidationError, no_error, validate_event}
use adaptive_fpga.Event.Validation.{IsValid, validate_event-IsValid}
use adaptive_fpga.Codec.{
  Field, version, header_size, record_size, record_count, timestamp, reserved, price, quantity,
  Coded, done, throws, ◌>>=◌, ◌>>◌, CodecError, invalid_magic, invalid_event, read_le_from, read_le,
  refuse, require_valid, read_magic, read_type_and_side, require_zero, checked_event, read_event,
  read_events, require_layout, require_end, read_binary,
}
use adaptive_fpga.Codec.RoundTrip.{read_events-suc}

module _ {ℓ κ} {A : Type ℓ} {B : Type κ} where
  bind_done :
      (c : Coded A) (k : A → Coded B) (b : B)
      → (c >>= k) ≡ done b
      → (a : A) × (c ≡ done a) × (k a ≡ done b)
  bind_done (done a) k b h = (a, refl, h)
  bind_done (throws e) k b h = absurd (cc)

done_injective {ℓ} : {A : Type ℓ} (a b : A) → done a ≡ done b → a ≡ b
done_injective a b h = cc

then_done :
    {A : Type 0} (c : Coded (Unit {0})) (k : Coded A) (a : A)
    → (c >> k) ≡ done a
    → (c ≡ done tt) × (k ≡ done a)
then_done (done u) k a h = (refl, h)
then_done (throws e) k a h = absurd (cc)

refuse_done :
    (error : EventValidationError) (context : EventValidationError → CodecError)
    → refuse error context ≡ done tt
    → error ≡ no_error
refuse_done no_error context h = refl
refuse_done _ context h = absurd (cc)

read_le_from-length :
    (name : Field) (bytes place value : ℕ) (input : List ℕ) (r : ℕ × List ℕ)
    → read_le_from name bytes place value input ≡ done r
    → length input ≡ bytes + length r.1
unfolding read_le_from
read_le_from-length name zero place value input r h =
    ap (λ t. length t.1) (done_injective (value, input) r h) ∙ omega arith
read_le_from-length name (suc bytes) place value [] r h = absurd (cc)
read_le_from-length name (suc bytes) place value (next ∷ input) r h =
    omega (arith, read_le_from-length name bytes (place * 256) (value + next * place) input r h)

read_le-length :
    (name : Field) (bytes : ℕ) (input : List ℕ) (r : ℕ × List ℕ)
    → read_le name bytes input ≡ done r
    → length input ≡ bytes + length r.1
unfolding read_le
read_le-length name bytes input r h = read_le_from-length name bytes 1 0 input r h

two_bytes :
    (input : List ℕ) (r : ℕ × ℕ × List ℕ)
    → read_type_and_side input ≡ done r
    → length input ≡ 2 + length r.2
unfolding read_type_and_side
two_bytes [] r h = absurd (cc)
two_bytes (t ∷ []) r h = absurd (cc)
two_bytes (t ∷ s ∷ input) r h =
    omega (arith, ap (λ u. length u.2) (done_injective (t, s, input) r h))

checked_event_done :
    (index : ℕ) (event : MarketEvent) (input : List ℕ) (r : MarketEvent × List ℕ)
    → checked_event index event input ≡ done r
    → IsValid r.0 × (length r.1 ≡ length input)
unfolding checked_event require_valid
checked_event_done index event input r h =
    let c =
      then_done (require_valid event (λ x. invalid_event index x)) (done (event, input)) r h in
    let same = done_injective (event, input) r c.1 in
    let error = refuse_done (validate_event event) (λ x. invalid_event index x) c.0 in
    (
      subst (λ u. IsValid u.0) same ((validate_event-IsValid event).0 error),
      ap (λ u. length u.1) (sym same),
    )

-- A record that is read is a valid event, and takes twenty bytes.
read_event_done :
    (index : ℕ) (input : List ℕ) (r : MarketEvent × List ℕ)
    → read_event index input ≡ done r
    → IsValid r.0 × (length input ≡ 20 + length r.1)
unfolding read_event
read_event_done index input r h =
    let t = bind_done (read_le timestamp 8 input) _ r h in
    let ts = bind_done (read_type_and_side t.0.1) _ r t.2 in
    let z = bind_done (read_le reserved 2 ts.0.2) _ r ts.2 in
    let y = then_done (require_zero index z.0.0) _ r z.2 in
    let p = bind_done (read_le price 4 z.0.1) _ r y.1 in
    let q = bind_done (read_le quantity 4 p.0.1) _ r p.2 in
    let e = checked_event_done index _ q.0.1 r q.2 in
    (
      e.0,
      omega (
        arith,
        read_le-length timestamp 8 input t.0 t.1,
        two_bytes t.0.1 ts.0 ts.1,
        read_le-length reserved 2 ts.0.2 z.0 z.1,
        read_le-length price 4 z.0.1 p.0 p.1,
        read_le-length quantity 4 p.0.1 q.0 q.1,
        e.1,
      ),
    )

read_events_done :
    (count index : ℕ) (input : List ℕ) (r : List MarketEvent × List ℕ)
    → read_events count index input ≡ done r
    → All IsValid r.0 × (length r.0 ≡ count) × (length input ≡ 20 * count + length r.1)
read_events_done zero index input r h =
    let same = done_injective ([], input) r (unfold read_events in h) in
    subst (λ u. All IsValid u.0 × (length u.0 ≡ 0) × (length input ≡ 20 * 0 + length u.1)) same
      (tt, refl, omega arith)
read_events_done (suc count) index input r h =
    let e = bind_done (read_event index input) _ r (sym (read_events-suc count index input) ∙ h) in
    let rest = bind_done (read_events count (index + 1) e.0.1) _ r e.2 in
    let first = read_event_done index input e.0 e.1 in
    let others = read_events_done count (index + 1) e.0.1 rest.0 rest.1 in
    let same = done_injective (e.0.0 ∷ rest.0.0, rest.0.1) r rest.2 in
    subst
      (λ u.
        All IsValid u.0 × (length u.0 ≡ suc count) × (length input ≡ 20 * suc count + length u.1))
      same ((first.0, others.0), omega (arith, others.1), omega (arith, first.1, others.2))

magic_length : (input rest : List ℕ) → read_magic input ≡ done rest → length input ≡ 4 + length rest
unfolding read_magic
magic_length [] rest h = absurd (cc)
magic_length (a ∷ []) rest h = absurd (cc)
magic_length (a ∷ b ∷ []) rest h = absurd (cc)
magic_length (a ∷ b ∷ c ∷ []) rest h = absurd (cc)
magic_length (a ∷ b ∷ c ∷ d ∷ input) rest h =
    omega (arith, kept (a == 77 && (b == 75 && (c == 84 && d == 49))) h)
  where
    kept :
        (test : Bool)
        → (if test then done input else throws invalid_magic) ≡ done rest
        → length input ≡ length rest
    kept true e = ap length (done_injective input rest e)
    kept false e = absurd (cc)

end_reached : (input : List ℕ) → require_end input ≡ done tt → length input ≡ 0
unfolding require_end
end_reached [] h = refl
end_reached (next ∷ input) h = absurd (cc)

-- The reader is strict: if `read_binary` returns, every event that it returns is valid, and the input
-- is the header's sixteen bytes with exactly twenty bytes for each event, none left over.
pub read_binary-IsValid :
    (input : List ℕ) (events : List MarketEvent)
    → read_binary input ≡ done events
    → All IsValid events × (length input ≡ 16 + 20 * length events)
unfolding read_binary
read_binary-IsValid input events h =
    let m = bind_done (read_magic input) _ events h in
    let v = bind_done (read_le version 2 m.0) _ events m.2 in
    let hs = bind_done (read_le header_size 2 v.0.1) _ events v.2 in
    let rs = bind_done (read_le record_size 4 hs.0.1) _ events hs.2 in
    let n = bind_done (read_le record_count 4 rs.0.1) _ events rs.2 in
    let l = then_done (require_layout v.0.0 hs.0.0 rs.0.0) _ events n.2 in
    let es = bind_done (read_events n.0.0 0 n.0.1) _ events l.1 in
    let e = then_done (require_end es.0.1) _ events es.2 in
    let body = read_events_done n.0.0 0 n.0.1 es.0 es.1 in
    let same = done_injective es.0.0 events e.1 in
    subst (λ u. All IsValid u × (length input ≡ 16 + 20 * length u)) same
      (
        body.0,
        omega (
          arith,
          magic_length input m.0 m.1,
          read_le-length version 2 m.0 v.0 v.1,
          read_le-length header_size 2 v.0.1 hs.0 hs.1,
          read_le-length record_size 4 hs.0.1 rs.0 rs.1,
          read_le-length record_count 4 rs.0.1 n.0 n.1,
          body.1,
          body.2,
          end_reached es.0.1 e.0,
        ),
      )
