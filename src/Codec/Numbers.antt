-- ===== src/Codec/Numbers.antt =====
-- `read_le` of src/market/event.cpp undoes `write_u16`, `write_u32` and `write_u64`.
use native.Mathlib.Nat.{div-add-mod}
use adaptive_fpga.Prelude.{
  ℕ, zero, suc, ◌+◌, ◌*◌, ◌/◌, ◌%◌, ◌<◌, ◌≡◌, refl, ap, ◌∙◌, arith, List, ◌++◌, length,
}
use adaptive_fpga.Codec.{Field, done, write_le, read_le_from, read_le}

-- 2^(8 bytes).
abbrev pub range_of_bytes : ℕ → ℕ
range_of_bytes zero = 1
range_of_bytes (suc bytes) = 256 * range_of_bytes bytes

joined : (q r place acc : ℕ) → acc + r * place + q * (place * 256) ≡ acc + (256 * q + r) * place
joined q r place acc = grind arith

digit_sum :
    (value place acc : ℕ)
    → acc + (value % 256) * place + (value / 256) * (place * 256) ≡ acc + value * place
digit_sum value place acc =
    joined (value / 256) (value % 256) place acc ∙ ap (λ t. acc + t * place) (div-add-mod value 256)

read_le_from-write_le :
    (name : Field) (bytes place acc value : ℕ) (rest : List ℕ)
    → value < range_of_bytes bytes
    → read_le_from name bytes place acc (write_le bytes value ++ rest)
      ≡ done (acc + value * place, rest)
unfolding read_le_from write_le
read_le_from-write_le name zero place acc value rest h =
    ap (λ t. done (t, rest)) {y = acc + value * place} (ground arith)
read_le_from-write_le name (suc bytes) place acc value rest h =
    read_le_from-write_le name bytes (place * 256) (acc + (value % 256) * place) (value / 256) rest
      (ground arith)
    ∙ ap (λ t. done (t, rest)) (digit_sum value place acc)

pub read_le-write_le :
    (name : Field) (bytes value : ℕ) (rest : List ℕ)
    → value < range_of_bytes bytes
    → read_le name bytes (write_le bytes value ++ rest) ≡ done (value, rest)
unfolding read_le
read_le-write_le name bytes value rest h =
    read_le_from-write_le name bytes 1 0 value rest h
    ∙ ap (λ t. done (t, rest)) {y = value} (omega arith)

pub length-write_le : (bytes value : ℕ) → length (write_le bytes value) ≡ bytes
unfolding write_le
length-write_le zero value = refl
length-write_le (suc bytes) value = ap suc (length-write_le bytes (value / 256))
