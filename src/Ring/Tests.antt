-- ===== src/Ring/Tests.antt =====
-- Runs of the ring of include/app/spsc_ring_buffer.hpp, and its theorems at concrete rings.
use Prim.Native.Nat.{◌∣◌}
use native.Mathlib.Nat.{dvd_of_mod-eq-zero}
use adaptive_fpga.Prelude.{ℕ, ◌≡◌, ◌≤◌, refl, arith, List, [], ◌∷◌, ◌++◌, length, false}
use adaptive_fpga.Prelude.Words.{u64_mod}
use adaptive_fpga.Ring.Contents.{IsRing, contents}
use adaptive_fpga.Ring.Schedule.{
  Call, reserve, store, publish, cancel, begin, finish, run, start, read_slot, write_through, fresh,
  run_fifo,
}
use adaptive_fpga.Ring.{
  Ring, ok, invalid_argument, create, try_reserve_push, write_slot, publish_push, cancel_push,
  try_begin_pop, finish_pop, is_empty, is_full, size,
}

abbrev ring : Ring ℕ
ring = fresh 0 2

-- Two values go in, a third finds no slot, and the cancelled one never shows.
abbrev calls : List (Call ℕ)
calls =
    reserve
    ∷ store 7
    ∷ publish
    ∷ reserve
    ∷ begin
    ∷ store 9
    ∷ cancel
    ∷ finish
    ∷ reserve
    ∷ store 8
    ∷ publish
    ∷ reserve
    ∷ store 6
    ∷ publish
    ∷ reserve
    ∷ store 5
    ∷ begin
    ∷ finish
    ∷ []

passes :
    ((run 0 (start 0 ring) calls).published ≡ 7 ∷ 8 ∷ 6 ∷ [])
    × ((run 0 (start 0 ring) calls).taken ≡ 7 ∷ 8 ∷ [])
    × (contents 0 (run 0 (start 0 ring) calls).threads.ring ≡ 6 ∷ [])
unfolding run read_slot write_through try_reserve_push write_slot publish_push cancel_push
    try_begin_pop finish_pop
passes = (refl, refl, refl)

-- Across the wrap of the positions.
abbrev late : Ring ℕ
late = record ring {
  producer_write_position = 18_446_744_073_709_551_615;
  consumer_read_position = 18_446_744_073_709_551_615;
  published_write_position = 18_446_744_073_709_551_615;
  released_read_position = 18_446_744_073_709_551_615;
}

wraps :
    ((run 0 (start 0 late) calls).taken ≡ 7 ∷ 8 ∷ [])
    × (size (run 0 (start 0 late) calls).threads.ring ≡ 1)
    × (is_full (run 0 (start 0 late) calls).threads.ring ≡ false)
    × (is_empty (run 0 (start 0 late) calls).threads.ring ≡ false)
unfolding run read_slot write_through try_reserve_push write_slot publish_push cancel_push
    try_begin_pop finish_pop size is_full is_empty
wraps = (refl, refl, refl, refl)

created : create 2 0 ≡ ok ring
unfolding create
created = refl

refused : create {A = ℕ} 0 7 ≡ invalid_argument
unfolding create
refused = refl

two-divides : 2 ∣ u64_mod
two-divides = dvd_of_mod-eq-zero 2 refl

late-IsRing : IsRing late
late-IsRing = record {
  divides = two-divides;
  positive = omega arith;
  small = omega arith;
  stored = refl;
  write_in = omega arith;
  read_in = omega arith;
  published = refl;
  released = refl;
  bounded = omega arith;
  room = λ h. omega arith;
  filled = λ h. absurd (cc);
}

run_fifo_example :
    let s = run 0 (start 0 ring) calls in
    (s.published ≡ s.taken ++ contents 0 s.threads.ring) × (length (contents 0 s.threads.ring) ≤ 2)
run_fifo_example = run_fifo 0 2 ring calls two-divides (omega arith) created
