-- ===== src/Ring.antt =====
-- include/app/spsc_ring_buffer.hpp: the bounded ring between one producer and one consumer. A slot
-- pointer is the slot's index, a null pointer is `none`, and each member function is one step: it
-- makes at most one access to a position of the other thread. Positions are uint64_t and wrap.
pub mod Positions
pub mod Contents
pub mod Schedule
mod Tests
use adaptive_fpga.Prelude.{
  ℕ, ◌+◌, ◌%◌, Bool, true, false, not, List, Option, none, some, leb, ◌==◌, if◌then◌else◌, get_or,
  set, replicate,
}
use adaptive_fpga.Prelude.Words.{add_u64, sub_u64}

-- What a member function returns or throws.
pub data Result {ℓ} (A : Type ℓ) : Type ℓ where
  ok : A → Result A
  logic_error invalid_argument : Result A

pub record Ring (A : Type 0) : Type 0 where
  pub capacity : ℕ
  pub storage : List A
  pub producer_write_position : ℕ
  pub consumer_read_position : ℕ
  pub producer_has_reservation : Bool
  pub consumer_has_value : Bool
  pub published_write_position : ℕ
  pub released_read_position : ℕ

module _ {A : Type 0} where
  -- The constructor. The storage holds value-initialised elements.
  unfoldable pub create : ℕ → A → Result (Ring A)
  create capacity initial =
      if capacity == 0
      then invalid_argument
      else ok (record {
        capacity = capacity;
        storage = replicate capacity initial;
        producer_write_position = 0;
        consumer_read_position = 0;
        producer_has_reservation = false;
        consumer_has_value = false;
        published_write_position = 0;
        released_read_position = 0;
      })

  unfoldable pub try_reserve_push : Ring A → Result (Option ℕ × Ring A)
  try_reserve_push r =
      if r.producer_has_reservation
      then logic_error
      else if leb r.capacity (sub_u64 r.producer_write_position r.released_read_position)
      then ok (none, r)
      else ok (
        some (r.producer_write_position % r.capacity),
        record r { producer_has_reservation = true },
      )

  -- What the producer does through the pointer that it was given.
  unfoldable pub write_slot : Ring A → ℕ → A → Ring A
  write_slot r slot value = record r { storage = set r.storage slot value }

  unfoldable pub publish_push : Ring A → Result (Ring A)
  publish_push r =
      if not r.producer_has_reservation
      then logic_error
      else ok (record r {
        producer_has_reservation = false;
        producer_write_position = add_u64 r.producer_write_position 1;
        published_write_position = add_u64 r.producer_write_position 1;
      })

  unfoldable pub cancel_push : Ring A → Result (Ring A)
  cancel_push r =
      if not r.producer_has_reservation
      then logic_error
      else ok (record r { producer_has_reservation = false })

  unfoldable pub try_begin_pop : Ring A → Result (Option ℕ × Ring A)
  try_begin_pop r =
      if r.consumer_has_value
      then logic_error
      else if r.consumer_read_position == r.published_write_position
      then ok (none, r)
      else ok (some (r.consumer_read_position % r.capacity), record r { consumer_has_value = true })

  unfoldable pub finish_pop : Ring A → Result (Ring A)
  finish_pop r =
      if not r.consumer_has_value
      then logic_error
      else ok (record r {
        consumer_has_value = false;
        consumer_read_position = add_u64 r.consumer_read_position 1;
        released_read_position = add_u64 r.consumer_read_position 1;
      })

  unfoldable pub is_empty : Ring A → Bool
  is_empty r = r.released_read_position == r.published_write_position

  unfoldable pub is_full : Ring A → Bool
  is_full r = leb r.capacity (sub_u64 r.published_write_position r.released_read_position)

  unfoldable pub size : Ring A → ℕ
  size r = sub_u64 r.published_write_position r.released_read_position
