-- ===== src/Ring/Positions.antt =====
-- Slot indices of include/app/spsc_ring_buffer.hpp under the wrap of its 64-bit positions.
use Prim.Native.Nat.{◌∣◌}
use native.Mathlib.Nat.{mod-mod_of_dvd}
use adaptive_fpga.Prelude.{ℕ, ◌+◌, ◌%◌, ◌<◌, ◌≡◌, ◌≢◌, arith}
use adaptive_fpga.Prelude.Words.{u64_mod, add_u64}

-- If the capacity divides 2^64, the slot after position 2^64 - 1 is the one of position 0.
pub add_u64-mod :
    (capacity position : ℕ)
    → capacity ∣ u64_mod
    → add_u64 position 1 % capacity ≡ (position + 1) % capacity
add_u64-mod capacity position d = mod-mod_of_dvd capacity (position + 1) d

-- Positions less than a capacity apart have different slots.
pub slots_differ : (capacity p k : ℕ) → 0 < k → k < capacity → (p + k) % capacity ≢ p % capacity
slots_differ capacity p k h0 h e = grind arith
