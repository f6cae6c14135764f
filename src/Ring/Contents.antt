-- ===== src/Ring/Contents.antt =====
-- The values in the ring of include/app/spsc_ring_buffer.hpp, oldest first, and what each member
-- function does to them.
use Prim.Native.Nat.{◌∣◌}
use native.Mathlib.Nat.{mod-lt, mod-add-mod, mod-mod_of_dvd}
use adaptive_fpga.Prelude.{
  Bool, Option, ℕ, zero, suc, ◌+◌, ◌-◌, ◌%◌, ◌<◌, ◌≤◌, ◌≡◌, ◌≢◌, arith, refl, ap, ap₂, sym, ◌∙◌,
  List, [], ◌∷◌, ◌++◌, get_or, set, length, length-set, get_or-set_self, get_or-set_ne, true, false,
  none, some,
}
use adaptive_fpga.Prelude.Words.{u64_mod, add_u64, sub_u64}
use adaptive_fpga.Ring.Positions.{add_u64-mod, slots_differ}
use adaptive_fpga.Ring.{
  ok, logic_error, Ring, try_reserve_push, write_slot, publish_push, cancel_push, try_begin_pop,
  finish_pop,
}

module _ {A : Type 0} where
  -- The number of published unread values.
  abbrev pub occupied : Ring A → ℕ
  occupied r = sub_u64 r.producer_write_position r.consumer_read_position

  -- The ring between two calls.
  pub record IsRing (r : Ring A) : Type 0 where
    pub divides : r.capacity ∣ u64_mod
    pub positive : 0 < r.capacity
    pub small : r.capacity < u64_mod
    pub stored : length r.storage ≡ r.capacity
    pub write_in : r.producer_write_position < u64_mod
    pub read_in : r.consumer_read_position < u64_mod
    pub published : r.published_write_position ≡ r.producer_write_position
    pub released : r.released_read_position ≡ r.consumer_read_position
    pub bounded : occupied r ≤ r.capacity
    pub room : r.producer_has_reservation ≡ true → occupied r < r.capacity
    pub filled : r.consumer_has_value ≡ true → 0 < occupied r

  module _ (d : A) where
    -- The `n` values from the position on.
    abbrev pub values : List A → ℕ → ℕ → ℕ → List A
    values storage capacity position zero = []
    values storage capacity position (suc n) =
        get_or storage (position % capacity) d ∷ values storage capacity (position + 1) n

    abbrev pub contents : Ring A → List A
    contents r = values r.storage r.capacity r.consumer_read_position (occupied r)

    pub length-values :
        (storage : List A) (capacity position n : ℕ)
        → length (values storage capacity position n) ≡ n
    length-values storage capacity position zero = refl
    length-values storage capacity position (suc n) =
        ap suc (length-values storage capacity (position + 1) n)

    -- Only the position's slot matters.
    values_mod :
        (storage : List A) (capacity p q n : ℕ)
        → p % capacity ≡ q % capacity
        → values storage capacity p n ≡ values storage capacity q n
    values_mod storage capacity p q zero e = refl
    values_mod storage capacity p q (suc n) e = ap₂ ◌∷◌ (ap (λ (i : ℕ). get_or storage i d) e) (
        values_mod storage capacity (p + 1) (q + 1) n (
          sym (mod-add-mod p capacity 1)
          ∙ ap (λ (i : ℕ). (i + 1) % capacity) e
          ∙ mod-add-mod q capacity 1))

    -- A write to a slot behind the values leaves them alone.
    values-set :
        (storage : List A) (capacity position n j i : ℕ) (v : A)
        → n ≤ j
        → j < capacity
        → i ≡ (position + j) % capacity
        → values (set storage i v) capacity position n ≡ values storage capacity position n
    values-set storage capacity position zero j i v h k e = refl
    values-set storage capacity position (suc n) j i v h k e =
        ap₂ ◌∷◌
          (get_or-set_ne storage v d
            (λ same. slots_differ capacity position j (omega arith) k (sym e ∙ same)))
          (values-set storage capacity (position + 1) n (j - 1) i v (omega arith) (omega arith)
            (e ∙ ap (λ (m : ℕ). m % capacity) (omega arith)))

    values-snoc :
        (storage : List A) (capacity position n : ℕ)
        → values storage capacity position (suc n)
          ≡ values storage capacity position n
            ++ (get_or storage ((position + n) % capacity) d ∷ [])
    values-snoc storage capacity position zero =
        ap (λ (m : ℕ). get_or storage (m % capacity) d ∷ []) (omega arith)
    values-snoc storage capacity position (suc n) =
        ap (λ t. get_or storage (position % capacity) d ∷ t)
          (values-snoc storage capacity (position + 1) n
            ∙ ap
                (λ (m : ℕ).
                  values storage capacity (position + 1) n
                  ++ (get_or storage (m % capacity) d ∷ []))
                (omega arith))

    -- The slot that the producer writes next stands behind the values.
    write_position :
        {r : Ring A}
        → IsRing r
        → r.producer_write_position % r.capacity
          ≡ (r.consumer_read_position + occupied r) % r.capacity
    write_position {r} v =
        ap (λ (m : ℕ). m % r.capacity) (omega (arith, v.write_in, v.read_in))
        ∙ mod-mod_of_dvd r.capacity (r.consumer_read_position + occupied r) v.divides

    -- What the reserved slot holds.
    abbrev pub pending : Ring A → A
    pending r = get_or r.storage (r.producer_write_position % r.capacity) d

    -- The slot that a thread holds a pointer to, if any.
    abbrev pub held : Bool → ℕ → Option ℕ
    held true slot = some slot
    held false slot = none

    abbrev pub producer_holds : Ring A → Option ℕ
    producer_holds r = held r.producer_has_reservation (r.producer_write_position % r.capacity)

    abbrev pub consumer_holds : Ring A → Option ℕ
    consumer_holds r = held r.consumer_has_value (r.consumer_read_position % r.capacity)

    -- `try_reserve_push` fails only on a second reservation; it returns no slot exactly on a full ring,
    -- and otherwise the slot that `publish_push` will publish.
    pub try_reserve_push_lem :
        (r : Ring A)
        → IsRing r
        → (r.producer_has_reservation ≡ true → try_reserve_push r ≡ logic_error)
          × (r.producer_has_reservation ≡ false
              → length (contents r) ≡ r.capacity
              → try_reserve_push r ≡ ok (none, r))
          × (r.producer_has_reservation ≡ false
              → length (contents r) ≢ r.capacity
              → let r' = record r { producer_has_reservation = true } in
                (try_reserve_push r ≡ ok (some (r.producer_write_position % r.capacity), r'))
                × IsRing r')
    unfolding try_reserve_push
    try_reserve_push_lem r v =
        let n = length-values r.storage r.capacity r.consumer_read_position (occupied r) in
        (
          λ h. rw h refl,
          λ h full. ground (arith, n),
          λ h space. (ground (arith, n), ground (arith, n)),
        )

    -- A write through the reserved slot shows in that slot alone: the values stay what they were.
    pub write_slot_lem :
        (r : Ring A) (v : A)
        → IsRing r
        → r.producer_has_reservation ≡ true
        → let r' = write_slot r (r.producer_write_position % r.capacity) v in
          IsRing r' × (contents r' ≡ contents r) × (pending r' ≡ v)
    unfolding write_slot
    write_slot_lem r v h reserved =
        let slot = r.producer_write_position % r.capacity in
        (
          ground (arith, length-set r.storage slot v),
          values-set r.storage r.capacity r.consumer_read_position (occupied r) (occupied r) slot v
              (omega arith) (h.room reserved) (write_position h),
          get_or-set_self r.storage slot v d
              (omega (arith, mod-lt r.producer_write_position h.positive)),
        )

    count_published :
        (w c r : ℕ)
        → w < u64_mod
        → r < u64_mod
        → sub_u64 w r < c
        → c < u64_mod
        → sub_u64 (add_u64 w 1) r ≡ suc (sub_u64 w r)
    count_published w c r hw hr h k = omega arith

    count_released :
        (w r : ℕ)
        → w < u64_mod
        → r < u64_mod
        → 0 < sub_u64 w r
        → sub_u64 w r ≡ suc (sub_u64 w (add_u64 r 1))
    count_released w r hw hr h = omega arith

    -- `publish_push` fails exactly without a reservation; else it appends the reserved slot's value.
    pub publish_push_lem :
        (r : Ring A)
        → IsRing r
        → (r.producer_has_reservation ≡ false → publish_push r ≡ logic_error)
          × (r.producer_has_reservation ≡ true
              → (r' : Ring A) × (publish_push r ≡ ok r')
                × IsRing r'
                × (contents r' ≡ contents r ++ (pending r ∷ []))
                × (r'.capacity ≡ r.capacity)
                × (producer_holds r' ≡ none)
                × (consumer_holds r' ≡ consumer_holds r))
    unfolding publish_push
    publish_push_lem r v =
        (λ h. rw h refl, λ h. (after, rw h refl, valid h, appended h, refl, refl, refl))
      where
        after : Ring A
        after = record r {
          producer_has_reservation = false;
          producer_write_position = add_u64 r.producer_write_position 1;
          published_write_position = add_u64 r.producer_write_position 1;
        }

        count : r.producer_has_reservation ≡ true → occupied after ≡ suc (occupied r)
        count h =
            count_published r.producer_write_position r.capacity r.consumer_read_position v.write_in
              v.read_in (v.room h) v.small

        valid : r.producer_has_reservation ≡ true → IsRing after
        valid h = ground (arith, count h, v.room h)

        appended :
            r.producer_has_reservation ≡ true → contents after ≡ contents r ++ (pending r ∷ [])
        appended h =
            ap (λ (n : ℕ). values r.storage r.capacity r.consumer_read_position n) (count h)
            ∙ values-snoc r.storage r.capacity r.consumer_read_position (occupied r)
            ∙ ap (λ (i : ℕ). contents r ++ (get_or r.storage i d ∷ [])) (sym (write_position v))

    -- `cancel_push` fails exactly without a reservation; else the values are what they were.
    pub cancel_push_lem :
        (r : Ring A)
        → IsRing r
        → (r.producer_has_reservation ≡ false → cancel_push r ≡ logic_error)
          × (r.producer_has_reservation ≡ true
              → (r' : Ring A) × (cancel_push r ≡ ok r')
                × IsRing r'
                × (contents r' ≡ contents r)
                × (r'.capacity ≡ r.capacity)
                × (producer_holds r' ≡ none)
                × (consumer_holds r' ≡ consumer_holds r))
    unfolding cancel_push
    cancel_push_lem r v = (
      λ h. rw h refl,
      λ h. (
        record r { producer_has_reservation = false },
        rw h refl,
        ground arith,
        refl,
        refl,
        refl,
        refl,
      ),
    )

    values_pos :
        (storage : List A) (capacity position n : ℕ)
        → 0 < n
        → values storage capacity position n
          ≡ get_or storage (position % capacity) d ∷ values storage capacity (position + 1) (n - 1)
    values_pos storage capacity position zero h = absurd (omega arith)
    values_pos storage capacity position (suc n) h =
        ap
          (λ (m : ℕ).
            get_or storage (position % capacity) d ∷ values storage capacity (position + 1) m)
          (omega arith)

    -- `try_begin_pop` fails only on a second active slot; it returns no slot exactly on an empty ring,
    -- and otherwise the slot of the oldest value.
    pub try_begin_pop_lem :
        (r : Ring A)
        → IsRing r
        → (r.consumer_has_value ≡ true → try_begin_pop r ≡ logic_error)
          × (r.consumer_has_value ≡ false → contents r ≡ [] → try_begin_pop r ≡ ok (none, r))
          × (r.consumer_has_value ≡ false
              → contents r ≢ []
              → let slot = r.consumer_read_position % r.capacity in
                let r' = record r { consumer_has_value = true } in
                (try_begin_pop r ≡ ok (some slot, r'))
                × IsRing r'
                × ((rest : List A) × (contents r ≡ get_or r.storage slot d ∷ rest)))
    unfolding try_begin_pop
    try_begin_pop_lem r v = (
      λ h. rw h refl,
      λ h none_left. ground (arith, n, v.write_in, v.read_in, ap length none_left),
      λ h some_left.
          let some_left' = nonempty (occupied r) some_left in
          (
            ground (arith, v.write_in, v.read_in, some_left'),
            ground (arith, some_left'),
            (
              values r.storage r.capacity (r.consumer_read_position + 1) (occupied r - 1),
              values_pos r.storage r.capacity r.consumer_read_position (occupied r) some_left',
            ),
          ),
    )
      where
        n : length (contents r) ≡ occupied r
        n = length-values r.storage r.capacity r.consumer_read_position (occupied r)

        nonempty : (k : ℕ) → values r.storage r.capacity r.consumer_read_position k ≢ [] → 0 < k
        nonempty zero h = absurd (h refl)
        nonempty (suc k) h = omega arith

    -- `finish_pop` fails exactly without an active slot; else it takes the oldest value off.
    pub finish_pop_lem :
        (r : Ring A)
        → IsRing r
        → (r.consumer_has_value ≡ false → finish_pop r ≡ logic_error)
          × (r.consumer_has_value ≡ true
              → (r' : Ring A) × (finish_pop r ≡ ok r')
                × IsRing r'
                × (contents r
                    ≡ get_or r.storage (r.consumer_read_position % r.capacity) d ∷ contents r')
                × (r'.capacity ≡ r.capacity)
                × (consumer_holds r' ≡ none)
                × (producer_holds r' ≡ producer_holds r))
    unfolding finish_pop
    finish_pop_lem r v =
        (λ h. rw h refl, λ h. (after, rw h refl, valid h, taken h, refl, refl, refl))
      where
        after : Ring A
        after = record r {
          consumer_has_value = false;
          consumer_read_position = add_u64 r.consumer_read_position 1;
          released_read_position = add_u64 r.consumer_read_position 1;
        }

        count : r.consumer_has_value ≡ true → occupied r ≡ suc (occupied after)
        count h =
            count_released r.producer_write_position r.consumer_read_position v.write_in v.read_in
              (v.filled h)

        valid : r.consumer_has_value ≡ true → IsRing after
        valid h = ground (arith, count h)

        taken :
            r.consumer_has_value ≡ true
            → contents r
              ≡ get_or r.storage (r.consumer_read_position % r.capacity) d ∷ contents after
        taken h =
            ap (λ (n : ℕ). values r.storage r.capacity r.consumer_read_position n) (count h)
            ∙ ap (λ t. get_or r.storage (r.consumer_read_position % r.capacity) d ∷ t)
                (values_mod r.storage r.capacity (r.consumer_read_position + 1)
                  (add_u64 r.consumer_read_position 1) (occupied after)
                  (sym (add_u64-mod r.capacity r.consumer_read_position v.divides)))
