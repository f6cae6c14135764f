-- ===== src/Ring/Schedule.antt =====
-- Producer and consumer of include/app/spsc_ring_buffer.hpp in any interleaving of their calls.
use Prim.Native.Nat.{◌∣◌}
use mathlib.Core.Path.{subst}
use mathlib.Core.List.{append-nil, append_assoc}
use native.Mathlib.Decide.{ℕ_discrete}
use adaptive_fpga.Prelude.{
  ◌⊎◌, ℕ, ◌%◌, ◌<◌, ◌≤◌, ◌≡◌, ◌≢◌, arith, refl, ap, sym, ◌∙◌, List, [], ◌∷◌, ◌++◌, get_or, length,
  Bool, true, false, Option, none, some, length-replicate, Bool-cases, inl, inr, replicate,
}
use adaptive_fpga.Prelude.Words.{u64_mod}
use adaptive_fpga.Ring.Contents.{
  held, producer_holds, consumer_holds, occupied, try_reserve_push_lem, try_begin_pop_lem, IsRing,
  contents, pending, length-values, write_slot_lem, publish_push_lem, cancel_push_lem,
  finish_pop_lem,
}
use adaptive_fpga.Ring.{
  Result, ok, logic_error, invalid_argument, Ring, create, try_reserve_push, write_slot,
  publish_push, cancel_push, try_begin_pop, finish_pop,
}

-- One call of either thread. `store` is the producer's write through the pointer of its reservation.
pub data Call (A : Type 0) : Type 0 where
  reserve publish cancel begin finish : Call A
  store : A → Call A

-- The ring and the slot pointers that the threads hold: what `try_reserve_push` returned to the producer,
-- and what `try_begin_pop` returned to the consumer.
pub record Threads (A : Type 0) : Type 0 where
  pub ring : Ring A
  pub producer_slot : Option ℕ
  pub consumer_slot : Option ℕ

-- The threads after a call, the value that was published and the value that was taken, if any. A call that
-- throws leaves the ring and the pointers alone.
pub record Seen (A : Type 0) : Type 0 where
  pub threads : Threads A
  pub published : List A
  pub taken : List A

module _ {A : Type 0} (d : A) where
  abbrev quiet : Threads A → Seen A
  quiet t = record { threads = t; published = []; taken = [] }

  -- What is read through a pointer.
  unfoldable pub read_slot : Ring A → Option ℕ → List A
  read_slot r (some slot) = get_or r.storage slot d ∷ []
  read_slot r none = []

  -- A write through a pointer. Without one there is nothing to write through.
  unfoldable pub write_through : Ring A → Option ℕ → A → Ring A
  unfolding write_slot
  write_through r (some slot) v = write_slot r slot v
  write_through r none v = r

  abbrev reserve_result : Threads A → Result (Option ℕ × Ring A) → Seen A
  reserve_result t (ok (slot, r)) = quiet (record t { ring = r; producer_slot = slot })
  reserve_result t logic_error = quiet t
  reserve_result t invalid_argument = quiet t

  -- The published value is what the slot holds that the producer wrote to.
  abbrev publish_result : Threads A → Result (Ring A) → Seen A
  publish_result t (ok r) = record {
    threads = record t { ring = r; producer_slot = none };
    published = read_slot t.ring t.producer_slot;
    taken = [];
  }
  publish_result t logic_error = quiet t
  publish_result t invalid_argument = quiet t

  abbrev cancel_result : Threads A → Result (Ring A) → Seen A
  cancel_result t (ok r) = quiet (record t { ring = r; producer_slot = none })
  cancel_result t logic_error = quiet t
  cancel_result t invalid_argument = quiet t

  abbrev begin_result : Threads A → Result (Option ℕ × Ring A) → Seen A
  begin_result t (ok (slot, r)) = quiet (record t { ring = r; consumer_slot = slot })
  begin_result t logic_error = quiet t
  begin_result t invalid_argument = quiet t

  -- The taken value is what the consumer reads through its pointer before it gives the slot back.
  abbrev finish_result : Threads A → Result (Ring A) → Seen A
  finish_result t (ok r) = record {
    threads = record t { ring = r; consumer_slot = none };
    published = [];
    taken = read_slot t.ring t.consumer_slot;
  }
  finish_result t logic_error = quiet t
  finish_result t invalid_argument = quiet t

  unfoldable pub step : Threads A → Call A → Seen A
  unfolding read_slot write_through
  step t reserve = reserve_result t (try_reserve_push t.ring)
  step t publish = publish_result t (publish_push t.ring)
  step t cancel = cancel_result t (cancel_push t.ring)
  step t begin = begin_result t (try_begin_pop t.ring)
  step t finish = finish_result t (finish_pop t.ring)
  step t (store v) = quiet (record t { ring = write_through t.ring t.producer_slot v })

  -- Each thread's pointer is to the slot at its position, while it holds one.
  record IsThreads (t : Threads A) : Type 0 where
    is_ring : IsRing t.ring
    writes : t.producer_slot ≡ producer_holds d t.ring
    reads : t.consumer_slot ≡ consumer_holds d t.ring

  -- A step keeps the invariant and the capacity, and moves values through the ring in order.
  record Flows (t : Threads A) (s : Seen A) : Type 0 where
    valid : IsThreads s.threads
    same_capacity : s.threads.ring.capacity ≡ t.ring.capacity
    in_order : contents d t.ring ++ s.published ≡ s.taken ++ contents d s.threads.ring

  quiet-Flows :
      (t t' : Threads A)
      → IsThreads t'
      → t'.ring.capacity ≡ t.ring.capacity
      → contents d t'.ring ≡ contents d t.ring
      → Flows t (quiet t')
  quiet-Flows t t' v c e = record {
    valid = v;
    same_capacity = c;
    in_order = append-nil (contents d t.ring) ∙ sym e;
  }

  unchanged : (t : Threads A) → IsThreads t → Flows t (quiet t)
  unchanged t v = quiet-Flows t t v refl refl

  reserve-Flows : (t : Threads A) → IsThreads t → Flows t (step t reserve)
  unfolding step
  reserve-Flows t v =
      let p = try_reserve_push_lem d t.ring v.is_ring in
      elim (Bool-cases t.ring.producer_has_reservation) [
        | inl h ↦ rw (p.0 h) (unchanged t v)
        | inr h ↦ elim (ℕ_discrete (length (contents d t.ring)) t.ring.capacity) [
          | yes full ↦ rw (p.1 h full) (
              quiet-Flows t (record t { producer_slot = none })
                (record { is_ring = v.is_ring; writes = rw h refl; reads = v.reads }) refl refl)
          | no space ↦
              let q = p.2 h space in
              let r' = record t.ring { producer_has_reservation = true } in
              let slot = some (t.ring.producer_write_position % t.ring.capacity) in
              rw q.0 (
                quiet-Flows t (record t { ring = r'; producer_slot = slot })
                  (record { is_ring = q.1; writes = refl; reads = v.reads }) refl refl)
        ]
      ]

  empty-cases : (xs : List A) → (xs ≡ []) ⊎ (xs ≢ [])
  empty-cases [] = inl refl
  empty-cases (x ∷ xs) = inr (λ e. cc)

  begin-Flows : (t : Threads A) → IsThreads t → Flows t (step t begin)
  unfolding step
  begin-Flows t v =
      let p = try_begin_pop_lem d t.ring v.is_ring in
      elim (Bool-cases t.ring.consumer_has_value) [
        | inl h ↦ rw (p.0 h) (unchanged t v)
        | inr h ↦ elim (empty-cases (contents d t.ring)) [
          | inl none_left ↦ rw (p.1 h none_left) (
              quiet-Flows t (record t { consumer_slot = none })
                (record { is_ring = v.is_ring; writes = v.writes; reads = rw h refl }) refl refl)
          | inr some_left ↦
              let q = p.2 h some_left in
              let r' = record t.ring { consumer_has_value = true } in
              let slot = some (t.ring.consumer_read_position % t.ring.capacity) in
              rw q.0 (
                quiet-Flows t (record t { ring = r'; consumer_slot = slot })
                  (record { is_ring = q.1; writes = v.writes; reads = refl }) refl refl)
        ]
      ]

  cancel-Flows : (t : Threads A) → IsThreads t → Flows t (step t cancel)
  unfolding step
  cancel-Flows t v = elim (Bool-cases t.ring.producer_has_reservation) [
    | inl h ↦
        let p = (cancel_push_lem d t.ring v.is_ring).1 h in
        rw p.1 (
          quiet-Flows t (record t { ring = p.0; producer_slot = none })
            (record { is_ring = p.2; writes = sym p.5; reads = v.reads ∙ sym p.6 }) p.4 p.3)
    | inr h ↦ rw ((cancel_push_lem d t.ring v.is_ring).0 h) (unchanged t v)
  ]

  store-Flows : (t : Threads A) (x : A) → IsThreads t → Flows t (step t (store x))
  unfolding step write_slot
  store-Flows t x v = elim (Bool-cases t.ring.producer_has_reservation) [
    | inl h ↦
        let slot = t.ring.producer_write_position % t.ring.capacity in
        let p = write_slot_lem d t.ring x v.is_ring h in
        through (write_slot t.ring slot x) (ap (λ s. write_through t.ring s x) (mine true h)) p.0
          v.writes v.reads refl p.1
    | inr h ↦
        through t.ring (ap (λ s. write_through t.ring s x) (mine false h)) v.is_ring v.writes
          v.reads refl refl
  ]
    where
      mine :
          (b : Bool)
          → t.ring.producer_has_reservation ≡ b
          → t.producer_slot ≡ held d b (t.ring.producer_write_position % t.ring.capacity)
      mine b h = v.writes ∙ ap (λ c. held d c (t.ring.producer_write_position % t.ring.capacity)) h

      through :
          (r : Ring A)
          → write_through t.ring t.producer_slot x ≡ r
          → IsRing r
          → t.producer_slot ≡ producer_holds d r
          → t.consumer_slot ≡ consumer_holds d r
          → r.capacity ≡ t.ring.capacity
          → contents d r ≡ contents d t.ring
          → Flows t (quiet (record t { ring = write_through t.ring t.producer_slot x }))
      through r e valid writes reads c same =
          subst (λ q. Flows t (quiet (record t { ring = q }))) (sym e)
            (quiet-Flows t (record t { ring = r })
              (record { is_ring = valid; writes = writes; reads = reads }) c same)

  publish-Flows : (t : Threads A) → IsThreads t → Flows t (step t publish)
  unfolding step read_slot
  publish-Flows t v = elim (Bool-cases t.ring.producer_has_reservation) [
    | inl h ↦
        let p = (publish_push_lem d t.ring v.is_ring).1 h in
        let read : read_slot t.ring t.producer_slot ≡ pending d t.ring ∷ [] =
          ap (read_slot t.ring) v.writes
          ∙ ap (λ c. read_slot t.ring (held d c (t.ring.producer_write_position % t.ring.capacity)))
              h in
        rw (p.1, read)
          (record {
            valid = record { is_ring = p.2; writes = sym p.5; reads = v.reads ∙ sym p.6 };
            same_capacity = p.4;
            in_order = sym p.3;
          })
    | inr h ↦ rw ((publish_push_lem d t.ring v.is_ring).0 h) (unchanged t v)
  ]

  finish-Flows : (t : Threads A) → IsThreads t → Flows t (step t finish)
  unfolding step read_slot
  finish-Flows t v = elim (Bool-cases t.ring.consumer_has_value) [
    | inl h ↦
        let p = (finish_pop_lem d t.ring v.is_ring).1 h in
        let slot = t.ring.consumer_read_position % t.ring.capacity in
        let read : read_slot t.ring t.consumer_slot ≡ get_or t.ring.storage slot d ∷ [] =
          ap (read_slot t.ring) v.reads ∙ ap (λ c. read_slot t.ring (held d c slot)) h in
        rw (p.1, read)
          (record {
            valid = record { is_ring = p.2; writes = v.writes ∙ sym p.6; reads = sym p.5 };
            same_capacity = p.4;
            in_order = append-nil (contents d t.ring) ∙ p.3;
          })
    | inr h ↦ rw ((finish_pop_lem d t.ring v.is_ring).0 h) (unchanged t v)
  ]

  step-Flows : (t : Threads A) (c : Call A) → IsThreads t → Flows t (step t c)
  step-Flows t reserve v = reserve-Flows t v
  step-Flows t publish v = publish-Flows t v
  step-Flows t cancel v = cancel-Flows t v
  step-Flows t begin v = begin-Flows t v
  step-Flows t finish v = finish-Flows t v
  step-Flows t (store x) v = store-Flows t x v

  -- The calls of both threads, in the order in which they take effect.
  unfoldable pub run : Threads A → List (Call A) → Seen A
  unfolding step
  run t [] = quiet t
  run t (c ∷ calls) =
      let s = step t c in
      let rest = run s.threads calls in
      record {
        threads = rest.threads;
        published = s.published ++ rest.published;
        taken = s.taken ++ rest.taken;
      }

  run-Flows : (t : Threads A) (calls : List (Call A)) → IsThreads t → Flows t (run t calls)
  unfolding run
  run-Flows t [] v = unchanged t v
  run-Flows t (c ∷ calls) v =
      let f = step-Flows t c v in
      let s = step t c in
      let g = run-Flows s.threads calls f.valid in
      let rest = run s.threads calls in
      record {
        valid = g.valid;
        same_capacity = g.same_capacity ∙ f.same_capacity;
        in_order =
            sym (append_assoc (contents d t.ring) s.published rest.published)
            ∙ ap (λ l. l ++ rest.published) f.in_order
            ∙ append_assoc s.taken (contents d s.threads.ring) rest.published
            ∙ ap (λ l. s.taken ++ l) g.in_order
            ∙ sym (append_assoc s.taken rest.taken (contents d rest.threads.ring));
      }

  abbrev pub fresh : ℕ → Ring A
  fresh capacity = record {
    capacity = capacity;
    storage = replicate capacity d;
    producer_write_position = 0;
    consumer_read_position = 0;
    producer_has_reservation = false;
    consumer_has_value = false;
    published_write_position = 0;
    released_read_position = 0;
  }

  -- Before the first call no thread holds a pointer.
  abbrev pub start : Ring A → Threads A
  start r = record { ring = r; producer_slot = none; consumer_slot = none }

  create-cases :
      (capacity : ℕ) (r : Ring A) → create capacity d ≡ ok r → (0 < capacity) × (fresh capacity ≡ r)
  unfolding create
  create-cases capacity r e = (ground arith, ground arith)

  create-IsRing :
      (capacity : ℕ) (r : Ring A)
      → capacity ∣ u64_mod
      → capacity < u64_mod
      → create capacity d ≡ ok r
      → IsRing r
        × (contents d r ≡ [])
        × (r.capacity ≡ capacity)
        × (none ≡ producer_holds d r)
        × (none ≡ consumer_holds d r)
  create-IsRing capacity r divides small e =
      let c = create-cases capacity r e in
      subst
        (λ t.
          IsRing t
          × (contents d t ≡ [])
          × (t.capacity ≡ capacity)
          × (none ≡ producer_holds d t)
          × (none ≡ consumer_holds d t))
        c.1
        (
          record {
            divides = divides;
            positive = c.0;
            small = small;
            stored = length-replicate capacity d;
            write_in = omega arith;
            read_in = omega arith;
            published = refl;
            released = refl;
            bounded = omega arith;
            room = λ h. cc;
            filled = λ h. cc;
          },
          refl,
          refl,
          refl,
          refl,
        )

  -- For a capacity that divides 2^64, however the calls of the two threads interleave and however
  -- often the positions wrap: the values taken are the values published, in order and each once, up
  -- to those still in the ring, and these are never more than the capacity. What is stored and
  -- taken goes through the slots that `try_reserve_push` and `try_begin_pop` returned.
  pub run_fifo :
      (capacity : ℕ) (r : Ring A) (calls : List (Call A))
      → capacity ∣ u64_mod
      → capacity < u64_mod
      → create capacity d ≡ ok r
      → let s = run (start r) calls in
        (s.published ≡ s.taken ++ contents d s.threads.ring)
        × (length (contents d s.threads.ring) ≤ capacity)
  run_fifo capacity r calls divides small e =
      let c = create-IsRing capacity r divides small e in
      let f = run-Flows (start r) calls (record { is_ring = c.0; writes = c.3; reads = c.4 }) in
      let s = run (start r) calls in
      (
        ap (λ l. l ++ s.published) (sym c.1) ∙ f.in_order,
        omega (
          arith,
          f.valid.is_ring.bounded,
          f.same_capacity,
          c.2,
          length-values d s.threads.ring.storage s.threads.ring.capacity
              s.threads.ring.consumer_read_position (occupied s.threads.ring),
        ),
      )
