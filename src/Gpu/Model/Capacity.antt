-- ===== src/Gpu/Model/Capacity.antt =====
-- src/gpu/gpu_model.cpp: the streaming buffers and `stream_capacity_rows`.
use mathlib.Core.Path.{subst}
use adaptive_fpga.Prelude.{
  ◌∷◌, ◌∙◌, ℕ, ◌<◌, ◌≤◌, ◌≡◌, refl, ap, arith, leb→le, ltb, leb, ◌==◌, Bool, true, false, ◌⊎◌, inl,
  inr, ◌*◌, ◌%◌, ◌/◌,
}
use adaptive_fpga.Gpu.Model.{
  OpenCl, Impl, StreamBuffers, Call, returned, ◌>>◌, give, fail, enqueue, check_opencl, refuse_if,
  cannot_resize, record_call, ◌>>=◌, resume, modify, settle, is_zero, create_buffer,
  stream_input_buffer, List, write_buffer, stream_update_buffer, Exit, stream_metrics_buffer, threw,
  stream_correct_buffer, stream_loss_buffer, stream_gradient_buffer, stream_label_buffer,
}
use adaptive_fpga.Gpu.Model.Rules.{
  After, Triple, then_triple, enqueue_triple, refuse_triple, modify_triple, read_triple,
}
use adaptive_fpga.Gpu.Model.Device.{no_buffers}
use adaptive_fpga.Gpu.Model.Stream.{
  is_active, release_stream_buffers, initialise_values, replace_stream_buffers, grow_stream,
  ensure_stream_capacity,
}

abbrev pub all_buffers : StreamBuffers
all_buffers = record {
  input = true;
  label = true;
  update = true;
  gradient = true;
  loss = true;
  correct = true;
  metrics = true;
}

abbrev Nothing : Impl → Type 0
Nothing s = Unit {0}

abbrev Logged : List Call → Impl → Type 0
Logged calls s = s.calls ≡ calls

-- These buffers exist, after these calls.
abbrev At : StreamBuffers → List Call → Impl → Type 0
At b calls s = (s.buffers ≡ b) × (s.calls ≡ calls)

-- The buffers of a resize, newest first, for so many rows of eight int32_t values: an int32_t per value
-- and per label, an int64_t per value for the gradient and per row for the loss, an int32_t per row for
-- the accuracy, three int64_t metrics, and the ten values of the update, which are then written.
abbrev pub resized : ℕ → ℕ → List Call → List Call
resized rows gradient_bytes calls =
    write_buffer stream_update_buffer
    ∷ create_buffer stream_metrics_buffer 24
    ∷ create_buffer stream_correct_buffer (rows * 4)
    ∷ create_buffer stream_loss_buffer (rows * 8)
    ∷ create_buffer stream_gradient_buffer gradient_bytes
    ∷ create_buffer stream_update_buffer 40
    ∷ create_buffer stream_label_buffer (rows * 4)
    ∷ create_buffer stream_input_buffer (rows * 32)
    ∷ calls

-- The buffers that a resize leaves.
abbrev Holds : ℕ → List Call → Impl → Type 0
Holds rows calls s =
    (s.buffers ≡ all_buffers)
    × (s.stream_capacity_rows ≡ rows)
    × (s.calls ≡ resized rows (rows * 32 * 8 % 18_446_744_073_709_551_616 / 4) calls)

-- From `s` to `s'`, either there was room and nothing changed, or all buffers are new.
abbrev Ensured : ℕ → Impl → Impl → Type 0
Ensured rows s s' =
    (s'.buffers ≡ all_buffers)
    × (rows ≤ s'.stream_capacity_rows)
    × (rows ≤ s.stream_capacity_rows → s' ≡ s)
    × (s.stream_capacity_rows < rows
        → rows < 72_057_594_037_927_936
        → (s'.stream_capacity_rows ≡ rows) × (s'.calls ≡ resized rows (rows * 64) s.calls))

module _ (cl : OpenCl) where
  create :
      (b : StreamBuffers) (calls : List Call) (action : Call)
      (put : Bool → StreamBuffers → StreamBuffers)
      → Triple
          (At b calls)
          (λ u. At (put true b) (action ∷ calls))
          Nothing
          (enqueue cl action (λ ok s. record s { buffers = put ok s.buffers }))
  unfolding record_call
  create b calls action put =
      enqueue_triple cl action _ (λ s p. (ap (put true) p.0, ap (λ l. action ∷ l) p.1)) (λ s p. tt)

  check_buffers :
      (b : StreamBuffers) (calls : List Call) (action : Call)
      → Triple (At b calls) (λ u. At b (action ∷ calls)) Nothing (check_opencl cl action)
  unfolding check_opencl record_call
  check_buffers b calls action =
      enqueue_triple cl action _ (λ s p. (p.0, ap (λ l. action ∷ l) p.1)) (λ s p. tt)

  replace_stream_buffers-Holds :
      (rows : ℕ) (c : List Call)
      → Triple (Logged c) (λ u. Holds rows c) Nothing (replace_stream_buffers cl rows)
  unfolding replace_stream_buffers release_stream_buffers initialise_values
  replace_stream_buffers-Holds rows c =
      then_triple _ _ (refuse_triple {R = Logged c} _ _ (λ t s p. tt) (λ t s p. p)) (
        then_triple _ _ (modify_triple {R = At no_buffers c} _ (λ s p. (refl, p))) (
          then_triple _ _ (create no_buffers c _ (λ ok b. record b { input = ok })) (
            then_triple _ _ (create _ _ _ (λ ok b. record b { label = ok })) (
              then_triple _ _ (create _ _ _ (λ ok b. record b { update = ok })) (
                then_triple _ _ (create _ _ _ (λ ok b. record b { gradient = ok })) (
                  then_triple _ _ (create _ _ _ (λ ok b. record b { loss = ok })) (
                    then_triple _ _ (create _ _ _ (λ ok b. record b { correct = ok })) (
                      then_triple _ _ (create _ _ _ (λ ok b. record b { metrics = ok })) (
                        then_triple _ _ (modify_triple {R = At all_buffers _} _ (λ s p. p)) (
                          then_triple _ _ (check_buffers all_buffers _ _)
                            (modify_triple _ (λ s p. (p.0, refl, p.1)))))))))))))

  grow_stream-Holds :
      (rows : ℕ) (c : List Call)
      → Triple (Logged c) (λ u. Holds rows c) Nothing (grow_stream cl rows)
  unfolding grow_stream
  grow_stream-Holds rows c =
      read_triple is_active (λ x. refuse_if x cannot_resize >> replace_stream_buffers cl rows)
        (λ x.
          then_triple _ _ (refuse_triple {R = Logged c} _ _ (λ t s p. tt) (λ t s p. p.0))
            (replace_stream_buffers-Holds rows c))

gradient_fits :
    (rows : ℕ)
    → rows < 72_057_594_037_927_936
    → rows * 32 * 8 % 18_446_744_073_709_551_616 / 4 ≡ rows * 64
gradient_fits rows h = omega arith

-- When `ensure_stream_capacity` returns, all seven streaming buffers exist and the capacity is at least the
-- rows asked for, provided that all existed before or that the capacity was zero. With enough capacity nothing
-- changed; otherwise, for fewer than 2^56 rows, the calls made were the creation of the seven buffers, each
-- with the bytes that so many rows take, and the write of the initial update, and the capacity is the rows.
pub ensure_stream_capacity_lem :
    (cl : OpenCl) (rows : ℕ) (s s' : Impl)
    → (s.stream_capacity_rows ≡ 0) ⊎ (s.buffers ≡ all_buffers)
    → ensure_stream_capacity cl rows s ≡ (returned tt, s')
    → (s'.buffers ≡ all_buffers)
      × (rows ≤ s'.stream_capacity_rows)
      × (rows ≤ s.stream_capacity_rows → s' ≡ s)
      × (s.stream_capacity_rows < rows
          → rows < 72_057_594_037_927_936
          → (s'.stream_capacity_rows ≡ rows) × (s'.calls ≡ resized rows (rows * 64) s.calls))
ensure_stream_capacity_lem cl rows s s' ready h =
    subst (λ r. After (λ u. Ensured rows s) Nothing r) h
      (ensured (rows == 0) refl (leb rows s.stream_capacity_rows) refl)
  where
    grown : (t : Impl) → s.stream_capacity_rows < rows → Holds rows s.calls t → Ensured rows s t
    grown t more p = (
      p.0,
      omega (arith, p.1),
      λ room. absurd (omega arith),
      λ more' small.
          (p.1, p.2 ∙ ap (λ bytes. resized rows bytes s.calls) (gradient_fits rows small)),
    )

    end :
        s.stream_capacity_rows < rows
        → (r : Exit (Unit {0}) × Impl) → After (λ u. Holds rows s.calls) Nothing r
        → After (λ u. Ensured rows s) Nothing r
    end more (returned u, t) p = grown t more p
    end more (threw e, t) p = tt

    ensured :
        (none : Bool)
        → (rows == 0) ≡ none
        → (enough : Bool) → leb rows s.stream_capacity_rows ≡ enough
        → After (λ u. Ensured rows s) Nothing (ensure_stream_capacity cl rows s)
    ensured true e enough f = unfold ensure_stream_capacity fail in rw e tt
    ensured false e true f =
        unfold ensure_stream_capacity give in
        rw (e, f)
          (
            old ready,
            leb→le rows s.stream_capacity_rows f,
            λ room. refl,
            λ more small. absurd (ground (arith, more, f)),
          )
      where
        old : (s.stream_capacity_rows ≡ 0) ⊎ (s.buffers ≡ all_buffers) → s.buffers ≡ all_buffers
        old (inl z) = absurd (ground (arith, z, e, f))
        old (inr b) = b
    ensured false e false f =
        unfold ensure_stream_capacity in
        rw (e, f)
          (end (ground (arith, f)) (grow_stream cl rows s)
            ((grow_stream-Holds cl rows s.calls).ends s refl))

-- A resize that fails at its first creation leaves the buffers released and the old capacity in place: the
-- next call with at most that many rows takes the missing buffers to be there, and creates none.
pub failed_resize_keeps_capacity :
    (cl : OpenCl) (rows : ℕ) (s : Impl)
    → is_active s ≡ false
    → 0 < s.stream_capacity_rows
    → s.stream_capacity_rows < rows
    → rows ≤ 576_460_752_303_423_487
    → is_zero (cl.status s.calls (create_buffer stream_input_buffer (rows * 32))) ≡ false
    → ((ensure_stream_capacity cl rows s).1.buffers ≡ no_buffers)
      × (ensure_stream_capacity cl s.stream_capacity_rows (ensure_stream_capacity cl rows s).1
          ≡ (returned tt, (ensure_stream_capacity cl rows s).1))
unfolding ensure_stream_capacity grow_stream replace_stream_buffers ◌>>◌ ◌>>=◌ resume refuse_if give
    modify release_stream_buffers enqueue settle record_call
failed_resize_keeps_capacity cl rows s idle positive larger bounded failed =
    rw (nonzero, small, idle, inside, failed) (refl, rw (nonzero', same) refl)
  where
    nonzero : (rows == 0) ≡ false
    nonzero = ground arith

    small : leb rows s.stream_capacity_rows ≡ false
    small = ground arith

    inside : ltb 576_460_752_303_423_487 rows ≡ false
    inside = ground arith

    nonzero' : (s.stream_capacity_rows == 0) ≡ false
    nonzero' = ground arith

    same : leb s.stream_capacity_rows s.stream_capacity_rows ≡ true
    same = ground arith
