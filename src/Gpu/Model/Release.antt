-- ===== src/Gpu/Model/Release.antt =====
-- src/gpu/gpu_model.cpp: what the constructor leaves, when it returns and when it throws.
use adaptive_fpga.Prelude.{◌≡◌, refl, ap, Bool, true, false, not}
use adaptive_fpga.Gpu.Model.{
  OpenCl, Impl, Handles, Call, Exit, returned, threw, enqueue, check_opencl, refuse_if, ModelError,
  create_context, record_call, create_queue, cannot_open_kernel, create_program, build_program,
}
use adaptive_fpga.Gpu.Model.Rules.{After, Triple, then_triple, enqueue_triple, refuse_triple}
use adaptive_fpga.Gpu.Model.Device.{
  Place, no_handles, no_buffers, no_events, no_smoke, new_impl, find_device_id, create_resources,
  cleanup, release, or_cleanup, construct_model,
}

abbrev pub all_handles : Handles
all_handles = record {
  context = true;
  queue = true;
  program = true;
  smoke = true;
  phase6_update = true;
  training = true;
  training_reduce = true;
}

abbrev HandlesAre : Handles → Impl → Type 0
HandlesAre h s = s.handles ≡ h

module _ (cl : OpenCl) where
  -- The steps of the constructor, from handles that are known.
  check_handles :
      (h : Handles) (action : Call)
      → Triple (HandlesAre h) (λ u. HandlesAre h) (λ s. Unit {0}) (check_opencl cl action)
  unfolding check_opencl record_call
  check_handles h action = enqueue_triple cl action _ (λ s p. p) (λ s p. tt)

  set_handle :
      (h : Handles) (action : Call) (put : Bool → Handles → Handles)
      → Triple
          (HandlesAre h)
          (λ u. HandlesAre (put true h))
          (λ s. Unit {0})
          (enqueue cl action (λ ok s. record s { handles = put ok s.handles }))
  unfolding record_call
  set_handle h action put = enqueue_triple cl action _ (λ s p. ap (put true) p) (λ s p. tt)

  refuse_handles :
      (h : Handles) (test : Bool) (error : ModelError)
      → Triple (HandlesAre h) (λ u. HandlesAre h) (λ s. Unit {0}) (refuse_if test error)
  refuse_handles h test error = refuse_triple test error (λ t s p. tt) (λ t s p. p)

  find_device_id-handles :
      (selected : Place) (h : Handles)
      → Triple (HandlesAre h) (λ u. HandlesAre h) (λ s. Unit {0}) (find_device_id cl selected)
  unfolding find_device_id
  find_device_id-handles selected h = then_triple _ _ (check_handles h _) (
      then_triple _ _ (refuse_handles h _ _) (
        then_triple _ _ (check_handles h _) (
          then_triple _ _ (check_handles h _)
            (then_triple _ _ (refuse_handles h _ _) (check_handles h _)))))

  create_resources-handles :
      (selected : Place)
      → Triple
          (HandlesAre no_handles)
          (λ u. HandlesAre all_handles)
          (λ s. Unit {0})
          (create_resources cl selected)
  unfolding create_resources
  create_resources-handles selected = then_triple _ _ (find_device_id-handles selected no_handles) (
      then_triple _ _ (set_handle no_handles create_context (λ ok h. record h { context = ok })) (
        then_triple _ _ (set_handle _ create_queue (λ ok h. record h { queue = ok })) (
          then_triple _ _ (refuse_handles _ (not cl.kernel_file) cannot_open_kernel) (
            then_triple _ _ (set_handle _ create_program (λ ok h. record h { program = ok })) (
              then_triple _ _ (check_handles _ build_program) (
                then_triple _ _ (set_handle _ _ (λ ok h. record h { smoke = ok })) (
                  then_triple _ _ (set_handle _ _ (λ ok h. record h { phase6_update = ok })) (
                    then_triple _ _ (set_handle _ _ (λ ok h. record h { training = ok }))
                      (set_handle _ _ (λ ok h. record h { training_reduce = ok }))))))))))

release_lem : (created : Bool) → release created ≡ false
unfolding release
release_lem true = refl
release_lem false = refl

-- What `cleanup` leaves, whatever there was.
cleanup_lem :
    (cl : OpenCl) (s : Impl)
    → let s' = cleanup cl s in
      (s'.handles ≡ no_handles)
      × (s'.buffers ≡ no_buffers)
      × (s'.events ≡ no_events)
      × (s'.smoke ≡ no_smoke)
unfolding cleanup
cleanup_lem cl s = simp (release_lem) (refl, refl, refl, refl)

-- A constructor that returns owns every handle; one that throws owns nothing: each handle, buffer and
-- event created before the failure has been released.
pub construct_lem :
    (cl : OpenCl) (selected : Place)
    → After
        (λ u s. s.handles ≡ all_handles)
        (λ s.
          (s.handles ≡ no_handles)
          × (s.buffers ≡ no_buffers)
          × (s.events ≡ no_events)
          × (s.smoke ≡ no_smoke))
        (construct_model cl selected)
unfolding construct_model
construct_lem cl selected =
    after (create_resources cl selected new_impl)
      ((create_resources-handles cl selected).ends new_impl refl)
  where
    after :
        (r : Exit (Unit {0}) × Impl)
        → After (λ u. HandlesAre all_handles) (λ s. Unit {0}) r
        → After
            (λ u s. s.handles ≡ all_handles)
            (λ s.
              (s.handles ≡ no_handles)
              × (s.buffers ≡ no_buffers)
              × (s.events ≡ no_events)
              × (s.smoke ≡ no_smoke))
            (or_cleanup cl r)
    after (returned u, s) h = unfold or_cleanup in h
    after (threw e, s) h = unfold or_cleanup in cleanup_lem cl s
