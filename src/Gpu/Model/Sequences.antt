-- ===== src/Gpu/Model/Sequences.antt =====
-- src/gpu/gpu_model.cpp: sequences of calls of GpuModel.
use adaptive_fpga.Prelude.{ℕ, ◌≡◌, refl, Bool, true, false, ◌⊎◌, Option, none, List, [], ◌∷◌, All}
use adaptive_fpga.Gpu.Model.{OpenCl, Impl, Mapping, Exit, returned, threw, Op, fail}
use adaptive_fpga.Gpu.Model.Rules.{On, Keeps, After}
use adaptive_fpga.Gpu.Model.Requests.{
  Request, set_model, double, map_rows, map_batch, submit_update, submit_batch, poll_update,
  discard_rows, poll_batch, discard_batch, run_request, run_requests, public_call,
}
use adaptive_fpga.Gpu.Model.Frames.{double_values-Keeps}
use adaptive_fpga.Gpu.Model.Exclusive.{
  Exclusive, Unmaps, ValuesFree, BatchFree, map_stream_feature_rows-Exclusive,
  map_training_batch-Exclusive, set_training_model-Exclusive, poll_phase6_model_update-Exclusive,
  poll_training_update-Exclusive,
}
use adaptive_fpga.Gpu.Model.Handover.{
  discard_stream_feature_rows-Exclusive, discard_training_batch-Exclusive,
  submit_training_batch-Exclusive, submit_phase6_model_update-Exclusive,
}

-- A call that is not of the deterministic update.
abbrev pub IsTraining : Request → Type 0
IsTraining (submit_update version) = ⊥
IsTraining _ = Unit {0}

kept {ℓ} :
    {A : Type ℓ} (P : Mapping → Option ℕ → Type 0) (m : Op A)
    → Keeps (On P) m
    → (s : Impl) → On P s
    → On P (m s).1
kept {A = A} P m h s p = either (m s) (h.ends s p)
  where
    either : (r : Exit A × Impl) → After (λ a. On P) (On P) r → On P r.1
    either (returned a, s') q = q
    either (threw e, s') q = q

called :
    {A : Type 0} (P : Mapping → Option ℕ → Type 0) (built : Bool) (m : Op A)
    → Keeps (On P) m
    → (s : Impl) → On P s
    → On P (public_call built m s).1
unfolding public_call fail
called P true m h s p = kept P m h s p
called P false m h s p = p

module _ (Free : Mapping → Type 0) (law : Unmaps Free) (built : Bool) (cl : OpenCl) where
  training_request :
      (request : Request)
      → IsTraining request
      → (s : Impl) → On (Exclusive Free) s
      → On (Exclusive Free) (run_request built cl request s)
  unfolding run_request
  training_request (set_model model) t =
      called (Exclusive Free) built _ (set_training_model-Exclusive Free law cl model)
  training_request (double input) t =
      called (Exclusive Free) built _ (double_values-Keeps (Exclusive Free) cl input)
  training_request (map_rows rows) t =
      called (Exclusive Free) built _ (map_stream_feature_rows-Exclusive Free law cl rows)
  training_request (map_batch rows) t =
      called (Exclusive Free) built _ (map_training_batch-Exclusive Free law cl rows)
  training_request (submit_update version) t = absurd t
  training_request (submit_batch version rate l2) t =
      called (Exclusive Free) built _ (submit_training_batch-Exclusive Free law cl version rate l2)
  training_request poll_update t =
      called (Exclusive Free) built _ (poll_phase6_model_update-Exclusive Free law cl)
  training_request discard_rows t =
      called (Exclusive Free) built _ (discard_stream_feature_rows-Exclusive Free law cl)
  training_request poll_batch t =
      called (Exclusive Free) built _ (poll_training_update-Exclusive Free law cl)
  training_request discard_batch t =
      called (Exclusive Free) built _ (discard_training_batch-Exclusive Free law cl)

values_law : Unmaps ValuesFree
values_law = record { forgotten = refl; values_unmapped = λ m f. refl; labels_unmapped = λ m f. f }

batch_law : Unmaps BatchFree
batch_law = record {
  forgotten = (refl, refl);
  values_unmapped = λ m f. (refl, f.1);
  labels_unmapped = λ m f. (f.0, refl);
}

any_request :
    (built : Bool) (cl : OpenCl) (request : Request) (s : Impl)
    → On (Exclusive ValuesFree) s
    → On (Exclusive ValuesFree) (run_request built cl request s)
any_request built cl (submit_update version) s p =
    unfold run_request in
    called (Exclusive ValuesFree) built _ (submit_phase6_model_update-Exclusive cl version) s p
any_request built cl (set_model model) s p =
    training_request ValuesFree values_law built cl (set_model model) tt s p
any_request built cl (double input) s p =
    training_request ValuesFree values_law built cl (double input) tt s p
any_request built cl (map_rows rows) s p =
    training_request ValuesFree values_law built cl (map_rows rows) tt s p
any_request built cl (map_batch rows) s p =
    training_request ValuesFree values_law built cl (map_batch rows) tt s p
any_request built cl (submit_batch version rate l2) s p =
    training_request ValuesFree values_law built cl (submit_batch version rate l2) tt s p
any_request built cl poll_update s p =
    training_request ValuesFree values_law built cl poll_update tt s p
any_request built cl discard_rows s p =
    training_request ValuesFree values_law built cl discard_rows tt s p
any_request built cl poll_batch s p =
    training_request ValuesFree values_law built cl poll_batch tt s p
any_request built cl discard_batch s p =
    training_request ValuesFree values_law built cl discard_batch tt s p

-- Feature memory is never mapped for the host while an update is in flight: from a state where this
-- holds, any sequence of calls of the GPU model, returning or throwing, whatever OpenCL answers to
-- each, ends in a state where the features are not mapped or no update is pending.
pub run_requests-Exclusive :
    (built : Bool) (cl : OpenCl) (requests : List Request) (s : Impl)
    → (s.mapping.values ≡ false) ⊎ (s.pending_stream_update_version ≡ none)
    → ((run_requests built cl requests s).mapping.values ≡ false)
      ⊎ ((run_requests built cl requests s).pending_stream_update_version ≡ none)
unfolding run_requests
run_requests-Exclusive built cl [] s p = p
run_requests-Exclusive built cl (request ∷ requests) s p =
    run_requests-Exclusive built cl requests (run_request built cl request s)
      (any_request built cl request s p)

-- As long as no call submits the deterministic update, which leaves the labels mapped, the same holds
-- of the features and the labels together, for any sequence of calls.
pub run_requests-BatchFree :
    (built : Bool) (cl : OpenCl) (requests : List Request) (s : Impl)
    → All IsTraining requests
    → ((s.mapping.values ≡ false) × (s.mapping.labels ≡ false))
      ⊎ (s.pending_stream_update_version ≡ none)
    → (((run_requests built cl requests s).mapping.values ≡ false)
        × ((run_requests built cl requests s).mapping.labels ≡ false))
      ⊎ ((run_requests built cl requests s).pending_stream_update_version ≡ none)
unfolding run_requests
run_requests-BatchFree built cl [] s t p = p
run_requests-BatchFree built cl (request ∷ requests) s t p =
    run_requests-BatchFree built cl requests (run_request built cl request s) t.1
      (training_request BatchFree batch_law built cl request t.0 s p)
