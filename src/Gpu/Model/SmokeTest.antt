-- ===== src/Gpu/Model/SmokeTest.antt =====
-- `run_gpu_smoke_test` of src/gpu/gpu_model.cpp. The selection of a device is app/opencl_devices.cpp's, and
-- the comparison of floats with the tolerance is a parameter.
use adaptive_fpga.Prelude.{
  ℕ, ◌≡◌, refl, Bool, true, false, List, [], ◌∷◌, Option, none, some, ◌==◌, ◌||◌, length,
  if◌then◌else◌, ==_iff, arith,
}
use adaptive_fpga.Gpu.Model.{OpenCl, Impl, ModelError, Exit, returned, threw}
use adaptive_fpga.Gpu.Model.Device.{Place, construct_model}
use adaptive_fpga.Gpu.Model.Smoke.{double_values}

pub data GpuSmokeTestStatus : Type 0 where
  passed skipped failed : GpuSmokeTestStatus

-- The messages, of which the last two are the exceptions' own.
pub data SmokeMessage : Type 0 where
  wrong_number wrong_values doubled selection_error : SmokeMessage
  model_error : ModelError → SmokeMessage

pub record GpuSmokeTestResult : Type 0 where
  pub status : GpuSmokeTestStatus
  pub message : SmokeMessage
  pub output : List ℕ

-- The bits of 1, 2, 3 and of 2, 4, 6 as floats.
abbrev pub smoke_input : List ℕ
smoke_input = 1_065_353_216 ∷ 1_073_741_824 ∷ 1_077_936_128 ∷ []

abbrev pub smoke_expected : List ℕ
smoke_expected = 1_073_741_824 ∷ 1_082_130_432 ∷ 1_086_324_736 ∷ []

-- `differs a b`: |a - b| > 0.0001.
module _ (differs : ℕ → ℕ → Bool) where
  unfoldable pub any_differs : List ℕ → List ℕ → Bool
  any_differs (a ∷ outputs) (b ∷ expected) = differs a b || any_differs outputs expected
  any_differs _ _ = false

  -- The result from whether the number of values is right, and whether one differs.
  unfoldable pub verdict : Bool → Bool → List ℕ → GpuSmokeTestResult
  verdict false d output = record { status = failed; message = wrong_number; output = output }
  verdict true true output = record { status = failed; message = wrong_values; output = output }
  verdict true false output = record { status = passed; message = doubled; output = output }

  unfoldable pub judge : List ℕ → GpuSmokeTestResult
  unfolding verdict any_differs
  judge output =
      verdict (length output == length smoke_expected) (any_differs output smoke_expected) output

  unfoldable pub judge_output : Exit (List ℕ) → GpuSmokeTestResult
  unfolding judge
  judge_output (returned output) = judge output
  judge_output (threw error) = record { status = failed; message = model_error error; output = [] }

  unfoldable pub test_model : OpenCl → Exit (Unit {0}) × Impl → GpuSmokeTestResult
  unfolding judge_output double_values
  test_model cl (returned u, s) = judge_output (double_values cl smoke_input s).0
  test_model cl (threw error, s) = record {
    status = failed;
    message = model_error error;
    output = [];
  }

  -- `selected` is `select_opencl_gpu`'s device, if it does not throw; `requested` whether an index or a
  -- name was given.
  unfoldable pub run_gpu_smoke_test : OpenCl → Bool → Option Place → GpuSmokeTestResult
  unfolding construct_model test_model
  run_gpu_smoke_test cl requested none = record {
    status = if requested then failed else skipped;
    message = selection_error;
    output = [];
  }
  run_gpu_smoke_test cl requested (some place) = test_model cl (construct_model cl place)

  judge_passed :
      (output : List ℕ)
      → (judge output).status ≡ passed
      → (length output ≡ 3) × (any_differs output smoke_expected ≡ false)
  unfolding judge
  judge_passed output h = chosen (length output == 3) refl (any_differs output smoke_expected) h
    where
      chosen :
          (l : Bool)
          → (length output == 3) ≡ l
          → (d : Bool) → (verdict l d output).status ≡ passed
          → (length output ≡ 3) × (d ≡ false)
      chosen true f true e = absurd (unfold verdict in cc)
      chosen true f false e = ((==_iff (length output) 3).0 f, refl)
      chosen false f d e = absurd (unfold verdict in cc)

  -- What a passed test shows: three values, close to 2, 4 and 6 in turn.
  abbrev pub Doubled : OpenCl → Exit (List ℕ) → Type 0
  Doubled cl (returned output) =
      (a b c : ℕ) × (output ≡ a ∷ b ∷ c ∷ [])
      × (differs a 1_073_741_824 ≡ false)
      × (differs b 1_082_130_432 ≡ false)
      × (differs c 1_086_324_736 ≡ false)
  Doubled cl (threw error) = ⊥

  or_false : (a b : Bool) → a || b ≡ false → (a ≡ false) × (b ≡ false)
  or_false true b h = absurd (cc)
  or_false false b h = (refl, h)

  three_values :
      (cl : OpenCl) (output : List ℕ)
      → length output ≡ 3
      → any_differs output smoke_expected ≡ false
      → Doubled cl (returned output)
  unfolding any_differs
  three_values cl (a ∷ b ∷ c ∷ []) n h =
      let p = or_false (differs a 1_073_741_824) _ h in
      let q = or_false (differs b 1_082_130_432) _ p.1 in
      let r = or_false (differs c 1_086_324_736) _ q.1 in (a, b, c, refl, p.0, q.0, r.0)
  three_values cl [] n h = absurd (omega (arith, n))
  three_values cl (a ∷ []) n h = absurd (omega (arith, n))
  three_values cl (a ∷ b ∷ []) n h = absurd (omega (arith, n))
  three_values cl (a ∷ b ∷ c ∷ e ∷ l) n h = absurd (omega (arith, n))

  judge_output-Doubled :
      (cl : OpenCl) (r : Exit (List ℕ)) → (judge_output r).status ≡ passed → Doubled cl r
  unfolding judge_output
  judge_output-Doubled cl (returned output) h =
      let p = judge_passed output h in three_values cl output p.0 p.1
  judge_output-Doubled cl (threw error) h = absurd (cc)

  abbrev pub Ran : OpenCl → Exit (Unit {0}) × Impl → Type 0
  Ran cl (returned u, s) = Doubled cl (double_values cl smoke_input s).0
  Ran cl (threw error, s) = ⊥

  test_model-Ran :
      (cl : OpenCl) (r : Exit (Unit {0}) × Impl) → (test_model cl r).status ≡ passed → Ran cl r
  unfolding test_model
  test_model-Ran cl (returned u, s) h = judge_output-Doubled cl (double_values cl smoke_input s).0 h
  test_model-Ran cl (threw error, s) h = absurd (cc)

  -- The smoke test is passed only when a device was selected, its resources were created, and the doubling
  -- kernel returned exactly three values, none of which differs from 2, 4, 6 by more than the tolerance.
  pub run_gpu_smoke_test_passed :
      (cl : OpenCl) (requested : Bool) (selected : Option Place)
      → (run_gpu_smoke_test cl requested selected).status ≡ passed
      → (place : Place) × (selected ≡ some place) × Ran cl (construct_model cl place)
  unfolding run_gpu_smoke_test
  run_gpu_smoke_test_passed cl true none h = absurd (cc)
  run_gpu_smoke_test_passed cl false none h = absurd (cc)
  run_gpu_smoke_test_passed cl requested (some place) h =
      (place, refl, test_model-Ran cl (construct_model cl place) h)
