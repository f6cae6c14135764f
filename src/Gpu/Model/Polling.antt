-- ===== src/Gpu/Model/Polling.antt =====
-- Polling src/gpu/gpu_model.cpp for a training update until there is one, as its caller does.
use adaptive_fpga.Prelude.{ℕ, zero, suc, ◌≡◌, Option, none, some, List, ◌∷◌, take, get_or}
use adaptive_fpga.Prelude.Int.{ℤ, pos}
use adaptive_fpga.Gpu.Protocol.{ModelUpdate}
use adaptive_fpga.Gpu.Model.{OpenCl, Op, Call, ◌>>=◌, give, get_event_info, TrainingUpdate}
use adaptive_fpga.Gpu.Model.Training.{poll_training_update}

-- The update that the values of the buffer say.
abbrev pub learned : ℕ → List ℤ → ModelUpdate
learned version values = record {
  update_version = version;
  weights = take 8 values;
  buy_threshold = get_or values 8 (pos 0);
  sell_threshold = get_or values 9 (pos 0);
}

module _ (cl : OpenCl) where
  -- So many polls that may return nothing, and one more.
  unfoldable pub poll_repeatedly : ℕ → Op (Option TrainingUpdate)
  poll_repeatedly zero s = poll_training_update cl s
  poll_repeatedly (suc n) s =
      let again = poll_repeatedly n in
      (poll_training_update cl >>= (λ o. elim o [ none ↦ again | some u ↦ give (some u) ])) s

  -- The event's status can be read, and is complete after so many reads that found it running.
  abbrev pub CompletesAfter : ℕ → List Call → Type 0
  CompletesAfter zero calls =
      (cl.status calls get_event_info ≡ pos 0) × (cl.execution_status calls ≡ pos 0)
  CompletesAfter (suc n) calls =
      (cl.status calls get_event_info ≡ pos 0)
      × ((k : ℕ) × (cl.execution_status calls ≡ pos (suc k)))
      × CompletesAfter n (get_event_info ∷ calls)
