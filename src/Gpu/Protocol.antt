-- ===== src/Gpu/Protocol.antt =====
-- include/gpu/gpu_protocol.hpp and src/gpu/gpu_protocol.cpp: feature batches, and the check of a model
-- update before it reaches the RTL.
pub mod Batches
pub mod Updates
use adaptive_fpga.Prelude.{
  ℕ, ◌+◌, Bool, true, false, not, List, [], ◌∷◌, Option, none, some, ◌==◌, leb, if◌then◌else◌, set,
  replicate,
}
use adaptive_fpga.Prelude.Int.{ℤ, pos, leb_ℤ}
use adaptive_fpga.Event.{ModelParameters}

pub record FeatureSnapshot : Type 0 where
  pub event_index : ℕ
  pub timestamp_ns : ℕ
  pub valid : Bool
  pub features : List ℤ

pub record ModelUpdate : Type 0 where
  pub update_version : ℕ
  pub weights : List ℤ
  pub buy_threshold : ℤ
  pub sell_threshold : ℤ

abbrev pub batch_time_steps : ℕ
batch_time_steps = 32

-- `batch[time][feature]`, with 32 rows of eight.
abbrev pub FeatureBatch : Type 0
FeatureBatch = List (List ℤ)

abbrev pub zero_row : List ℤ
zero_row = replicate 8 (pos 0)

pub record FeatureBatchCollector : Type 0 where
  pub batch : FeatureBatch
  pub size : ℕ

abbrev pub new_collector : FeatureBatchCollector
new_collector = record { batch = replicate batch_time_steps zero_row; size = 0 }

-- `reset`
unfoldable pub reset : FeatureBatchCollector → FeatureBatchCollector
reset c = new_collector

unfoldable pub add :
    FeatureBatchCollector → FeatureSnapshot → Option FeatureBatch × FeatureBatchCollector
unfolding reset
add c snapshot =
    if not snapshot.valid
    then (none, c)
    else if c.size + 1 == batch_time_steps
    then (some batch, reset filled)
    else (none, filled)
  where
    batch : FeatureBatch
    batch = set c.batch c.size snapshot.features

    filled : FeatureBatchCollector
    filled = record { batch = batch; size = c.size + 1 }

-- The two messages of std::invalid_argument.
pub data UpdateError : Type 0 where
  version_not_newer thresholds_not_ordered : UpdateError

pub data Checked {ℓ} (A : Type ℓ) : Type ℓ where
  ok : A → Checked A
  invalid_argument : UpdateError → Checked A

infixl 5 ◌>>◌
abbrev pub ◌>>◌ {ℓ} : {A : Type ℓ} → Checked (Unit {0}) → Checked A → Checked A
ok u >> k = k
invalid_argument e >> k = invalid_argument e

unfoldable pub validate_model_update : ModelUpdate → ℕ → Checked (Unit {0})
validate_model_update update active_model_version =
    if leb update.update_version active_model_version
    then invalid_argument version_not_newer
    else if leb_ℤ update.buy_threshold update.sell_threshold
    then invalid_argument thresholds_not_ordered
    else ok tt

-- The update count is left at its default.
unfoldable pub model_parameters_from_update : ModelUpdate → ℕ → Checked ModelParameters
unfolding validate_model_update
model_parameters_from_update update active_model_version = do
  validate_model_update update active_model_version
  ok (record {
    weights = update.weights;
    buy_threshold = update.buy_threshold;
    sell_threshold = update.sell_threshold;
    model_version = update.update_version;
    update_count = 0;
  })
