-- ===== src/Gpu/Protocol/Updates.antt =====
-- Which updates src/gpu/gpu_protocol.cpp lets through.
use adaptive_fpga.Prelude.{ℕ, ◌<◌, ◌≤◌, ◌≡◌, ◌↔◌, arith}
use adaptive_fpga.Prelude.Int.{◌<ℤ◌, ◌≤ℤ◌}
use adaptive_fpga.Gpu.Protocol.{
  ModelUpdate, ok, invalid_argument, version_not_newer, thresholds_not_ordered,
  validate_model_update, model_parameters_from_update,
}

-- An update that may replace a model of the given version.
pub record Replaces (update : ModelUpdate) (active : ℕ) : Type 0 where
  pub newer : active < update.update_version
  pub thresholds : update.sell_threshold <ℤ update.buy_threshold

pub validate-Replaces :
    (update : ModelUpdate) (active : ℕ)
    → (validate_model_update update active ≡ ok tt) ↔ Replaces update active
unfolding validate_model_update
validate-Replaces update active = (λ h. ground arith, λ v. ground arith)

-- A conversion succeeds exactly for an update that is newer than the active model and has its
-- thresholds in order, and carries its weights, thresholds and version over unchanged; an update that
-- is not newer is refused first, then one with its thresholds out of order.
pub model_parameters_lem :
    (update : ModelUpdate) (active : ℕ)
    → (Replaces update active
        → model_parameters_from_update update active
          ≡ ok (record {
            weights = update.weights;
            buy_threshold = update.buy_threshold;
            sell_threshold = update.sell_threshold;
            model_version = update.update_version;
            update_count = 0;
          }))
      × (update.update_version ≤ active
          → model_parameters_from_update update active ≡ invalid_argument version_not_newer)
      × (active < update.update_version
          → update.buy_threshold ≤ℤ update.sell_threshold
          → model_parameters_from_update update active ≡ invalid_argument thresholds_not_ordered)
unfolding model_parameters_from_update
model_parameters_lem update active = (λ v. ground arith, λ h. ground arith, λ h k. ground arith)
