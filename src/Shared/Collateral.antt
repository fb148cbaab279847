-- ===== src/Shared/Collateral.antt =====
-- Collateral assets, their metrics and the errors of their ledgers (src/shared/src/types/
-- collateral.rs, asset/errors.rs). A message is kept as a number that stands for it.
use icdc_core.Prelude.{ℕ, Bool, Option, List}
use icdc_core.Prelude.Int.{ℤ}
use icdc_core.Shared.Domain.{BalanceDomain}
use icdc_core.Shared.Price.{DecimalValue}
use icdc_core.Shared.Series.{Asset}

abbrev pub AssetId : Type 0
AssetId = ℕ

pub record CollateralAssetConfig : Type 0 where
  pub asset_id : AssetId
  pub asset : Asset
  pub symbol : ℕ
  pub decimals : ℕ
  pub is_enabled : Bool
  pub oracle_id : Option ℕ
  pub allowed_balance_domains : List BalanceDomain

pub record AssetMetrics : Type 0 where
  pub price_usd : DecimalValue
  pub haircut_bps : ℕ
  pub latest_transfer_fee : Option ℕ
  pub insurance_fee_ratio : Option ℕ
  pub protocol_fee_ratio : Option ℕ
  pub last_updated_ns : Option ℕ

pub data AssetError : Type 0 where
  transfer_error : ℕ → AssetError
  invalid_asset_for_handler unsupported_asset : AssetError
  -- the method, the code and the message
  call_error : ℕ → ℤ → ℕ → AssetError
  -- the balance and the requirement
  insufficient_balance : ℕ → ℕ → AssetError
  asset_math_overflow : AssetError
  invalid_asset_id : ℕ → AssetError
