-- ===== src/Margin.antt =====
-- Positions and account states (src/clearing/src/types/margin.rs).
pub mod Accounts
use icdc_core.Prelude.{
  ℕ, ◌+◌, ◌-◌, ◌*◌, ◌/◌, Bool, true, false, Option, none, some, List, [], ◌∷◌, ltb, leb, ◌==◌,
  if◌then◌else◌,
}
use icdc_core.Prelude.Int.{ℤ, pos, negsuc, ltb_ℤ, beq_ℤ}
use icdc_core.Prelude.Words.{u128_mod, pow10_u128, cast_signed, cast_unsigned, add_i128, sub_i128}
use icdc_core.Prelude.Maps.{Map, Key, nat_key, pair_key, option_key, lookup, insert, remove}
use icdc_core.Prelude.Results.{Res, ok, trap, ◌>>=◌}
use icdc_core.Shared.Domain.{BalanceDomain, domain_key}
use icdc_core.Shared.Price.{Principal, usd_decimals, bps_base}
use icdc_core.Shared.Series.{SeriesId, OutcomeId}
use icdc_core.Shared.Collateral.{AssetId, CollateralAssetConfig, AssetMetrics}

-- `User` wraps a principal.
abbrev pub User : Type 0
User = Principal

abbrev pub PositionKey : Type 0
PositionKey = User × (SeriesId × Option OutcomeId)

instance abbrev pub position_key : Key PositionKey
position_key = pair_key nat_key (pair_key nat_key (option_key nat_key))

pub record Position : Type 0 where
  pub user : User
  pub series_id : SeriesId
  pub outcome_id : Option OutcomeId
  -- i128
  pub net_qty : ℤ
  -- u128
  pub reserved_margin_usd : ℕ

abbrev pub PositionsMap : Type 0
PositionsMap = Map PositionKey Position

pub record AccountState : Type 0 where
  pub user : User
  pub balances : Map BalanceDomain (Map AssetId ℕ)
  pub cash_balances_usd : Map BalanceDomain ℤ
  pub reserved_margins_usd : Map BalanceDomain ℕ

abbrev pub Configs : Type 0
Configs = Map AssetId CollateralAssetConfig

abbrev pub Metrics : Type 0
Metrics = Map AssetId AssetMetrics

abbrev pub unwrap_or {ℓ} : {A : Type ℓ} → Option A → A → A
unwrap_or none d = d
unwrap_or (some a) d = a

-- `AccountState::new`.
abbrev pub new_account : User → AccountState
new_account user = record {
  user = user;
  balances = [];
  cash_balances_usd = [];
  reserved_margins_usd = [];
}

unfoldable pub get_balance : AccountState → BalanceDomain → AssetId → ℕ
get_balance a domain asset_id =
    unwrap_or (lookup asset_id (unwrap_or (lookup domain a.balances) [])) 0

-- `remove` on the inner map, and on the outer map once the inner one is empty.
unfoldable pub drop_balance :
    Map BalanceDomain (Map AssetId ℕ)
    → BalanceDomain
    → Map AssetId ℕ
    → Map BalanceDomain (Map AssetId ℕ)
drop_balance outer domain [] = remove domain outer
drop_balance outer domain (e ∷ inner) = insert domain (e ∷ inner) outer

unfoldable pub set_balance : AccountState → BalanceDomain → AssetId → ℕ → AccountState
unfolding drop_balance
set_balance a domain asset_id amount =
    if amount == 0
    then elim (lookup domain a.balances) [
      | none ↦ a
      | some inner ↦ record a { balances = drop_balance a.balances domain (remove asset_id inner) }
    ]
    else record a {
      balances =
          insert domain (insert asset_id amount (unwrap_or (lookup domain a.balances) []))
            a.balances;
    }

unfoldable pub get_cash_balance_usd : AccountState → BalanceDomain → ℤ
get_cash_balance_usd a domain = unwrap_or (lookup domain a.cash_balances_usd) (pos 0)

unfoldable pub set_cash_balance_usd : AccountState → BalanceDomain → ℤ → AccountState
set_cash_balance_usd a domain amount =
    if beq_ℤ amount (pos 0)
    then record a { cash_balances_usd = remove domain a.cash_balances_usd }
    else record a { cash_balances_usd = insert domain amount a.cash_balances_usd }

unfoldable pub get_reserved_margin_usd : AccountState → BalanceDomain → ℕ
get_reserved_margin_usd a domain = unwrap_or (lookup domain a.reserved_margins_usd) 0

unfoldable pub set_reserved_margin_usd : AccountState → BalanceDomain → ℕ → AccountState
set_reserved_margin_usd a domain amount =
    if amount == 0
    then record a { reserved_margins_usd = remove domain a.reserved_margins_usd }
    else record a { reserved_margins_usd = insert domain amount a.reserved_margins_usd }

-- `v.0.try_into().unwrap_or(u128::MAX)` on an unbounded `Nat`.
abbrev pub clamp_u128 : ℕ → ℕ
clamp_u128 v = if ltb v u128_mod then v else u128_mod - 1

-- The value of a balance in USD base units, after the factor `multiplier` in basis points.
unfoldable pub asset_value_usd {ℓ} : {E : Type ℓ} → ℕ → ℕ → ℕ → ℕ → ℕ → Res E ℕ
asset_value_usd balance price_value multiplier price_decimals asset_decimals =
    let numerator = balance * price_value * multiplier in
    let source = asset_decimals + price_decimals in
    if leb usd_decimals source
    then (let divisor = bps_base * pow10_u128 (source - usd_decimals) in
        if divisor == 0 then trap else ok (clamp_u128 (numerator / divisor)))
    else ok (clamp_u128 (numerator * pow10_u128 (usd_decimals - source) / bps_base))

-- The value of a balance under its configuration and metric, added to the running total.
unfoldable pub add_priced {ℓ} :
    {E : Type ℓ} → CollateralAssetConfig → AssetMetrics → ℕ → ℤ → Res E ℤ
unfolding asset_value_usd
add_priced config metric balance total = do
  value ←
      asset_value_usd balance metric.price_usd.value (bps_base - metric.haircut_bps)
        metric.price_usd.decimals config.decimals
  ok (add_i128 total (cast_signed value))

module _ (configs : Configs) (metrics : Metrics) where
  -- One round of the loop: an asset that is unknown, unpriced or disabled counts for nothing.
  unfoldable pub add_asset_value {ℓ} : {E : Type ℓ} → AssetId → ℕ → ℤ → Res E ℤ
  unfolding add_priced
  add_asset_value asset_id balance total = elim (lookup asset_id configs) [
    | none ↦ ok total
    | some config ↦ elim (lookup asset_id metrics) [
      | none ↦ ok total
      | some metric ↦ if config.is_enabled then add_priced config metric balance total else ok total
    ]
  ]

  unfoldable pub add_asset_values {ℓ} : {E : Type ℓ} → Map AssetId ℕ → ℤ → Res E ℤ
  unfolding add_asset_value
  add_asset_values [] total = ok total
  add_asset_values ((asset_id, balance) ∷ rest) total = do
    total' ← add_asset_value asset_id balance total
    add_asset_values rest total'

unfoldable pub calculate_raw_equity {ℓ} :
    {E : Type ℓ} → AccountState → BalanceDomain → Configs → Metrics → Res E ℤ
unfolding add_asset_values
calculate_raw_equity a domain configs metrics =
    add_asset_values configs metrics (unwrap_or (lookup domain a.balances) [])
      (get_cash_balance_usd a domain)

-- `max(0, raw)`.
abbrev pub clamp_equity : ℤ → ℕ
clamp_equity raw = if ltb_ℤ raw (pos 0) then 0 else cast_unsigned raw

unfoldable pub calculate_equity_usd {ℓ} :
    {E : Type ℓ} → AccountState → BalanceDomain → Configs → Metrics → Res E ℕ
calculate_equity_usd a domain configs metrics = do
  raw ← calculate_raw_equity a domain configs metrics
  ok (clamp_equity raw)

unfoldable pub get_available_margin_usd {ℓ} :
    {E : Type ℓ} → AccountState → BalanceDomain → Configs → Metrics → Res E ℤ
get_available_margin_usd a domain configs metrics = do
  equity ← calculate_equity_usd a domain configs metrics
  ok (sub_i128 (cast_signed equity) (cast_signed (get_reserved_margin_usd a domain)))
