-- ===== src/Payoffs.antt =====
-- Payoffs, settlement values, margins and fees (src/clearing/src/payoffs).
pub mod Rounding
pub mod Solvency
pub mod Linear
use icdc_core.Prelude.{
  ℕ, ◌+◌, ◌-◌, ◌/◌, ◌%◌, Bool, Option, none, some, ltb, leb, ◌==◌, if◌then◌else◌,
}
use icdc_core.Prelude.Int.{ℤ, pos, ltb_ℤ, leb_ℤ}
use icdc_core.Prelude.Words.{mul_u128, pow10_u128, unsigned_abs}
use icdc_core.Prelude.Maps.{option_beq, nat_key}
use icdc_core.Prelude.Results.{Res, ok, err, trap, ◌>>=◌}
use icdc_core.Shared.Domain.{social, domain_beq}
use icdc_core.Shared.Price.{Price, usd_decimals, bps_base, price_value, price_decimals}
use icdc_core.Shared.Series.{
  Series, OutcomeId, PayoffType, binary, call, put, categorical, SettlementInput, price, outcome,
}

pub data RoundingMode : Type 0 where
  floor ceil : RoundingMode

pub data PayoffError : Type 0 where
  invalid_settlement_type missing_strike missing_outcome_id : PayoffError
  math_error : ℕ → PayoffError

-- `value / factor` and `value.div_ceil(factor)`, by a factor that is not zero.
abbrev pub divide : RoundingMode → ℕ → ℕ → ℕ
divide floor value factor = value / factor
divide ceil value factor = if (value % factor) == 0 then value / factor else value / factor + 1

-- Where `10.pow` wraps around to zero the division panics.
unfoldable pub scale_price {ℓ} : {E : Type ℓ} → ℕ → ℕ → ℕ → RoundingMode → Res E ℕ
scale_price value target_decimals source_precision mode =
    if leb source_precision target_decimals
    then ok (mul_u128 value (pow10_u128 (target_decimals - source_precision)))
    else let factor = pow10_u128 (source_precision - target_decimals) in
      if factor == 0 then trap else ok (divide mode value factor)

unfoldable pub calculate_settlement_fee : ℕ → ℕ → ℕ
calculate_settlement_fee payoff_usd fee_ratio_bps = mul_u128 payoff_usd fee_ratio_bps / bps_base

-- The strike at the precision of the settlement price, rounded down.
unfoldable pub strike_price_value : Option Price → ℕ → Res PayoffError ℕ
unfolding scale_price
strike_price_value none precision = err missing_strike
strike_price_value (some p) precision =
    scale_price (price_value p) precision (price_decimals p) floor

-- The match on the payoff type and the settlement input.
unfoldable pub payoff_by_type :
    PayoffType → Option Price → Option OutcomeId → SettlementInput → Res PayoffError ℕ
unfolding scale_price strike_price_value
payoff_by_type binary strike o (price p) =
    scale_price (price_value p) usd_decimals (price_decimals p) floor
payoff_by_type call strike o (price p) = do
  k ← strike_price_value strike (price_decimals p)
  scale_price (price_value p - k) usd_decimals (price_decimals p) floor
payoff_by_type put strike o (price p) = do
  k ← strike_price_value strike (price_decimals p)
  scale_price (k - price_value p) usd_decimals (price_decimals p) floor
payoff_by_type categorical strike o (outcome resolved) =
    ok (if option_beq nat_key o (some resolved) then pow10_u128 usd_decimals else 0)
payoff_by_type categorical strike o (price p) = err invalid_settlement_type
payoff_by_type _ strike o (outcome resolved) = err invalid_settlement_type

unfoldable pub get_unit_payoff : Series → Option OutcomeId → SettlementInput → Res PayoffError ℕ
unfolding payoff_by_type
get_unit_payoff series outcome_id settlement =
    if domain_beq series.balance_domain social
    then ok 0
    else payoff_by_type series.payoff_type series.strike outcome_id settlement

-- Full collateral: a long and a short share one unit.
abbrev pub two_sided_value : ℤ → ℕ → ℕ
two_sided_value qty unit_payoff =
    if leb_ℤ (pos 0) qty
    then mul_u128 (unsigned_abs qty) unit_payoff
    else mul_u128 (unsigned_abs qty) (pow10_u128 usd_decimals - unit_payoff)

-- `get_settlement_value` reads the position's quantity and outcome.
unfoldable pub get_settlement_value :
    Series → ℤ → Option OutcomeId → SettlementInput → Res PayoffError ℕ
get_settlement_value series net_qty outcome_id settlement = do
  unit_payoff ← get_unit_payoff series outcome_id settlement
  ok (elim series.payoff_type [
    | binary ↦ two_sided_value net_qty unit_payoff
    | categorical ↦ two_sided_value net_qty unit_payoff
    | _ ↦ mul_u128 (unsigned_abs net_qty) unit_payoff
  ])

-- The margin of a binary or categorical position at a price in USD base units.
abbrev pub two_sided_margin : ℤ → ℕ → ℕ
two_sided_margin qty scaled_price =
    if ltb_ℤ (pos 0) qty
    then mul_u128 (unsigned_abs qty) scaled_price
    else if ltb_ℤ qty (pos 0)
    then mul_u128 (unsigned_abs qty) (pow10_u128 usd_decimals - scaled_price)
    else 0

-- A short put is margined at its strike.
unfoldable pub put_margin : Option Price → ℤ → ℕ → Res PayoffError ℕ
unfolding scale_price
put_margin strike qty scaled_price =
    if ltb_ℤ qty (pos 0)
    then elim strike [
      | none ↦ err missing_strike
      | some k ↦ do
        scaled_strike ← scale_price (price_value k) usd_decimals (price_decimals k) ceil
        ok (mul_u128 (unsigned_abs qty) scaled_strike)
    ]
    else ok (mul_u128 (unsigned_abs qty) scaled_price)

-- The match on the payoff type, at the price in USD base units.
unfoldable pub margin_by_type : PayoffType → Option Price → ℤ → ℕ → Res PayoffError ℕ
unfolding put_margin
margin_by_type binary strike qty scaled_price = ok (two_sided_margin qty scaled_price)
margin_by_type call strike qty scaled_price = ok (mul_u128 (unsigned_abs qty) scaled_price)
margin_by_type put strike qty scaled_price = put_margin strike qty scaled_price
margin_by_type categorical strike qty scaled_price = ok (two_sided_margin qty scaled_price)

unfoldable pub get_required_margin : Series → Price → ℤ → Option OutcomeId → Res PayoffError ℕ
unfolding margin_by_type
get_required_margin series trade_price qty outcome_id =
    if domain_beq series.balance_domain social then ok 0 else do
      scaled_price ←
          scale_price (price_value trade_price) usd_decimals (price_decimals trade_price) ceil
      margin_by_type series.payoff_type series.strike qty scaled_price
