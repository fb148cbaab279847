-- ===== src/Tests/PayoffRuns.antt =====
-- Runs of the payoff, margin and fee functions.
use icdc_core.Prelude.{ℕ, suc, ◌+◌, ◌-◌, ◌*◌, ◌^◌, ◌≤◌, ◌<◌, ◌≡◌, refl, inl, none, some, arith}
use icdc_core.Prelude.Words.{mul_u128, pow10_u128}
use icdc_core.Prelude.Results.{ok}
use icdc_core.Shared.Domain.{social}
use icdc_core.Shared.Price.{new_price}
use icdc_core.Shared.Series.{Series, call, price}
use icdc_core.Payoffs.{
  PayoffError, floor, ceil, scale_price, payoff_by_type, get_unit_payoff, get_settlement_value,
  get_required_margin,
}
use icdc_core.Payoffs.Rounding.{scale_price_rounding}
use icdc_core.Payoffs.Solvency.{
  long, short, directed, unit_usd, scalar_settlement_sides_agree, social_short_paid, pair_funded,
}
use icdc_core.Tests.Fixture.{binary_series, half}

scale_price_rounding_example :
    (lo : ℕ) × (hi : ℕ) × (scale_price {E = PayoffError} 1234567 4 6 floor ≡ ok lo)
    × (scale_price {E = PayoffError} 1234567 4 6 ceil ≡ ok hi)
    × (lo * 10 ^ (6 - 4) ≤ 1234567)
    × (1234567 < (lo + 1) * 10 ^ (6 - 4))
    × (1234567 ≤ hi * 10 ^ (6 - 4))
    × (lo ≤ hi)
    × (hi ≤ lo + 1)
scale_price_rounding_example = scale_price_rounding 1234567 4 6 (omega arith) (omega arith)

pair_funded_example :
    (posted_long : ℕ) × (posted_short : ℕ) × (paid_long : ℕ) × (paid_short : ℕ)
    × (get_required_margin binary_series half (directed long 1) none ≡ ok posted_long)
    × (get_required_margin binary_series half (directed short 1) none ≡ ok posted_short)
    × (get_settlement_value binary_series (directed long 1) none (price (new_price 1 0))
        ≡ ok paid_long)
    × (get_settlement_value binary_series (directed short 1) none (price (new_price 1 0))
        ≡ ok paid_short)
    × (paid_long + paid_short ≡ posted_long + posted_short)
unfolding scale_price pow10_u128 mul_u128 get_unit_payoff payoff_by_type
pair_funded_example =
    pair_funded binary_series half none (price (new_price 1 0)) 1 {sp = 5000} {u = 10000} (inl refl)
      (λ e. ground arith) refl (omega arith) refl (omega arith) (omega arith)

abbrev call_series : Series
call_series = record binary_series { payoff_type = call; strike = some (new_price 40 2) }

scalar_settlement_sides_agree_example :
    get_settlement_value call_series (directed short 1) none (price half)
    ≡ get_settlement_value call_series (directed long 1) none (price half)
scalar_settlement_sides_agree_example =
    scalar_settlement_sides_agree call_series none (price half) 1 (inl refl)

abbrev social_series : Series
social_series = record binary_series { balance_domain = social }

social_short_paid_example :
    get_settlement_value social_series (directed short 1) none (price half) ≡ ok (suc 1 * unit_usd)
social_short_paid_example =
    social_short_paid social_series none (price half) 1 refl (inl refl) (omega arith)
