-- ===== src/Payoffs/Solvency.antt =====
-- Why a settled pair is funded: the margins that a long and a short post together, and what
-- `get_settlement_value` pays them (src/clearing/src/payoffs/mod.rs).
use native.Mathlib.Nat.{mul-add}
use icdc_core.Prelude.{
  ℕ, suc, ◌+◌, ◌-◌, ◌*◌, ◌≤◌, ◌<◌, ◌≡◌, ◌≢◌, ◌⊎◌, inl, inr, sym, ap, ◌∙◌, Option, arith,
}
use icdc_core.Prelude.Int.{ℤ, pos, negsuc}
use icdc_core.Prelude.Words.{u128_mod, mul_u128-eq, pow10_u128}
use icdc_core.Prelude.Results.{ok}
use icdc_core.Shared.Domain.{social}
use icdc_core.Shared.Price.{Price, usd_decimals, price_value, price_decimals}
use icdc_core.Shared.Series.{Series, OutcomeId, binary, call, put, categorical, SettlementInput}
use icdc_core.Payoffs.{
  PayoffError, ceil, scale_price, get_unit_payoff, get_settlement_value, get_required_margin,
  two_sided_value, two_sided_margin,
}

-- Binary and categorical series, where a long and a short share one unit.
abbrev pub IsTwoSided : Series → Type 0
IsTwoSided s = (s.payoff_type ≡ binary) ⊎ (s.payoff_type ≡ categorical)

-- One unit, in USD base units.
abbrev pub unit_usd : ℕ
unit_usd = 10000

-- A quantity of contracts on the long or the short side.
pub data Direction : Type 0 where
  long short : Direction

-- `n + 1` contracts.
abbrev pub directed : Direction → ℕ → ℤ
directed long n = pos (suc n)
directed short n = negsuc n

pub share_total : (k u : ℕ) → u ≤ unit_usd → k * u + k * (unit_usd - u) ≡ k * unit_usd
share_total k u h = sym (mul-add k u (unit_usd - u)) ∙ ap (λ t. k * t) (omega arith)

two_sided_value_pair :
    (n u : ℕ)
    → u ≤ unit_usd
    → suc n * unit_usd < u128_mod
    → (two_sided_value (pos (suc n)) u ≡ suc n * u)
      × (two_sided_value (negsuc n) u ≡ suc n * (unit_usd - u))
unfolding pow10_u128
two_sided_value_pair n u bound fits =
    let total = share_total (suc n) u bound in
    (
      ground (arith, mul_u128-eq (suc n) u (omega (arith, total))),
      ground (arith, mul_u128-eq (suc n) (unit_usd - u) (omega (arith, total))),
    )

two_sided_margin_pair :
    (n u : ℕ)
    → u ≤ unit_usd
    → suc n * unit_usd < u128_mod
    → (two_sided_margin (pos (suc n)) u ≡ suc n * u)
      × (two_sided_margin (negsuc n) u ≡ suc n * (unit_usd - u))
unfolding pow10_u128
two_sided_margin_pair n u bound fits =
    let total = share_total (suc n) u bound in
    (
      ground (arith, mul_u128-eq (suc n) u (omega (arith, total))),
      ground (arith, mul_u128-eq (suc n) (unit_usd - u) (omega (arith, total))),
    )

module _ (s : Series) (o : Option OutcomeId) (i : SettlementInput) (n : ℕ) where
  -- What a long and a short of one quantity are paid: together one unit for each contract.
  pub settlement_value_pair :
      {u : ℕ}
      → IsTwoSided s
      → get_unit_payoff s o i ≡ ok u
      → u ≤ unit_usd
      → suc n * unit_usd < u128_mod
      → (get_settlement_value s (directed long n) o i ≡ ok (suc n * u))
        × (get_settlement_value s (directed short n) o i ≡ ok (suc n * (unit_usd - u)))
  unfolding get_settlement_value
  settlement_value_pair {u} two paid bound fits =
      ground (arith, two_sided_value_pair n u bound fits)

  -- On a call or a put the short is paid exactly what the long is paid.
  pub scalar_settlement_sides_agree :
      (s.payoff_type ≡ call) ⊎ (s.payoff_type ≡ put)
      → get_settlement_value s (directed short n) o i ≡ get_settlement_value s (directed long n) o i
  unfolding get_settlement_value
  scalar_settlement_sides_agree (inl e) = rw e
  scalar_settlement_sides_agree (inr e) = rw e

  -- On a two-sided social series a short is paid a whole unit for each contract, where the total
  -- fits in 128 bits.
  pub social_short_paid :
      s.balance_domain ≡ social
      → IsTwoSided s
      → suc n * unit_usd < u128_mod
      → get_settlement_value s (directed short n) o i ≡ ok (suc n * unit_usd)
  unfolding get_unit_payoff
  social_short_paid soc two fits =
      (settlement_value_pair {u = 0} two (ground arith) (omega arith) fits).1

-- A categorical series pays a whole unit or nothing.
categorical_unit_payoff_le :
    (s : Series) (o : Option OutcomeId) (i : SettlementInput) {u : ℕ}
    → s.payoff_type ≡ categorical
    → get_unit_payoff s o i ≡ ok u
    → u ≤ unit_usd
unfolding get_unit_payoff pow10_u128
categorical_unit_payoff_le s o i kind paid = ground arith

module _ (s : Series) (p : Price) (o : Option OutcomeId) (n : ℕ) where
  -- The margins of a long and a short of one quantity at one price.
  pub required_margin_pair :
      {u : ℕ}
      → IsTwoSided s
      → s.balance_domain ≢ social
      → scale_price {E = PayoffError} (price_value p) usd_decimals (price_decimals p) ceil ≡ ok u
      → u ≤ unit_usd
      → suc n * unit_usd < u128_mod
      → (get_required_margin s p (directed long n) o ≡ ok (suc n * u))
        × (get_required_margin s p (directed short n) o ≡ ok (suc n * (unit_usd - u)))
  unfolding get_required_margin
  required_margin_pair {u} two real scaled bound fits =
      ground (arith, two_sided_margin_pair n u bound fits)

-- Outside the social domain, a pair of opposite binary or categorical positions is paid exactly
-- what it has posted: the margins taken at any price up to one unit, and the payouts at any
-- settlement up to one unit, where one unit for each contract fits in 128 bits.
pub pair_funded :
    (s : Series) (p : Price) (o : Option OutcomeId) (i : SettlementInput) (n : ℕ) {sp u : ℕ}
    → IsTwoSided s
    → s.balance_domain ≢ social
    → scale_price {E = PayoffError} (price_value p) usd_decimals (price_decimals p) ceil ≡ ok sp
    → sp ≤ unit_usd
    → get_unit_payoff s o i ≡ ok u
    → u ≤ unit_usd
    → suc n * unit_usd < u128_mod
    → (posted_long : ℕ) × (posted_short : ℕ) × (paid_long : ℕ) × (paid_short : ℕ)
      × (get_required_margin s p (directed long n) o ≡ ok posted_long)
      × (get_required_margin s p (directed short n) o ≡ ok posted_short)
      × (get_settlement_value s (directed long n) o i ≡ ok paid_long)
      × (get_settlement_value s (directed short n) o i ≡ ok paid_short)
      × (paid_long + paid_short ≡ posted_long + posted_short)
pair_funded s p o i n {sp} {u} two real scaled small paid bound fits =
    let (ml, ms) = required_margin_pair s p o n two real scaled small fits in
    let (vl, vs) = settlement_value_pair s o i n two paid bound fits in
    (
      suc n * sp,
      suc n * (unit_usd - sp),
      suc n * u,
      suc n * (unit_usd - u),
      ml,
      ms,
      vl,
      vs,
      share_total (suc n) u bound ∙ sym (share_total (suc n) sp small),
    )
