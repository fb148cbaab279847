-- ===== src/Settlement/Prepare/Balance.antt =====
-- The money of a settlement adds up (`prepare_settlement_impl` of
-- src/clearing/src/api/settlement/api.rs).
use icdc_core.Prelude.{
  ℕ, ◌+◌, ◌*◌, ◌≤◌, ◌<◌, ◌≡◌, refl, sym, ap, ◌∙◌, List, [], ◌∷◌, arith, ◌==◌, if◌then◌else◌,
  Bool-cases, inl, inr,
}
use icdc_core.Prelude.Int.{ℤ, pos, pos_part, neg_part, ◌+ℤ◌, ◌-ℤ◌, int_bounds}
use icdc_core.Prelude.Words.{
  i128_lim, add_u128-eq, cast_signed, cast_signed-eq, sub_i128, sub_i128-eq, sub_i128-cast_signed,
}
use icdc_core.Prelude.Results.{Res, ok, err, trap, ok-injective}
use icdc_core.Shared.Series.{Series, SeriesId, SettlementInput}
use icdc_core.Payoffs.{PayoffError, get_settlement_value, calculate_settlement_fee}
use icdc_core.Payoffs.Rounding.{calculate_settlement_fee_bounds}
use icdc_core.Margin.{PositionKey, Position, PositionsMap}
use icdc_core.Clearing.Errors.{SettlementError}
use icdc_core.Clearing.Plans.{SettlementPosition}
use icdc_core.Settlement.Prepare.{
  FeeRatios, Gathered, cashflow_of, nothing_gathered, gather_position, gather_positions,
}
use icdc_core.Settlement.Prepare.Cleared.{gather_positions-match, gather_positions-skip}

abbrev value_or_zero : Res PayoffError ℕ → ℕ
value_or_zero (ok v) = v
value_or_zero (err e) = 0
value_or_zero trap = 0

-- What the positions of the series are worth at the settlement, before fees.
unfoldable pub total_payoff : Series → SeriesId → SettlementInput → PositionsMap → ℕ
total_payoff ser series_id i [] = 0
total_payoff ser series_id i ((k, p) ∷ ps) =
    let rest = total_payoff ser series_id i ps in
    if k.1.0 == series_id
    then rest + value_or_zero (get_settlement_value ser p.net_qty p.outcome_id i)
    else rest

-- The margins that the positions of the series hold.
unfoldable pub total_margin : SeriesId → PositionsMap → ℕ
total_margin series_id [] = 0
total_margin series_id ((k, p) ∷ ps) =
    let rest = total_margin series_id ps in
    if k.1.0 == series_id then rest + p.reserved_margin_usd else rest

-- The cashflows of the rows, added up without wrapping around.
unfoldable pub total_cashflow : List SettlementPosition → ℤ
total_cashflow [] = pos 0
total_cashflow (r ∷ rs) = total_cashflow rs +ℤ r.cashflow_usd

-- A cashflow is exact for amounts that fit.
cashflow_of-eq :
    (v m i p : ℕ)
    → v < i128_lim
    → m + i + p < i128_lim
    → cashflow_of v m i p ≡ pos v -ℤ pos (m + i + p)
cashflow_of-eq v m i p hv h =
    let one = sub_i128-cast_signed v m hv (omega (arith, h)) in
    let two : sub_i128 (pos v -ℤ pos m) (cast_signed i) ≡ pos v -ℤ pos m -ℤ pos i =
      rw (cast_signed-eq i (omega (arith, h)))
        (sub_i128-eq (pos v -ℤ pos m) (pos i) (omega (int_bounds, h, hv))) in
    let three : sub_i128 (pos v -ℤ pos m -ℤ pos i) (cast_signed p)
        ≡ pos v -ℤ pos m -ℤ pos i -ℤ pos p =
      rw (cast_signed-eq p (omega (arith, h)))
        (sub_i128-eq (pos v -ℤ pos m -ℤ pos i) (pos p) (omega (int_bounds, h, hv))) in
    rw (one, two, three) (omega int_bounds)

-- One more row keeps the balance.
balance_step :
    (t : ℤ) (x y v out payoffs : ℕ)
    → t +ℤ pos x ≡ pos payoffs
    → y ≡ x + out
    → t +ℤ (pos v -ℤ pos out) +ℤ pos y ≡ pos (payoffs + v)
balance_step t x y v out payoffs h e =
    let up : pos_part (t +ℤ pos x) ≡ payoffs = ap pos_part h in
    let down : neg_part (t +ℤ pos x) ≡ 0 = ap neg_part h in omega (int_bounds, up, down, e)

-- The wrapped totals of the fees are exact, and each is at most the total of the payoffs.
pub record Balanced (payoffs margins : ℕ) (g : Gathered) : Type 0 where
  pub insurance : g.total_insurance_fee ≤ payoffs
  pub protocol : g.total_protocol_fee ≤ payoffs
  pub balance :
      total_cashflow g.results +ℤ pos (g.total_insurance_fee + g.total_protocol_fee + margins)
      ≡ pos payoffs

gather_position-Balanced :
    (fees : FeeRatios) (k : PositionKey) (p : Position) (v payoffs margins : ℕ) (g : Gathered)
    → fees.insurance_fund_fee_ratio ≤ 10000
    → fees.protocol_fee_ratio ≤ 10000
    → (payoffs + v) * 10000 < i128_lim
    → 2 * (margins + p.reserved_margin_usd) < i128_lim
    → Balanced payoffs margins g
    → Balanced (payoffs + v) (margins + p.reserved_margin_usd) (gather_position fees k p v g)
unfolding gather_position total_cashflow
gather_position-Balanced fees k p v payoffs margins g hi hp small held b =
    let fee_i = calculate_settlement_fee v fees.insurance_fund_fee_ratio in
    let fee_p = calculate_settlement_fee v fees.protocol_fee_ratio in
    let (le_i, _) =
      calculate_settlement_fee_bounds v fees.insurance_fund_fee_ratio hi (omega (arith, small)) in
    let (le_p, _) =
      calculate_settlement_fee_bounds v fees.protocol_fee_ratio hp (omega (arith, small)) in
    let sum_i = add_u128-eq g.total_insurance_fee fee_i (omega (arith, b.insurance, le_i, small)) in
    let sum_p = add_u128-eq g.total_protocol_fee fee_p (omega (arith, b.protocol, le_p, small)) in
    let cash =
      cashflow_of-eq v p.reserved_margin_usd fee_i fee_p (omega (arith, small))
        (omega (arith, le_i, le_p, small, held)) in
    record {
      insurance = rw sum_i (omega (arith, b.insurance, le_i));
      protocol = rw sum_p (omega (arith, b.protocol, le_p));
      balance =
          rw (sum_i, sum_p, cash)
            (balance_step (total_cashflow g.results)
              (g.total_insurance_fee + g.total_protocol_fee + margins)
              (g.total_insurance_fee
                + fee_i
                + (g.total_protocol_fee + fee_p)
                + (margins + p.reserved_margin_usd))
              v (p.reserved_margin_usd + fee_i + fee_p) payoffs b.balance (omega arith));
    }

nothing_gathered-Balanced :
    {g : Gathered}
    → ◌≡◌ {A = Res SettlementError Gathered} (ok nothing_gathered) (ok g)
    → Balanced 0 0 g
unfolding total_cashflow
nothing_gathered-Balanced h =
    rw (sym (ok-injective h))
      (record { insurance = omega arith; protocol = omega arith; balance = unfold ◌+ℤ◌ in refl })

module _ (ser : Series) (series_id : SeriesId) (i : SettlementInput) (fees : FeeRatios)
    (ins : fees.insurance_fund_fee_ratio ≤ 10000) (prot : fees.protocol_fee_ratio ≤ 10000) where
  gather_positions-nil : gather_positions ser series_id i fees [] ≡ ok nothing_gathered
  unfolding gather_positions
  gather_positions-nil = refl

  -- Where the fees are at most 10,000 basis points, 10,000 times the total payoff fits an `i128`
  -- and so does twice the total margin, the cashflows of the plan, its two fees and the margins
  -- that it releases add up to exactly the total payoff, and neither fee exceeds it.
  pub gather_positions-Balanced :
      (ps : PositionsMap) {g : Gathered}
      → total_payoff ser series_id i ps * 10000 < i128_lim
      → 2 * total_margin series_id ps < i128_lim
      → gather_positions ser series_id i fees ps ≡ ok g
      → Balanced (total_payoff ser series_id i ps) (total_margin series_id ps) g
  unfolding total_payoff total_margin
  gather_positions-Balanced [] small held h =
      nothing_gathered-Balanced (sym gather_positions-nil ∙ h)
  gather_positions-Balanced ((k, p) ∷ ps) {g} small held h =
      elim (Bool-cases (k.1.0 == series_id)) [
        | inl same ↦
            let (v, rest, paid, gathered, e) =
              gather_positions-match ser series_id i fees k p ps same h in
            let small' = rw (same, paid) at small in
            let held' = rw same at held in
            let rest_ok =
              gather_positions-Balanced ps (omega (arith, small')) (omega (arith, held'))
                gathered in
            rw (same, paid, e)
              (gather_position-Balanced fees k p v (total_payoff ser series_id i ps)
                (total_margin series_id ps) rest ins prot small' held' rest_ok)
        | inr other ↦ rw other (
            gather_positions-Balanced ps (rw other at small) (rw other at held)
              (sym (gather_positions-skip ser series_id i fees k p ps other) ∙ h))
      ]
