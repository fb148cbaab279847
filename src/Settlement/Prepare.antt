-- ===== src/Settlement/Prepare.antt =====
-- `prepare_settlement_impl`, `check_settlement_solvency` and `cancel_open_limit_orders`
-- (src/clearing/src/api/settlement/api.rs).
pub mod Cleared
pub mod Balance
use icdc_core.Prelude.{
  ℕ, ◌-◌, Bool, Option, none, some, List, [], ◌∷◌, map, ltb, ◌==◌, if◌then◌else◌, filter_by,
}
use icdc_core.Prelude.Int.{ℤ, pos, ltb_ℤ}
use icdc_core.Prelude.Words.{add_u128, cast_signed, cast_unsigned, add_i128, sub_i128}
use icdc_core.Prelude.Maps.{Map, nat_key, lookup, insert, remove, values}
use icdc_core.Prelude.Results.{Res, ok, err, map_err, ◌>>=◌}
use icdc_core.Shared.Domain.{BalanceDomain}
use icdc_core.Shared.Series.{Series, SeriesId, SettlementInput}
use icdc_core.Payoffs.{get_settlement_value, calculate_settlement_fee}
use icdc_core.Margin.{
  User, PositionKey, position_key, Position, PositionsMap, AccountState, unwrap_or,
  get_reserved_margin_usd, set_reserved_margin_usd, calculate_raw_equity,
}
use icdc_core.Clearing.Errors.{SettlementError, solvency_violation, settlement_payoff_error}
use icdc_core.Clearing.Orders.{OrderId, LimitOrder}
use icdc_core.Clearing.Plans.{
  SettlementPosition, SettlementPlanParams, SettlementPlan, settlement_get_or_create,
}
use icdc_core.Clearing.State.{Clearing, Env, Reply, done, failed, trapped, proceed}

-- What the loop over the positions has gathered.
pub record Gathered : Type 0 where
  pub total_insurance_fee : ℕ
  pub total_protocol_fee : ℕ
  pub total_net_payoff : ℕ
  pub results : List SettlementPosition

-- The two fees in basis points, the fund's and the protocol's.
pub record FeeRatios : Type 0 where
  pub insurance_fund_fee_ratio : ℕ
  pub protocol_fee_ratio : ℕ

-- `payoff - margin - insurance fee - protocol fee`.
abbrev pub cashflow_of : ℕ → ℕ → ℕ → ℕ → ℤ
cashflow_of payoff margin i_fee p_fee =
    sub_i128 (sub_i128 (sub_i128 (cast_signed payoff) (cast_signed margin)) (cast_signed i_fee))
      (cast_signed p_fee)

-- The row of a position, added in front of what the later positions give. The sums wrap, so
-- the order of the additions does not change them.
unfoldable pub gather_position : FeeRatios → PositionKey → Position → ℕ → Gathered → Gathered
gather_position fees key position payoff rest =
    let i_fee = calculate_settlement_fee payoff fees.insurance_fund_fee_ratio in
    let p_fee = calculate_settlement_fee payoff fees.protocol_fee_ratio in
    let cashflow = cashflow_of payoff position.reserved_margin_usd i_fee p_fee in
    record {
      total_insurance_fee = add_u128 rest.total_insurance_fee i_fee;
      total_protocol_fee = add_u128 rest.total_protocol_fee p_fee;
      total_net_payoff =
          if ltb_ℤ (ℤ.pos 0) cashflow
          then add_u128 rest.total_net_payoff (cast_unsigned cashflow)
          else rest.total_net_payoff;
      results =
          record {
            user = key.0;
            outcome_id = key.1.1;
            net_qty = position.net_qty;
            reserved_margin_usd = position.reserved_margin_usd;
            cashflow_usd = cashflow;
          }
          ∷ rest.results;
    }

abbrev pub nothing_gathered : Gathered
nothing_gathered = record {
  total_insurance_fee = 0;
  total_protocol_fee = 0;
  total_net_payoff = 0;
  results = [];
}

unfoldable pub gather_positions :
    Series → SeriesId → SettlementInput → FeeRatios → PositionsMap → Res SettlementError Gathered
gather_positions ser series_id settlement fees [] = ok nothing_gathered
gather_positions ser series_id settlement fees ((key, position) ∷ rest) =
    let others = gather_positions ser series_id settlement fees rest in
    if key.1.0 == series_id
    then (do
      payoff ←
          map_err settlement_payoff_error
            (get_settlement_value ser position.net_qty position.outcome_id settlement)
      gathered ← others
      ok (gather_position fees key position payoff gathered))
    else others

-- `cashflow_by_user`: the wrapping sum of each user's cashflows.
unfoldable pub cashflow_by_user : List SettlementPosition → Map User ℤ → Map User ℤ
cashflow_by_user [] acc = acc
cashflow_by_user (p ∷ ps) acc =
    cashflow_by_user ps
      (insert p.user (add_i128 (unwrap_or (lookup p.user acc) (pos 0)) p.cashflow_usd) acc)

-- An equity that is not below zero, added to a sum.
abbrev pub add_clamped : ℤ → ℕ → ℕ
add_clamped post rest = if ltb_ℤ post (pos 0) then rest else add_u128 rest (cast_unsigned post)

-- The sum of the accounts' equities after their cashflows, each not below zero.
unfoldable pub post_settlement_equity :
    Clearing → BalanceDomain → Map User ℤ → List AccountState → Res SettlementError ℕ
post_settlement_equity st domain cashflows [] = ok 0
post_settlement_equity st domain cashflows (acc ∷ accs) = do
  current ← calculate_raw_equity acc domain st.collateral_assets st.asset_metrics
  rest ← post_settlement_equity st domain cashflows accs
  ok (add_clamped (add_i128 current (unwrap_or (lookup acc.user cashflows) (pos 0))) rest)

unfoldable pub check_settlement_solvency :
    Clearing → BalanceDomain → ℕ → List SettlementPosition → Res SettlementError (Unit {0})
check_settlement_solvency st domain total_net_payoff positions = do
  total ← post_settlement_equity st domain (cashflow_by_user positions []) (values st.accounts)
  if ltb total total_net_payoff then err (solvency_violation total_net_payoff total) else ok tt

unfoldable pub remove_settled : SeriesId → List SettlementPosition → PositionsMap → PositionsMap
remove_settled series_id [] positions = positions
remove_settled series_id (p ∷ ps) positions =
    remove_settled series_id ps (remove (p.user, (series_id, p.outcome_id)) positions)

unfoldable pub remove_orders : List OrderId → Map OrderId LimitOrder → Map OrderId LimitOrder
remove_orders [] orders = orders
remove_orders (id ∷ ids) orders = remove_orders ids (remove id orders)

-- Each cancelled order releases its margin, down to zero, where its creator has an account.
unfoldable pub release_orders : List LimitOrder → Map User AccountState → Map User AccountState
release_orders [] accounts = accounts
release_orders (o ∷ os) accounts = release_orders os (elim (lookup o.creator accounts) [
  | none ↦ accounts
  | some acc ↦
      insert o.creator
        (set_reserved_margin_usd acc o.balance_domain
          (get_reserved_margin_usd acc o.balance_domain - o.blocked_margin_usd))
        accounts
])

-- The entries of the book that stand on the series.
unfoldable pub matching_orders : SeriesId → Map OrderId LimitOrder → List (OrderId × LimitOrder)
matching_orders series_id = filter_by λ e. e.1.series_id == series_id

unfoldable pub cancel_open_limit_orders : SeriesId → Clearing → Clearing
cancel_open_limit_orders series_id st =
    let matching = matching_orders series_id st.limit_orders in
    record st {
      limit_orders = remove_orders (map (λ e. e.0) matching) st.limit_orders;
      accounts = release_orders (map (λ e. e.1) matching) st.accounts;
    }

abbrev pub plan_params : Series → SeriesId → SettlementInput → Gathered → SettlementPlanParams
plan_params ser series_id settlement g = record {
  series_id = series_id;
  settlement = settlement;
  oracle_source = ser.oracle_source;
  fee = g.total_protocol_fee;
  insurance_fee = g.total_insurance_fee;
  positions = g.results;
  balance_domain = ser.balance_domain;
}

-- The writes of a settlement whose solvency was checked: the positions and the orders of the
-- series go, and its plan is opened.
unfoldable pub commit_settlement :
    Env → Series → SeriesId → SettlementInput → Clearing → Gathered → SettlementPlan × Clearing
commit_settlement env ser series_id settlement st g =
    let cleared =
      cancel_open_limit_orders series_id
        (record st { positions = remove_settled series_id g.results st.positions }) in
    let (plan, plans) =
      settlement_get_or_create (plan_params ser series_id settlement g) env.now
        cleared.settlement_plans in
    (plan, record cleared { settlement_plans = plans })

unfoldable pub prepare_settlement_impl :
    Env
    → Series
    → SeriesId
    → SettlementInput
    → FeeRatios
    → Clearing
    → Reply SettlementError SettlementPlan
prepare_settlement_impl env ser series_id settlement fees st =
    proceed (gather_positions ser series_id settlement fees st.positions) st λ g.
      proceed (check_settlement_solvency st ser.balance_domain g.total_net_payoff g.results) st
        λ _. let (plan, st') = commit_settlement env ser series_id settlement st g in done plan st'
