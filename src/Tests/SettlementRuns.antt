-- ===== src/Tests/SettlementRuns.antt =====
-- Runs of the settlement of a binary series at one dollar.
use icdc_core.Prelude.{
  ◌≡◌, refl, true, false, some, none, arith, [], ◌∷◌, ◌++◌, ◌==◌, if◌then◌else◌,
}
use icdc_core.Prelude.Int.{pos, negsuc, ◌+ℤ◌, ◌-ℤ◌}
use icdc_core.Prelude.Words.{
  add_u128, mul_u128, pow10_u128, cast_signed, cast_unsigned, wrap_i128, add_i128, sub_i128,
}
use icdc_core.Prelude.Maps.{nat_key, lookup}
use icdc_core.Shared.Domain.{settlement}
use icdc_core.Shared.Price.{new_price}
use icdc_core.Shared.Series.{SettlementInput, price, outcome}
use icdc_core.Payoffs.{
  invalid_settlement_type, scale_price, calculate_settlement_fee, payoff_by_type, get_unit_payoff,
  get_settlement_value,
}
use icdc_core.Margin.{
  AccountState, position_key, get_cash_balance_usd, get_reserved_margin_usd, calculate_raw_equity,
  add_asset_values,
}
use icdc_core.Clearing.Errors.{settlement_payoff_error}
use icdc_core.Clearing.Plans.{
  SettlementPlan, planned, finalised, icrc_created_at_time_ns, settlement_get_or_create,
}
use icdc_core.Clearing.State.{Clearing, done, state_after}
use icdc_core.Settlement.Prepare.{
  FeeRatios, Gathered, gather_position, gather_positions, cashflow_by_user, post_settlement_equity,
  check_settlement_solvency, cancel_open_limit_orders, commit_settlement, prepare_settlement_impl,
}
use icdc_core.Prelude.Results.{ok}
use icdc_core.Settlement.Prepare.Balance.{
  total_payoff, total_margin, Balanced, gather_positions-Balanced,
}
use icdc_core.Settlement.Prepare.Cleared.{
  keep_other, prepare_settlement_impl-positions, prepare_settlement_impl-orders,
  prepare_settlement_impl-atomic,
}
use icdc_core.Settlement.Accounting.{frozen, start, settle_loop, apply_settlement_accounting_logic}
use icdc_core.Settlement.Accounting.Chunks.{Batch, remaining, settle_loop-Batch}
use icdc_core.Settlement.Accounting.Cash.{
  cash_after, reserved_after, apply_settlement_accounting_logic-user,
}
use icdc_core.Settlement.Settle.Drive.{Closed}
use icdc_core.Settlement.Settle.Completion.{settle_again, settle_again-Closed, settle_again-settles}
use icdc_core.Settlement.Listing.{settled_ids, list_settled_series}
use icdc_core.Settlement.Listing.Cursor.{list_settled_series-resumes}
use icdc_core.Prelude.{ℕ, ◌+◌, ◌≤◌, length, take, min}
use icdc_core.Tests.Fixture.{env, binary_series, market, pair, bid, account}

abbrev pair_market : Clearing
pair_market = market pair ((21, bid) ∷ [])

abbrev one_dollar : SettlementInput
one_dollar = price (new_price 1 0)

abbrev ratios : FeeRatios
ratios = record { insurance_fund_fee_ratio = 100; protocol_fee_ratio = 50 }

-- User 1 is paid two dollars less fees, user 2 loses its margin.
abbrev plan : SettlementPlan
plan = record {
  series_id = 1;
  settlement = one_dollar;
  oracle_source = 7;
  fee_usd = 100;
  insurance_fee_usd = 200;
  positions =
      record {
        user = 1;
        outcome_id = none;
        net_qty = pos 2;
        reserved_margin_usd = 10000;
        cashflow_usd = pos 9700;
      }
      ∷ record {
        user = 2;
        outcome_id = none;
        net_qty = negsuc 1;
        reserved_margin_usd = 10000;
        cashflow_usd = negsuc 9999;
      }
      ∷ [];
  accounting_cursor = 0;
  accounting_applied = false;
  status = planned;
  idempotency_ns = icrc_created_at_time_ns 100;
  balance_domain = settlement;
}

abbrev prepared : Clearing
prepared =
    state_after pair_market
      (prepare_settlement_impl env binary_series 1 one_dollar ratios pair_market)

prepares :
    prepare_settlement_impl env binary_series 1 one_dollar ratios pair_market ≡ done plan prepared
unfolding prepare_settlement_impl commit_settlement gather_positions gather_position
    get_settlement_value get_unit_payoff payoff_by_type scale_price pow10_u128 mul_u128 add_u128
    cast_signed cast_unsigned wrap_i128 add_i128 sub_i128 ◌+ℤ◌ ◌-ℤ◌ calculate_settlement_fee
    check_settlement_solvency post_settlement_equity cashflow_by_user calculate_raw_equity
    add_asset_values get_cash_balance_usd settlement_get_or_create cancel_open_limit_orders
prepares = refl

prepare_settlement_impl-positions_example :
    lookup (1, (1, none)) prepared.positions
    ≡ (if 1 == 1 then none else lookup (1, (1, none)) pair_market.positions)
prepare_settlement_impl-positions_example =
    prepare_settlement_impl-positions env binary_series 1 one_dollar ratios pair_market
      (1, (1, none)) prepares

prepare_settlement_impl-orders_example :
    lookup 21 prepared.limit_orders ≡ keep_other 1 (lookup 21 pair_market.limit_orders)
prepare_settlement_impl-orders_example =
    prepare_settlement_impl-orders env binary_series 1 one_dollar ratios pair_market 21 (refl, tt)
      prepares

prepare_settlement_impl-atomic_example : pair_market ≡ pair_market
unfolding prepare_settlement_impl gather_positions get_settlement_value get_unit_payoff
    payoff_by_type
prepare_settlement_impl-atomic_example =
    prepare_settlement_impl-atomic env binary_series 1 (outcome 3) ratios pair_market
      {e = settlement_payoff_error invalid_settlement_type} refl

settle_again-settles_example :
    Closed 1 plan prepared (settle_again 2 (λ _. env) (λ _ _. 1) 1 one_dollar pair_market)
settle_again-settles_example =
    settle_again-settles (λ _. env) (λ _ _. 1) binary_series 1 one_dollar pair_market 1 refl refl
      prepares (omega arith)

abbrev open_market : Clearing
open_market = record pair_market { settlement_plans = (1, plan) ∷ [] }

settle_again-Closed_example :
    Closed 1 plan open_market (settle_again 2 (λ _. env) (λ _ _. 1) 1 one_dollar open_market)
settle_again-Closed_example =
    settle_again-Closed (λ _. env) (λ _ _. 1) 1 one_dollar 2 plan open_market
      (record {
        stored = refl;
        unfinished = refl;
        same = refl;
        unapplied = refl;
        in_range = omega arith;
      })
      (omega arith) (omega arith)

apply_settlement_accounting_logic-user_example :
    let (newly_applied, (plan', st')) =
      apply_settlement_accounting_logic env (λ _. 1) plan pair_market in
    (n : ℕ) × (n ≤ length (remaining plan))
    × (min 1 (length (remaining plan)) ≤ n)
    × (plan'.accounting_cursor ≡ 0 + n)
    × (b : AccountState) × (lookup 2 st'.accounts ≡ some b)
    × (get_cash_balance_usd b settlement
        ≡ cash_after 2
            (take n (remaining plan))
            (get_cash_balance_usd (account 2 (pos 100000)) settlement))
    × (get_reserved_margin_usd b settlement
        ≡ reserved_after 2
            (take n (remaining plan))
            (get_reserved_margin_usd (account 2 (pos 100000)) settlement))
apply_settlement_accounting_logic-user_example =
    apply_settlement_accounting_logic-user env (λ _. 1) plan pair_market 2 refl

settle_loop-Batch_example :
    Batch
      (frozen plan)
      plan.positions
      (start plan pair_market)
      (settle_loop env (λ _. 1) (frozen plan) plan.positions (start plan pair_market))
settle_loop-Batch_example =
    settle_loop-Batch env (λ _. 1) (frozen plan) plan.positions (start plan pair_market)

abbrev closed_market : Clearing
closed_market = record pair_market {
  settlement_plans = (1, record plan { status = finalised; accounting_applied = true }) ∷ [];
}

abbrev gathered : Gathered
gathered = record {
  total_insurance_fee = 200;
  total_protocol_fee = 100;
  total_net_payoff = 9700;
  results = plan.positions;
}

gathers : gather_positions binary_series 1 one_dollar ratios pair ≡ ok gathered
unfolding gather_positions gather_position get_settlement_value get_unit_payoff payoff_by_type
    scale_price pow10_u128 mul_u128 add_u128 cast_signed cast_unsigned wrap_i128 sub_i128 ◌-ℤ◌
    calculate_settlement_fee
gathers = refl

gather_positions-Balanced_example :
    Balanced (total_payoff binary_series 1 one_dollar pair) (total_margin 1 pair) gathered
unfolding total_payoff total_margin get_settlement_value get_unit_payoff payoff_by_type scale_price
    pow10_u128 mul_u128
gather_positions-Balanced_example =
    gather_positions-Balanced binary_series 1 one_dollar ratios (omega arith) (omega arith) pair
      (omega arith) (omega arith) gathers

-- Two plans, listed one at a time.
abbrev two_plans : Clearing
two_plans = record pair_market {
  settlement_plans = (1, plan) ∷ (4, record plan { series_id = 4 }) ∷ [];
}

list_settled_series-resumes_example :
    (list_settled_series none none (some 1) two_plans).items
      ++ settled_ids none (some 1) two_plans.settlement_plans
    ≡ settled_ids none none two_plans.settlement_plans
unfolding list_settled_series settled_ids
list_settled_series-resumes_example =
    list_settled_series-resumes none none (some 1) two_plans ((omega arith, tt), (tt, tt)) refl
