-- ===== src/Tests/SetRuns.antt =====
-- Runs of complete sets and of the gate on buy orders, on a series with two outcomes.
use icdc_core.Prelude.{◌/◌, ◌≡◌, refl, true, some, List, [], ◌∷◌, arith, if◌then◌else◌}
use icdc_core.Prelude.Int.{ℤ, pos, ◌+ℤ◌, ◌-ℤ◌}
use icdc_core.Prelude.Words.{
  mul_u128, pow10_u128, add_u128, cast_signed, cast_unsigned, wrap_i128, add_i128, sub_i128,
}
use icdc_core.Prelude.Maps.{nat_key, lookup, insert}
use icdc_core.Prelude.Results.{ok}
use icdc_core.Shared.Domain.{settlement}
use icdc_core.Shared.Price.{new_price}
use icdc_core.Shared.Series.{Series, Outcome, categorical}
use icdc_core.Margin.{
  PositionKey, position_key, get_cash_balance_usd, get_reserved_margin_usd, set_reserved_margin_usd,
  calculate_raw_equity, calculate_equity_usd, add_asset_values,
}
use icdc_core.Clearing.Errors.{TradeError}
use icdc_core.Clearing.Orders.{buy}
use icdc_core.Clearing.State.{Clearing, done, state_after}
use icdc_core.Trade.Execute.{account_or_new, position_or_new}
use icdc_core.Trade.Orders.{SubmitLimitOrderParams}
use icdc_core.Trade.Sets.{
  set_outcomes, total_cost_usd, grant, grant_all, reserve_cost, grant_set, mint_complete_set_logic,
  redeem_complete_set_logic,
}
use icdc_core.Prelude.{◌+◌, ◌*◌}
use icdc_core.Prelude.Int.{◌≤ℤ◌}
use icdc_core.Payoffs.Solvency.{unit_usd}
use icdc_core.Trade.Sets.Minted.{mint_complete_set_logic-grants, covers, granted}
use icdc_core.Trade.Arbitrage.{Bids}
use icdc_core.Tests.Fixture.{binary_series, empty_market, market, bid}

abbrev two_outcomes : List Outcome
two_outcomes = record { id = 1 } ∷ record { id = 2 } ∷ []

abbrev choices : Series
choices = record binary_series { payoff_type = categorical; outcomes = some two_outcomes }

-- User 1 mints three sets, and redeems them again.
abbrev minted : Clearing
minted = state_after empty_market (mint_complete_set_logic 1 1 choices (pos 3) empty_market)

mints : mint_complete_set_logic 1 1 choices (pos 3) empty_market ≡ done true minted
unfolding mint_complete_set_logic set_outcomes reserve_cost grant_set grant_all grant total_cost_usd
    mul_u128 pow10_u128 cast_signed cast_unsigned wrap_i128 add_i128 sub_i128 add_u128 ◌+ℤ◌ ◌-ℤ◌
    calculate_raw_equity calculate_equity_usd add_asset_values get_cash_balance_usd
    get_reserved_margin_usd set_reserved_margin_usd
mints = refl

abbrev burnt : Clearing
burnt = state_after minted (redeem_complete_set_logic 1 1 choices (pos 3) minted)

mint_complete_set_logic-grants_example :
    let acc = account_or_new empty_market.accounts 1 in
    let reserve = get_reserved_margin_usd acc settlement + 3 * unit_usd in
    ((k : PositionKey)
      → lookup k minted.positions ≡ (
          if covers 1 1 two_outcomes k
          then some (granted (pos 3) (3 * unit_usd / 2) (position_or_new empty_market.positions k))
          else lookup k empty_market.positions))
    × (minted.accounts
        ≡ insert 1 (set_reserved_margin_usd acc settlement reserve) empty_market.accounts)
    × ((equity : ℤ) × (calculate_raw_equity {E = TradeError} acc settlement [] [] ≡ ok equity)
        × (pos reserve ≤ℤ equity))
    × (minted ≡ record empty_market { positions = minted.positions; accounts = minted.accounts })
unfolding get_reserved_margin_usd
mint_complete_set_logic-grants_example =
    mint_complete_set_logic-grants 1 1 choices (pos 3) two_outcomes empty_market refl
      (refl, (refl, tt)) (omega arith) mints

-- Two bids of half a dollar, one on each outcome, make a whole dollar.
abbrev order : SubmitLimitOrderParams
order = record {
  order_id = 22;
  series_id = 1;
  outcome_id = some 2;
  side = buy;
  qty = pos 1;
  price = new_price 50 2;
}

abbrev bidden : Clearing
bidden = market [] ((21, record bid { outcome_id = some 1 }) ∷ [])
