-- ===== src/Tests/TradeRuns.antt =====
-- Runs of `execute_trade_impl`.
use icdc_core.Prelude.{ℕ, ◌≡◌, ◌≢◌, refl, true, arith, inl, none, []}
use icdc_core.Prelude.Int.{ℤ, pos, ◌+ℤ◌, ◌-ℤ◌}
use icdc_core.Prelude.Words.{
  add_u128, mul_u128, pow10_u128, cast_signed, cast_unsigned, wrap_i128, add_i128, sub_i128,
}
use icdc_core.Payoffs.{scale_price, get_required_margin, margin_by_type}
use icdc_core.Margin.{
  get_cash_balance_usd, get_reserved_margin_usd, calculate_raw_equity, calculate_equity_usd,
  add_asset_values,
}
use icdc_core.Clearing.State.{Clearing, done, state_after}
use icdc_core.Trade.Execute.{
  trade_deltas, change_reserved, check_party, validate_trade, execute_trade_impl,
}
use icdc_core.Prelude.Int.{◌≤ℤ◌}
use icdc_core.Prelude.Maps.{nat_key, lookup}
use icdc_core.Prelude.Results.{ok}
use icdc_core.Clearing.Errors.{TradeError}
use icdc_core.Margin.{User, PositionKey, position_key}
use icdc_core.Shared.Domain.{settlement}
use icdc_core.Trade.Execute.{commit_trade, update_party}
use icdc_core.Margin.{set_reserved_margin_usd, set_cash_balance_usd}
use icdc_core.Trade.Execute.{position_or_new, account_or_new, buyer_key, seller_key}
use icdc_core.Shared.Price.{new_price}
use icdc_core.Payoffs.Solvency.{long}
use icdc_core.Clearing.Orders.{ExecuteTradeParams}
use icdc_core.Trade.Execute.Conserved.{execute_trade_impl-conserves}
use icdc_core.Trade.Execute.Updates.{cash_of, reserved_of}
use icdc_core.Trade.Execute.Frame.{execute_trade_impl-positions}
use icdc_core.Trade.Execute.Solvency.{
  execute_trade_impl-accounts, execute_trade_impl-covered, execute_trade_impl-idempotent,
}
use icdc_core.Tests.Fixture.{env, binary_series, empty_market, market, pair, trade}

abbrev traded : Clearing
traded = state_after empty_market (execute_trade_impl env binary_series trade empty_market)

executes : execute_trade_impl env binary_series trade empty_market ≡ done true traded
unfolding execute_trade_impl trade_deltas validate_trade check_party change_reserved
    get_required_margin margin_by_type scale_price pow10_u128 mul_u128 add_u128 cast_signed
    cast_unsigned wrap_i128 add_i128 sub_i128 ◌+ℤ◌ ◌-ℤ◌ calculate_raw_equity calculate_equity_usd
    add_asset_values get_cash_balance_usd get_reserved_margin_usd
executes = refl

execute_trade_impl-positions_example :
    let bought = position_or_new traded.positions (buyer_key trade) in
    let sold = position_or_new traded.positions (seller_key trade) in
    (bought.net_qty
      ≡ add_i128 (position_or_new empty_market.positions (buyer_key trade)).net_qty trade.qty)
    × (sold.net_qty
        ≡ sub_i128 (position_or_new empty_market.positions (seller_key trade)).net_qty trade.qty)
    × (get_required_margin binary_series trade.price bought.net_qty none
        ≡ ok bought.reserved_margin_usd)
    × (get_required_margin binary_series trade.price sold.net_qty none
        ≡ ok sold.reserved_margin_usd)
    × ((k : PositionKey)
        → buyer_key trade ≢ k
        → seller_key trade ≢ k
        → lookup k traded.positions ≡ lookup k empty_market.positions)
execute_trade_impl-positions_example =
    execute_trade_impl-positions env binary_series trade empty_market refl executes

execute_trade_impl-accounts_example :
    let before = empty_market.accounts in
    let old_b = position_or_new empty_market.positions (buyer_key trade) in
    let old_s = position_or_new empty_market.positions (seller_key trade) in
    (buyer_at : ℕ) × (seller_at : ℕ) × (get_required_margin binary_series trade.price old_b.net_qty
        none
      ≡ ok buyer_at)
    × (get_required_margin binary_series trade.price old_s.net_qty none ≡ ok seller_at)
    × (cash_of traded.accounts 1 settlement
        ≡ sub_i128
            (cash_of before 1 settlement)
            (sub_i128 (cast_signed old_b.reserved_margin_usd) (cast_signed buyer_at)))
    × (cash_of traded.accounts 2 settlement
        ≡ sub_i128
            (cash_of before 2 settlement)
            (sub_i128 (cast_signed old_s.reserved_margin_usd) (cast_signed seller_at)))
    × ((v : User) → 1 ≢ v → 2 ≢ v → lookup v traded.accounts ≡ lookup v before)
execute_trade_impl-accounts_example =
    execute_trade_impl-accounts env binary_series trade empty_market refl executes

reserves :
    (reserved_of traded.accounts 1 settlement ≡ 10000)
    × (reserved_of traded.accounts 2 settlement ≡ 10000)
unfolding execute_trade_impl trade_deltas validate_trade check_party change_reserved
    get_required_margin margin_by_type scale_price pow10_u128 mul_u128 add_u128 cast_signed
    cast_unsigned wrap_i128 add_i128 sub_i128 ◌+ℤ◌ ◌-ℤ◌ calculate_raw_equity calculate_equity_usd
    add_asset_values get_cash_balance_usd get_reserved_margin_usd commit_trade update_party
    set_reserved_margin_usd set_cash_balance_usd
reserves = (refl, refl)

execute_trade_impl-covered_example :
    (buyer_equity : ℤ) × (seller_equity : ℤ) × (calculate_raw_equity {E = TradeError}
        (account_or_new empty_market.accounts 1)
        settlement
        []
        []
      ≡ ok buyer_equity)
    × (calculate_raw_equity {E = TradeError}
          (account_or_new empty_market.accounts 2)
          settlement
          []
          []
        ≡ ok seller_equity)
    × (pos (reserved_of traded.accounts 1 settlement) ≤ℤ buyer_equity)
    × (pos (reserved_of traded.accounts 2 settlement) ≤ℤ seller_equity)
execute_trade_impl-covered_example =
    execute_trade_impl-covered env binary_series trade empty_market (λ e. ground arith) refl
      executes (omega (arith, reserves)) (omega (arith, reserves))

execute_trade_impl-idempotent_example :
    execute_trade_impl env binary_series (record trade { qty = pos 7 }) traded ≡ done true traded
execute_trade_impl-idempotent_example =
    execute_trade_impl-idempotent env binary_series trade empty_market env binary_series
      (record trade { qty = pos 7 }) refl executes

-- User 1 buys one more contract from user 2, at three quarters of a dollar.
abbrev dearer : ExecuteTradeParams
dearer = record trade { qty = pos 1; price = new_price 75 2 }

abbrev marked : Clearing
marked = state_after (market pair []) (execute_trade_impl env binary_series dearer (market pair []))

marks : execute_trade_impl env binary_series dearer (market pair []) ≡ done true marked
unfolding execute_trade_impl trade_deltas validate_trade check_party change_reserved
    get_required_margin margin_by_type scale_price pow10_u128 mul_u128 add_u128 cast_signed
    cast_unsigned wrap_i128 add_i128 sub_i128 ◌+ℤ◌ ◌-ℤ◌ calculate_raw_equity calculate_equity_usd
    add_asset_values get_cash_balance_usd get_reserved_margin_usd
marks = refl

execute_trade_impl-conserves_example :
    cash_of marked.accounts 1 settlement +ℤ cash_of marked.accounts 2 settlement
    ≡ cash_of (market pair []).accounts 1 settlement
      +ℤ cash_of (market pair []).accounts 2 settlement
unfolding scale_price pow10_u128 mul_u128 get_cash_balance_usd
execute_trade_impl-conserves_example =
    execute_trade_impl-conserves binary_series dearer 1 env (market pair []) long {u = 7500}
      (inl refl) (λ e. ground arith) refl (omega arith) (omega arith) refl refl refl (omega arith)
      (omega arith) refl marks
