-- ===== src/Tests/OrderRuns.antt =====
-- Runs of the operations on orders.
use icdc_core.Prelude.{◌≡◌, refl, true, some, none, arith, [], ◌∷◌}
use icdc_core.Prelude.Int.{pos, ◌+ℤ◌, ◌-ℤ◌}
use icdc_core.Prelude.Words.{
  add_u128, mul_u128, pow10_u128, cast_signed, cast_unsigned, wrap_i128, add_i128, sub_i128,
}
use icdc_core.Prelude.Maps.{nat_key, lookup}
use icdc_core.Prelude.Results.{ok}
use icdc_core.Shared.Domain.{settlement}
use icdc_core.Payoffs.{scale_price, get_required_margin, margin_by_type}
use icdc_core.Margin.{
  get_cash_balance_usd, get_reserved_margin_usd, calculate_raw_equity, calculate_equity_usd,
  add_asset_values,
}
use icdc_core.Clearing.Errors.{self_trading_not_allowed}
use icdc_core.Clearing.Orders.{LimitOrder, buy}
use icdc_core.Clearing.State.{Clearing, done, state_after}
use icdc_core.Trade.Execute.{
  trade_deltas, change_reserved, check_party, validate_trade, execute_trade_impl,
}
use icdc_core.Trade.Execute.Updates.{reserved_of}
use icdc_core.Trade.Orders.{
  SubmitLimitOrderParams, order_margin, place_limit_order, cancel_limit_order, remaining_margin,
  unblock, book_fill, fill_order, fill_current, submit_market_order_impl,
}
use icdc_core.Trade.Orders.Market.{
  Filled, submit_market_order_impl-Filled, submit_market_order_impl-atomic,
}
use icdc_core.Trade.Orders.Margins.{cancel_limit_order-place_limit_order}
use icdc_core.Tests.Fixture.{env, binary_series, half, empty_market, market, account, bid}

-- The bid is in the book and its margin is blocked.
abbrev booked_market : Clearing
booked_market = record (market [] ((21, bid) ∷ [])) {
  accounts =
      (1, record (account 1 (pos 100000)) { reserved_margins_usd = (settlement, 10000) ∷ [] })
      ∷ (2, account 2 (pos 100000))
      ∷ [];
}

-- User 2 sells one contract into it.
abbrev filled_market : Clearing
filled_market =
    state_after booked_market
      (submit_market_order_impl env 2 bid 11 binary_series (some (pos 1)) booked_market)

fills :
    submit_market_order_impl env 2 bid 11 binary_series (some (pos 1)) booked_market
    ≡ done true filled_market
unfolding submit_market_order_impl fill_current fill_order remaining_margin unblock book_fill
    execute_trade_impl trade_deltas validate_trade check_party change_reserved get_required_margin
    margin_by_type scale_price pow10_u128 mul_u128 add_u128 cast_signed cast_unsigned wrap_i128
    add_i128 sub_i128 ◌+ℤ◌ ◌-ℤ◌ calculate_raw_equity calculate_equity_usd add_asset_values
    get_cash_balance_usd get_reserved_margin_usd
fills = refl

submit_market_order_impl-Filled_example :
    (current : LimitOrder) × (lookup 21 booked_market.limit_orders ≡ some current)
    × Filled env 2 11 binary_series (some (pos 1)) current booked_market filled_market
submit_market_order_impl-Filled_example =
    submit_market_order_impl-Filled env 2 11 binary_series (some (pos 1)) bid booked_market refl
      fills

submit_market_order_impl-atomic_example : booked_market ≡ booked_market
unfolding submit_market_order_impl fill_current fill_order remaining_margin unblock book_fill
    execute_trade_impl get_required_margin margin_by_type scale_price pow10_u128 mul_u128
    cast_signed cast_unsigned wrap_i128 sub_i128 ◌-ℤ◌
submit_market_order_impl-atomic_example =
    submit_market_order_impl-atomic env 1 11 binary_series (some (pos 1)) bid booked_market
      {e = self_trading_not_allowed} refl

abbrev bid_params : SubmitLimitOrderParams
bid_params = record {
  order_id = 21;
  series_id = 1;
  outcome_id = none;
  side = buy;
  qty = pos 2;
  price = half;
}

abbrev placed_market : Clearing
placed_market = state_after empty_market (place_limit_order 1 binary_series bid_params empty_market)

places : place_limit_order 1 binary_series bid_params empty_market ≡ done true placed_market
unfolding place_limit_order get_required_margin margin_by_type scale_price pow10_u128 mul_u128
    add_u128 cast_signed cast_unsigned wrap_i128 add_i128 sub_i128 ◌+ℤ◌ ◌-ℤ◌ calculate_raw_equity
    calculate_equity_usd add_asset_values get_cash_balance_usd get_reserved_margin_usd
places = refl

margined : order_margin binary_series buy (pos 2) half none ≡ ok 10000
unfolding get_required_margin margin_by_type scale_price pow10_u128 mul_u128
margined = refl

cancel_limit_order-place_limit_order_example :
    (st : Clearing) × (cancel_limit_order 1 21 placed_market ≡ done true st)
    × (reserved_of st.accounts 1 settlement ≡ reserved_of empty_market.accounts 1 settlement)
    × (lookup 21 st.limit_orders ≡ none)
unfolding get_reserved_margin_usd
cancel_limit_order-place_limit_order_example =
    cancel_limit_order-place_limit_order 1 binary_series bid_params empty_market {required = 10000}
      margined (omega arith) places
