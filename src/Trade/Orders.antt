-- ===== src/Trade/Orders.antt =====
-- Limit orders, market orders and cancellations (src/clearing/src/api/trade/api.rs).
pub mod Market
pub mod Margins
use icdc_core.Prelude.{
  ℕ, ◌-◌, Bool, true, false, not, ◌&&◌, ◌||◌, Option, none, some, List, ltb, leb, ◌==◌,
  if◌then◌else◌,
}
use icdc_core.Prelude.Int.{ℤ, pos, ltb_ℤ, leb_ℤ, beq_ℤ}
use icdc_core.Prelude.Words.{add_u128, cast_signed, sub_i128, neg_i128}
use icdc_core.Prelude.Maps.{Map, nat_key, option_beq, lookup, contains_key, insert, remove}
use icdc_core.Prelude.Results.{Res, ok, err, map_err, ok_or, ◌>>=◌}
use icdc_core.Shared.Domain.{BalanceDomain}
use icdc_core.Shared.Price.{Price, price_value, price_beq}
use icdc_core.Shared.Series.{Series, SeriesId, OutcomeId}
use icdc_core.Payoffs.{get_required_margin}
use icdc_core.Margin.{
  User, AccountState, get_reserved_margin_usd, set_reserved_margin_usd, calculate_equity_usd,
}
use icdc_core.Clearing.Errors.{
  TradeError, invalid_input, internal, quantity_must_be_positive, price_must_be_positive,
  blocked_margin_exceeded, insufficient_margin, order_not_found, not_order_creator,
  trade_payoff_error,
}
use icdc_core.Clearing.Orders.{
  TradeId, OrderId, Side, buy, sell, side_beq, LimitOrder, ExecuteTradeParams,
}
use icdc_core.Clearing.State.{Clearing, Env, Reply, done, failed, trapped, proceed}
use icdc_core.Trade.Execute.{account_or_new, execute_trade_impl}

pub record SubmitLimitOrderParams : Type 0 where
  pub order_id : OrderId
  pub series_id : SeriesId
  pub outcome_id : Option OutcomeId
  pub side : Side
  pub qty : ℤ
  pub price : Price

-- The margin of an order, as a short where it sells.
abbrev pub order_margin : Series → Side → ℤ → Price → Option OutcomeId → Res TradeError ℕ
order_margin series side qty price outcome_id =
    map_err trade_payoff_error (
      get_required_margin series price (if side_beq side sell then neg_i128 qty else qty)
        outcome_id)

abbrev pub limit_order : User → BalanceDomain → SubmitLimitOrderParams → ℕ → LimitOrder
limit_order caller domain p blocked = record {
  order_id = p.order_id;
  creator = caller;
  series_id = p.series_id;
  outcome_id = p.outcome_id;
  side = p.side;
  qty = p.qty;
  price = p.price;
  blocked_margin_usd = blocked;
  balance_domain = domain;
}

abbrev pub put_account : User → AccountState → Clearing → Clearing
put_account user acc st = record st { accounts = insert user acc st.accounts }

-- The part of `submit_limit_order` before its first await. `none` lets the call go on.
unfoldable pub precheck_limit_order :
    SubmitLimitOrderParams → Clearing → Res TradeError (Option Bool)
precheck_limit_order p st =
    if leb_ℤ p.qty (pos 0)
    then err (TradeError.common (invalid_input quantity_must_be_positive))
    else if price_value p.price == 0
    then err (TradeError.common (invalid_input price_must_be_positive))
    else if contains_key p.order_id st.limit_orders
    then ok (some true)
    else ok none

-- The part of `submit_limit_order` after its last await, for the series that the gates let
-- through. An account that did not exist is there afterwards, whatever the outcome.
unfoldable pub place_limit_order :
    User → Series → SubmitLimitOrderParams → Clearing → Reply TradeError Bool
place_limit_order caller series p st =
    proceed (order_margin series p.side p.qty p.price p.outcome_id) st λ required.
      let domain = series.balance_domain in
      let acc = account_or_new st.accounts caller in
      let target = add_u128 (get_reserved_margin_usd acc domain) required in
      proceed (calculate_equity_usd acc domain st.collateral_assets st.asset_metrics)
        (put_account caller acc st)
        λ equity.
          if ltb_ℤ (cast_signed equity) (cast_signed target)
          then failed (insufficient_margin caller equity target) (put_account caller acc st)
          else done true
              (record (put_account caller (set_reserved_margin_usd acc domain target) st) {
                limit_orders =
                    insert p.order_id (limit_order caller domain p required) st.limit_orders;
              })

-- The accounts once the creator of a cancelled order has its margin back.
unfoldable pub release_margin :
    Option AccountState → User → BalanceDomain → ℕ → Map User AccountState → Map User AccountState
release_margin none user domain blocked accounts = accounts
release_margin (some acc) user domain blocked accounts =
    insert user (set_reserved_margin_usd acc domain (get_reserved_margin_usd acc domain - blocked))
      accounts

-- The order under the id, removed by its creator.
unfoldable pub cancel_found : Option LimitOrder → User → OrderId → Clearing → Reply TradeError Bool
cancel_found none caller order_id st = failed (order_not_found order_id) st
cancel_found (some o) caller order_id st =
    if o.creator == caller
    then done true (record st {
      limit_orders = remove order_id st.limit_orders;
      accounts =
          release_margin (lookup caller st.accounts) caller o.balance_domain o.blocked_margin_usd
            st.accounts;
    })
    else failed not_order_creator st

unfoldable pub cancel_limit_order : User → OrderId → Clearing → Reply TradeError Bool
cancel_limit_order caller order_id st =
    cancel_found (lookup order_id st.limit_orders) caller order_id st

-- Whether the order that is in the book now is the one that was validated.
abbrev pub same_order : LimitOrder → LimitOrder → Bool
same_order current order =
    current.creator == order.creator
    && current.series_id == order.series_id
    && option_beq nat_key current.outcome_id order.outcome_id
    && side_beq current.side order.side
    && price_beq current.price order.price

abbrev pub fill_quantity : Option ℤ → ℤ → ℤ
fill_quantity none qty = qty
fill_quantity (some q) qty = if ltb_ℤ q qty then q else qty

-- What the rest of the order blocks, and what a fill releases.
unfoldable pub remaining_margin : Series → LimitOrder → ℤ → Res TradeError ℕ
remaining_margin series order remaining =
    if beq_ℤ remaining (pos 0)
    then ok 0
    else order_margin series order.side remaining order.price order.outcome_id

-- `blocked.checked_sub(remaining).ok_or_else(..)`.
unfoldable pub unblock : LimitOrder → ℕ → Res TradeError ℕ
unblock order remaining =
    if leb remaining order.blocked_margin_usd
    then ok (order.blocked_margin_usd - remaining)
    else err (
        TradeError.common
          (internal (blocked_margin_exceeded remaining order.blocked_margin_usd order.order_id)))

abbrev pub market_trade : User → LimitOrder → TradeId → ℤ → ℕ → ExecuteTradeParams
market_trade taker order trade_id fill released = record {
  trade_id = trade_id;
  series_id = order.series_id;
  outcome_id = order.outcome_id;
  buyer = if side_beq order.side buy then order.creator else taker;
  seller = if side_beq order.side buy then taker else order.creator;
  qty = fill;
  price = order.price;
  buyer_unblock_amount = if side_beq order.side buy then some released else none;
  seller_unblock_amount = if side_beq order.side buy then none else some released;
}

-- The book after the fill.
unfoldable pub shrink_order : LimitOrder → ℤ → ℕ → Map OrderId LimitOrder → Map OrderId LimitOrder
shrink_order order remaining blocked orders =
    if beq_ℤ remaining (pos 0)
    then remove order.order_id orders
    else insert order.order_id (record order { qty = remaining; blocked_margin_usd = blocked })
        orders

-- The book is written after the trade was executed.
unfoldable pub book_fill : LimitOrder → ℤ → ℕ → Reply TradeError Bool → Reply TradeError Bool
book_fill order remaining blocked (done b st') =
    done true (record st' { limit_orders = shrink_order order remaining blocked st'.limit_orders })
book_fill order remaining blocked (failed e st') = failed e st'
book_fill order remaining blocked trapped = trapped

-- The fill of the order in the book.
unfoldable pub fill_order :
    Env → User → LimitOrder → TradeId → Series → Option ℤ → Clearing → Reply TradeError Bool
fill_order env taker order trade_id series requested st =
    let fill = fill_quantity requested order.qty in
    let remaining = sub_i128 order.qty fill in
    proceed (remaining_margin series order remaining) st λ blocked.
      proceed (unblock order blocked) st λ released.
        book_fill order remaining blocked
          (execute_trade_impl env series (market_trade taker order trade_id fill released) st)

unfoldable pub fill_current :
    Option LimitOrder
    → Env
    → User
    → LimitOrder
    → TradeId
    → Series
    → Option ℤ
    → Clearing
    → Reply TradeError Bool
fill_current none env taker order trade_id series requested st =
    failed (order_not_found order.order_id) st
fill_current (some current) env taker order trade_id series requested st =
    if same_order current order
    then fill_order env taker current trade_id series requested st
    else failed (order_not_found order.order_id) st

abbrev pub not_positive : Option ℤ → Bool
not_positive none = false
not_positive (some q) = leb_ℤ q (pos 0)

unfoldable pub submit_market_order_impl :
    Env → User → LimitOrder → TradeId → Series → Option ℤ → Clearing → Reply TradeError Bool
submit_market_order_impl env taker order trade_id series requested st =
    if not_positive requested
    then failed (TradeError.common (invalid_input quantity_must_be_positive)) st
    else if contains_key trade_id st.executed_trades
    then done true st
    else fill_current (lookup order.order_id st.limit_orders) env taker order trade_id series
        requested st
