-- ===== src/Trade/Execute.antt =====
-- `execute_trade_impl` (src/clearing/src/trade/service.rs), in the three phases that its comments
-- name: the deltas, the solvency checks, and the mutation.
pub mod Updates
pub mod Inversion
pub mod Frame
pub mod Solvency
pub mod Conserved
use icdc_core.Prelude.{
  ℕ, ◌-◌, ◌+◌, ◌%◌, Bool, true, false, Option, none, some, List, [], ◌∷◌, ◌++◌, ◌==◌, if◌then◌else◌,
}
use icdc_core.Prelude.Int.{ℤ, pos, ltb_ℤ}
use icdc_core.Prelude.Words.{
  add_u128, cast_signed, cast_unsigned, unsigned_abs, add_i128, sub_i128, neg_i128, u64_mod,
}
use icdc_core.Prelude.Maps.{Map, nat_key, lookup, contains_key, insert}
use icdc_core.Prelude.Results.{Res, ok, err, trap, map_err, ◌>>=◌}
use icdc_core.Shared.Domain.{BalanceDomain, social, domain_beq}
use icdc_core.Shared.Price.{Price}
use icdc_core.Shared.Series.{Series, SeriesId, OutcomeId}
use icdc_core.Payoffs.{get_required_margin}
use icdc_core.Margin.{
  User, PositionKey, position_key, Position, PositionsMap, AccountState, new_account, unwrap_or,
  get_cash_balance_usd, set_cash_balance_usd, get_reserved_margin_usd, set_reserved_margin_usd,
  calculate_raw_equity, calculate_equity_usd,
}
use icdc_core.Events.{Event, executed, SeriesTradePoint}
use icdc_core.Clearing.Errors.{
  TradeError, self_trading_not_allowed, insufficient_margin, trade_payoff_error,
}
use icdc_core.Clearing.Orders.{ExecuteTradeParams}
use icdc_core.Clearing.State.{Clearing, Env, Reply, done, failed, trapped, proceed}
use icdc_core.Trade.Index.{index_executed_trade}

-- The position that `or_insert` puts under a missing key.
abbrev pub empty_position : PositionKey → Position
empty_position key = record {
  user = key.0;
  series_id = key.1.0;
  outcome_id = key.1.1;
  net_qty = pos 0;
  reserved_margin_usd = 0;
}

abbrev pub position_or_new : PositionsMap → PositionKey → Position
position_or_new positions key = unwrap_or (lookup key positions) (empty_position key)

abbrev pub account_or_new : Map User AccountState → User → AccountState
account_or_new accounts user = unwrap_or (lookup user accounts) (new_account user)

abbrev pub buyer_key : ExecuteTradeParams → PositionKey
buyer_key p = (p.buyer, (p.series_id, p.outcome_id))

abbrev pub seller_key : ExecuteTradeParams → PositionKey
seller_key p = (p.seller, (p.series_id, p.outcome_id))

pub record TradeDeltas : Type 0 where
  pub buyer_cash_delta : ℤ
  pub seller_cash_delta : ℤ
  pub buyer_reserved_delta : ℤ
  pub seller_reserved_delta : ℤ
  pub new_buyer_margin_usd : ℕ
  pub new_seller_margin_usd : ℕ

-- What the total reserved margin of a party changes by: its new position margin, less the old
-- one, less the margin that its order had blocked.
abbrev pub reserved_delta : ℕ → ℕ → Option ℕ → ℤ
reserved_delta new old unblock =
    sub_i128 (sub_i128 (cast_signed new) (cast_signed old)) (cast_signed (unwrap_or unblock 0))

unfoldable pub trade_deltas : Clearing → Series → ExecuteTradeParams → Res TradeError TradeDeltas
trade_deltas st series p =
    let old_buyer = position_or_new st.positions (buyer_key p) in
    let old_seller = position_or_new st.positions (seller_key p) in
    let margin_of = λ (qty : ℤ).
      map_err trade_payoff_error (get_required_margin series p.price qty p.outcome_id) in
    do
      new_buyer ← margin_of (add_i128 old_buyer.net_qty p.qty)
      new_seller ← margin_of (sub_i128 old_seller.net_qty p.qty)
      buyer_at_price ← margin_of old_buyer.net_qty
      seller_at_price ← margin_of old_seller.net_qty
      ok (record {
        buyer_cash_delta =
            sub_i128 (cast_signed old_buyer.reserved_margin_usd) (cast_signed buyer_at_price);
        seller_cash_delta =
            sub_i128 (cast_signed old_seller.reserved_margin_usd) (cast_signed seller_at_price);
        buyer_reserved_delta =
            reserved_delta new_buyer old_buyer.reserved_margin_usd p.buyer_unblock_amount;
        seller_reserved_delta =
            reserved_delta new_seller old_seller.reserved_margin_usd p.seller_unblock_amount;
        new_buyer_margin_usd = new_buyer;
        new_seller_margin_usd = new_seller;
      })

-- The reserved margin after a signed change, which stops at zero on the way down.
unfoldable pub change_reserved : ℕ → ℤ → ℕ
change_reserved current delta =
    if ltb_ℤ (pos 0) delta
    then add_u128 current (cast_unsigned delta)
    else current - unsigned_abs delta

-- The equity that the account has before the trade must cover its reserved margin after it.
unfoldable pub check_party : Clearing → BalanceDomain → User → ℤ → Res TradeError (Unit {0})
check_party st domain user delta =
    let account = account_or_new st.accounts user in
    let target = change_reserved (get_reserved_margin_usd account domain) delta in
    do
      equity ← calculate_raw_equity account domain st.collateral_assets st.asset_metrics
      balance ← calculate_equity_usd account domain st.collateral_assets st.asset_metrics
      if ltb_ℤ equity (cast_signed target)
          then err (insufficient_margin user balance target)
          else ok tt

unfoldable pub validate_trade :
    Clearing → Series → ExecuteTradeParams → TradeDeltas → Res TradeError (Unit {0})
validate_trade st series p d = if domain_beq series.balance_domain social then ok tt else do
  checked ← check_party st series.balance_domain p.buyer d.buyer_reserved_delta
  check_party st series.balance_domain p.seller d.seller_reserved_delta

unfoldable pub update_party :
    BalanceDomain → User → ℤ → ℤ → Map User AccountState → Map User AccountState
update_party domain user cash_delta delta accounts =
    let account = account_or_new accounts user in
    let paid =
      set_cash_balance_usd account domain
        (sub_i128 (get_cash_balance_usd account domain) cash_delta) in
    insert user
      (set_reserved_margin_usd paid domain
        (change_reserved (get_reserved_margin_usd paid domain) delta))
      accounts

unfoldable pub update_position : PositionKey → (ℤ → ℤ) → ℕ → PositionsMap → PositionsMap
update_position key change margin positions =
    let old = position_or_new positions key in
    insert key (record old { net_qty = change old.net_qty; reserved_margin_usd = margin }) positions

-- The row of a counterparty in the event log.
abbrev pub trade_event : Env → ℕ → ExecuteTradeParams → User → ℤ → Event
trade_event env event_id p user qty = record {
  event_id = event_id;
  clearing_id = env.canister;
  series_id = p.series_id;
  user = user;
  qty = qty;
  price = p.price;
  event_type = executed;
  timestamp = env.now;
}

unfoldable pub commit_trade : Env → Series → ExecuteTradeParams → TradeDeltas → Clearing → Clearing
unfolding index_executed_trade
commit_trade env series p d st =
    let domain = series.balance_domain in
    let event_id = st.next_event_id in
    let booked = record st {
      accounts =
          update_party domain p.seller d.seller_cash_delta d.seller_reserved_delta
            (update_party domain p.buyer d.buyer_cash_delta d.buyer_reserved_delta st.accounts);
      positions =
          update_position (seller_key p) (λ q. sub_i128 q p.qty) d.new_seller_margin_usd
            (update_position (buyer_key p) (λ q. add_i128 q p.qty) d.new_buyer_margin_usd
              st.positions);
      next_event_id = (event_id + 1) % u64_mod;
      events =
          st.events
          ++ trade_event env event_id p p.buyer p.qty
            ∷ trade_event env event_id p p.seller (neg_i128 p.qty)
            ∷ [];
    } in
    let indexed =
      index_executed_trade p.series_id
        (record { event_id = event_id; price = p.price; qty = p.qty; timestamp = env.now })
        booked in
    record indexed { executed_trades = insert p.trade_id event_id indexed.executed_trades }

unfoldable pub execute_trade_impl :
    Env → Series → ExecuteTradeParams → Clearing → Reply TradeError Bool
execute_trade_impl env series p st =
    if contains_key p.trade_id st.executed_trades
    then done true st
    else if p.buyer == p.seller
    then failed self_trading_not_allowed st
    else proceed (trade_deltas st series p) st λ d.
      proceed (validate_trade st series p d) st λ _. done true (commit_trade env series p d st)
