-- ===== src/Tests/Fixture.antt =====
-- A small market: two funded users and a binary series.
use icdc_core.Prelude.{none, [], ◌∷◌}
use icdc_core.Prelude.Int.{ℤ, pos, negsuc}
use icdc_core.Shared.Domain.{settlement}
use icdc_core.Shared.Price.{Price, new_price}
use icdc_core.Shared.Series.{Series, binary}
use icdc_core.Margin.{User, AccountState, Position, PositionsMap}
use icdc_core.Clearing.Orders.{ExecuteTradeParams, LimitOrder, OrderId, buy}
use icdc_core.Clearing.State.{Clearing, Env}
use icdc_core.Prelude.Maps.{Map}

abbrev pub env : Env
env = record { now = 100; canister = 9 }

abbrev pub binary_series : Series
binary_series = record {
  series_id = 1;
  underlying = 0;
  expiry_ns = 200;
  start_ns = none;
  payoff_type = binary;
  strike = none;
  price_precision = 2;
  outcomes = none;
  oracle_source = 7;
  creator = 5;
  created_at_ns = 0;
  balance_domain = settlement;
  trading_access = [];
  engine_id = none;
  forked_from = none;
}

-- Half a dollar.
abbrev pub half : Price
half = new_price 50 2

abbrev pub account : User → ℤ → AccountState
account user cash = record {
  user = user;
  balances = [];
  cash_balances_usd = (settlement, cash) ∷ [];
  reserved_margins_usd = [];
}

-- Users 1 and 2 hold ten dollars each.
abbrev pub market : PositionsMap → Map OrderId LimitOrder → Clearing
market positions orders = record {
  config = record {
    insurance_fund_fee_ratio = 100;
    protocol_fee_ratio = 50;
    internal_asset_id = 0;
  };
  positions = positions;
  accounts = (1, account 1 (pos 100000)) ∷ (2, account 2 (pos 100000)) ∷ [];
  series = (1, binary_series) ∷ [];
  events = [];
  next_event_id = 0;
  series_trade_history = [];
  series_traded_volume = [];
  leaderboard = [];
  executed_trades = [];
  frozen_transfers = [];
  accepted_transfers = [];
  settlement_plans = [];
  deposit_plans = [];
  withdrawal_plans = [];
  migration_plans = [];
  reassignment_plans = [];
  limit_orders = orders;
  insurance_fund = [];
  treasury = [];
  collateral_assets = [];
  asset_metrics = [];
  reassignment_marks = [];
}

abbrev pub empty_market : Clearing
empty_market = market [] []

-- User 1 buys two contracts from user 2 at half a dollar.
abbrev pub trade : ExecuteTradeParams
trade = record {
  trade_id = 11;
  series_id = 1;
  outcome_id = none;
  buyer = 1;
  seller = 2;
  qty = pos 2;
  price = half;
  buyer_unblock_amount = none;
  seller_unblock_amount = none;
}

abbrev pub position : User → ℤ → Position
position user qty = record {
  user = user;
  series_id = 1;
  outcome_id = none;
  net_qty = qty;
  reserved_margin_usd = 10000;
}

-- The two sides of that trade.
abbrev pub pair : PositionsMap
pair = ((1, (1, none)), position 1 (pos 2)) ∷ ((2, (1, none)), position 2 (negsuc 1)) ∷ []

-- An order of user 1 for two contracts at half a dollar.
abbrev pub bid : LimitOrder
bid = record {
  order_id = 21;
  creator = 1;
  series_id = 1;
  outcome_id = none;
  side = buy;
  qty = pos 2;
  price = half;
  blocked_margin_usd = 10000;
  balance_domain = settlement;
}
