-- ===== src/Clearing/Orders.antt =====
-- Orders, position transfers and reassignment marks (src/clearing/src/types/trade.rs, state.rs,
-- trade/types.rs, account/reassignment.rs).
use icdc_core.Prelude.{ℕ, Bool, true, false, Option, List}
use icdc_core.Prelude.Int.{ℤ}
use icdc_core.Shared.Domain.{BalanceDomain}
use icdc_core.Shared.Price.{Principal, Price}
use icdc_core.Shared.Series.{SeriesId, OutcomeId}
use icdc_core.Margin.{User}

abbrev pub TradeId : Type 0
TradeId = ℕ

abbrev pub OrderId : Type 0
OrderId = ℕ

abbrev pub TransferId : Type 0
TransferId = ℕ

pub data Side : Type 0 where
  buy sell : Side

abbrev pub side_beq : Side → Side → Bool
side_beq buy buy = true
side_beq sell sell = true
side_beq _ _ = false

pub record LimitOrder : Type 0 where
  pub order_id : OrderId
  pub creator : User
  pub series_id : SeriesId
  pub outcome_id : Option OutcomeId
  pub side : Side
  pub qty : ℤ
  pub price : Price
  pub blocked_margin_usd : ℕ
  pub balance_domain : BalanceDomain

pub record ExecuteTradeParams : Type 0 where
  pub trade_id : TradeId
  pub series_id : SeriesId
  pub outcome_id : Option OutcomeId
  pub buyer : User
  pub seller : User
  pub qty : ℤ
  pub price : Price
  pub buyer_unblock_amount : Option ℕ
  pub seller_unblock_amount : Option ℕ

pub record PositionProof : Type 0 where
  pub transfer_id : TransferId
  pub user : User
  pub series_id : SeriesId
  pub outcome_id : Option OutcomeId
  pub qty : ℤ
  pub clearing_id : Principal
  pub signature : List ℕ
  pub valuation_price : Option Price

pub record ReassignmentMark : Type 0 where
  pub generation : ℕ
  pub locked : Bool

-- `ReassignmentMark::default()`.
abbrev pub default_mark : ReassignmentMark
default_mark = record { generation = 0; locked = false }
