-- ===== src/Clearing/Errors.antt =====
-- The errors of src/clearing/src/types/errors.rs, api/trade/errors.rs, api/settlement/errors.rs.
-- A `String` inside an error is kept as the template of its message with the arguments.
use icdc_core.Prelude.{ℕ}
use icdc_core.Shared.Series.{SeriesId, SettlementInput}
use icdc_core.Payoffs.{PayoffError}
use icdc_core.Margin.{User}

pub data Text : Type 0 where
  quantity_must_be_positive price_must_be_positive : Text
  payoff_calculation_failed : PayoffError → Text
  blocked_margin_exceeded : ℕ → ℕ → ℕ → Text
  no_valuation_price no_outcomes no_outcomes_defined : Text
  only_categorical_minting only_categorical_redemption : Text
  insufficient_quantity : ℕ → Text
  plan_not_found unsupported_payout_unit : Text

pub data CommonError : Type 0 where
  unauthorized registry_not_set math_overflow : CommonError
  internal : Text → CommonError
  invalid_input : Text → CommonError

pub data TradeError : Type 0 where
  common : CommonError → TradeError
  series_not_found : SeriesId → TradeError
  -- the user, the balance and the requirement
  insufficient_margin : User → ℕ → ℕ → TradeError
  registry_error : ℕ → TradeError
  order_not_found : ℕ → TradeError
  not_order_creator : TradeError
  -- the sum of the best bids and the limit
  arbitrage_limit_exceeded : ℕ → ℕ → TradeError
  self_trading_not_allowed not_authorized_to_trade : TradeError
  series_already_settled : SeriesId → TradeError
  series_not_started : SeriesId → ℕ → TradeError
  account_under_reassignment : User → TradeError
  series_expired : SeriesId → ℕ → TradeError

pub data SettlementError : Type 0 where
  common : CommonError → SettlementError
  math_overflow : SettlementError
  -- the total net payoff and the total collateral
  solvency_violation : ℕ → ℕ → SettlementError
  inconsistent_settlement : SettlementInput → SettlementInput → SettlementError

-- The closure of every `map_err` around a payoff computation in the trade paths.
abbrev pub trade_payoff_error : PayoffError → TradeError
trade_payoff_error e = TradeError.common (internal (payoff_calculation_failed e))

abbrev pub settlement_payoff_error : PayoffError → SettlementError
settlement_payoff_error e = SettlementError.common (internal (payoff_calculation_failed e))
