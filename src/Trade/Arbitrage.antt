-- ===== src/Trade/Arbitrage.antt =====
-- `validate_no_arbitrage` (src/clearing/src/api/trade/api.rs), the gate on the prices of buy orders.
pub mod Bids
use icdc_core.Prelude.{
  ℕ, Bool, true, false, not, ◌&&◌, Option, none, some, List, [], ◌∷◌, ltb, ◌==◌, if◌then◌else◌,
}
use icdc_core.Prelude.Words.{add_u128, pow10_u128}
use icdc_core.Prelude.Maps.{Map, nat_key, lookup, insert, values}
use icdc_core.Prelude.Results.{Res, ok, err, ok_or, ◌>>=◌}
use icdc_core.Shared.Price.{Price, price_value, price_decimals, usd_decimals}
use icdc_core.Shared.Series.{
  Series, SeriesId, Outcome, OutcomeId, PayoffType, binary, call, put, categorical,
}
use icdc_core.Payoffs.{scale_price, ceil}
use icdc_core.Clearing.Errors.{TradeError, internal, no_outcomes, arbitrage_limit_exceeded}
use icdc_core.Clearing.Orders.{LimitOrder, buy, side_beq}
use icdc_core.Clearing.State.{Clearing}
use icdc_core.Trade.Orders.{SubmitLimitOrderParams}

-- A price in USD base units, rounded up.
abbrev pub price_usd : Price → Res TradeError ℕ
price_usd price = scale_price (price_value price) usd_decimals (price_decimals price) ceil

abbrev pub limit_usd : ℕ
limit_usd = pow10_u128 usd_decimals

abbrev pub Bids : Type 0
Bids = Map OutcomeId ℕ

-- Every outcome starts with no bid.
unfoldable pub no_bids : List Outcome → Bids → Bids
no_bids [] bids = bids
no_bids (outcome ∷ outcomes) bids = no_bids outcomes (insert outcome.id 0 bids)

abbrev pub raise_found : Option ℕ → OutcomeId → ℕ → Bids → Bids
raise_found none outcome_id usd bids = bids
raise_found (some best) outcome_id usd bids =
    if ltb best usd then insert outcome_id usd bids else bids

-- `if p_usd > *val { *val = p_usd }` for an outcome that is there.
unfoldable pub raise : OutcomeId → ℕ → Bids → Bids
raise outcome_id usd bids = raise_found (lookup outcome_id bids) outcome_id usd bids

unfoldable pub raise_for : Option OutcomeId → Price → Bids → Res TradeError Bids
unfolding raise
raise_for none price bids = ok bids
raise_for (some outcome_id) price bids = do usd ← price_usd price; ok (raise outcome_id usd bids)

-- The loop over the book.
unfoldable pub scan_orders : SeriesId → List LimitOrder → Bids → Res TradeError Bids
unfolding raise_for
scan_orders series_id [] bids = ok bids
scan_orders series_id (o ∷ orders) bids = do
  bids' ←
      (if (o.series_id == series_id) && side_beq o.side buy
        then raise_for o.outcome_id o.price bids
        else ok bids)
  scan_orders series_id orders bids'

abbrev pub raise_new : Option OutcomeId → ℕ → Bids → Bids
unfolding raise
raise_new none usd bids = bids
raise_new (some outcome_id) usd bids = raise outcome_id usd bids

-- `best_bids.values().sum()`, which wraps around.
unfoldable pub sum_bids : List ℕ → ℕ
sum_bids [] = 0
sum_bids (bid ∷ bids) = add_u128 bid (sum_bids bids)

-- The best bids of the series once the new order is in.
unfoldable pub best_bids :
    Series → List Outcome → SubmitLimitOrderParams → (usd : ℕ) → Clearing → Res TradeError Bids
unfolding no_bids scan_orders raise_new
best_bids series outcomes p usd st = do
  bids ← scan_orders series.series_id (values st.limit_orders) (no_bids outcomes [])
  ok (raise_new p.outcome_id usd bids)

unfoldable pub check_limit : ℕ → Res TradeError (Unit {0})
check_limit sum_usd =
    if ltb limit_usd sum_usd then err (arbitrage_limit_exceeded sum_usd limit_usd) else ok tt

unfoldable pub check_by_type :
    PayoffType → Series → SubmitLimitOrderParams → (usd : ℕ) → Clearing → Res TradeError (Unit {0})
unfolding check_limit best_bids sum_bids
check_by_type binary series p usd st = check_limit usd
check_by_type categorical series p usd st = do
  outcomes ← ok_or series.outcomes (TradeError.common (internal no_outcomes))
  bids ← best_bids series outcomes p usd st
  check_limit (sum_bids (values bids))
check_by_type call series p usd st = ok tt
check_by_type put series p usd st = ok tt

unfoldable pub validate_no_arbitrage :
    Series → SubmitLimitOrderParams → Clearing → Res TradeError (Unit {0})
unfolding check_by_type
validate_no_arbitrage series p st =
    if not (side_beq p.side buy)
    then ok tt
    else (do usd ← price_usd p.price; check_by_type series.payoff_type series p usd st)
