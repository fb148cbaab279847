-- ===== src/Trade/Arbitrage/Bids.antt =====
-- The best bids against which a categorical order is checked (src/clearing/src/api/trade/api.rs).
use icdc_core.Prelude.{ℕ, Bool, ◌&&◌, some, List, [], ◌∷◌, ltb, ◌==◌, if◌then◌else◌}
use icdc_core.Prelude.Maps.{nat_key, option_beq, values}
use icdc_core.Prelude.Results.{Res, ok, err, trap}
use icdc_core.Shared.Price.{Price}
use icdc_core.Shared.Series.{Series, SeriesId, OutcomeId}
use icdc_core.Clearing.Errors.{TradeError}
use icdc_core.Clearing.Orders.{LimitOrder, buy, side_beq}
use icdc_core.Clearing.State.{Clearing}
use icdc_core.Trade.Orders.{SubmitLimitOrderParams}
use icdc_core.Trade.Arbitrage.{price_usd}

-- `max`.
abbrev pub larger : ℕ → ℕ → ℕ
larger a b = if ltb a b then b else a

-- A price that cannot be scaled counts for nothing; no order that was placed has one.
abbrev pub value_of : Res TradeError ℕ → ℕ
value_of (ok usd) = usd
value_of (err e) = 0
value_of trap = 0

-- Whether an order of the book bids for the outcome in the series.
abbrev pub bids_for : SeriesId → OutcomeId → LimitOrder → Bool
bids_for series_id id o =
    ((o.series_id == series_id) && side_beq o.side buy) && option_beq nat_key o.outcome_id (some id)

-- An independent description of the best bid: the largest price, in USD base units rounded up, of
-- the orders that bid for the outcome, and at least `least`.
abbrev pub best_bid : SeriesId → OutcomeId → List LimitOrder → (least : ℕ) → ℕ
best_bid series_id id [] least = least
best_bid series_id id (o ∷ orders) least =
    best_bid series_id id orders
      (if bids_for series_id id o then larger least (value_of (price_usd o.price)) else least)

-- The entry that the table should have for an outcome.
abbrev pub reference_bid : Series → SubmitLimitOrderParams → Clearing → OutcomeId → ℕ
reference_bid series p st id =
    let resting = best_bid series.series_id id (values st.limit_orders) 0 in
    if option_beq nat_key p.outcome_id (some id)
    then larger resting (value_of (price_usd p.price))
    else resting
