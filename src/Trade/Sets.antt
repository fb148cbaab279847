-- ===== src/Trade/Sets.antt =====
-- Complete sets of a categorical series: `mint_complete_set_logic` and
-- `redeem_complete_set_logic` (src/clearing/src/api/trade/api.rs).
pub mod Minted
pub mod Redeemed
use icdc_core.Prelude.{
  ℕ, ◌-◌, ◌/◌, Bool, true, false, not, Option, none, some, List, [], ◌∷◌, length, ◌==◌,
  if◌then◌else◌,
}
use icdc_core.Prelude.Int.{ℤ, pos, leb_ℤ, ltb_ℤ}
use icdc_core.Prelude.Words.{
  add_u128, mul_u128, pow10_u128, cast_signed, cast_unsigned, unsigned_abs, add_i128, sub_i128,
}
use icdc_core.Prelude.Maps.{Map, nat_key, lookup, insert}
use icdc_core.Prelude.Results.{Res, ok, err, trap, ok_or, ◌>>=◌}
use icdc_core.Shared.Domain.{BalanceDomain}
use icdc_core.Shared.Price.{usd_decimals}
use icdc_core.Shared.Series.{Series, SeriesId, Outcome, OutcomeId, categorical, payoff_type_beq}
use icdc_core.Margin.{
  User, Position, PositionKey, position_key, PositionsMap, AccountState, get_reserved_margin_usd,
  set_reserved_margin_usd, calculate_raw_equity, calculate_equity_usd,
}
use icdc_core.Clearing.Errors.{
  TradeError, invalid_input, internal, quantity_must_be_positive, only_categorical_minting,
  only_categorical_redemption, no_outcomes_defined, insufficient_quantity, insufficient_margin,
  Text,
}
use icdc_core.Clearing.State.{Clearing, Reply, done, failed, proceed, trapped}
use icdc_core.Trade.Execute.{account_or_new, position_or_new}

-- The checks that both operations begin with; `message` names the operation.
unfoldable pub set_outcomes : Text → Series → ℤ → Res TradeError (List Outcome)
set_outcomes message series qty =
    if leb_ℤ qty (pos 0)
    then err (TradeError.common (invalid_input quantity_must_be_positive))
    else if not (payoff_type_beq series.payoff_type categorical)
    then err (TradeError.common (invalid_input message))
    else ok_or series.outcomes (TradeError.common (internal no_outcomes_defined))

-- `unit_cost_usd` and `total_cost_usd`.
unfoldable pub total_cost_usd : ℤ → ℤ
total_cost_usd qty = cast_signed (mul_u128 (unsigned_abs qty) (pow10_u128 usd_decimals))

abbrev pub outcome_key : User → SeriesId → OutcomeId → PositionKey
outcome_key caller series_id outcome_id = (caller, (series_id, some outcome_id))

-- The quantity of an outcome, zero without a position.
abbrev pub outcome_qty : User → SeriesId → PositionsMap → OutcomeId → ℤ
outcome_qty caller series_id positions outcome_id =
    (position_or_new positions (outcome_key caller series_id outcome_id)).net_qty

-- The maps that a redemption writes.
abbrev pub Book : Type 0
Book = PositionsMap × Map User AccountState

module _ (caller : User) (series_id : SeriesId) (qty : ℤ) where
  -- One round of the loop that grants the positions.
  unfoldable pub grant : (share_of_margin : ℕ) → OutcomeId → PositionsMap → PositionsMap
  grant share outcome_id positions =
      let old = position_or_new positions (outcome_key caller series_id outcome_id) in
      insert (outcome_key caller series_id outcome_id)
        (record old {
          net_qty = add_i128 old.net_qty qty;
          reserved_margin_usd = add_u128 old.reserved_margin_usd share;
        })
        positions

  unfoldable pub grant_all : (share_of_margin : ℕ) → List Outcome → PositionsMap → PositionsMap
  unfolding grant
  grant_all share [] positions = positions
  grant_all share (outcome ∷ outcomes) positions =
      grant_all share outcomes (grant share outcome.id positions)

  -- The user must hold enough of every outcome.
  unfoldable pub check_quantities : List Outcome → PositionsMap → Res TradeError (Unit {0})
  check_quantities [] positions = ok tt
  check_quantities (outcome ∷ outcomes) positions =
      if ltb_ℤ (outcome_qty caller series_id positions outcome.id) qty
      then err (TradeError.common (invalid_input (insufficient_quantity outcome.id)))
      else check_quantities outcomes positions

  -- The reserved margin of the account after a release, when there is an account.
  unfoldable pub release_account :
      Option AccountState
      → BalanceDomain
      → (to_release : ℕ) → Map User AccountState
      → Map User AccountState
  release_account none domain to_release accounts = accounts
  release_account (some acc) domain to_release accounts =
      insert caller
        (set_reserved_margin_usd acc domain (get_reserved_margin_usd acc domain - to_release))
        accounts

  -- The release of a position that is there.
  unfoldable pub release : BalanceDomain → OutcomeId → Position → Book → Res TradeError Book
  unfolding release_account
  release domain outcome_id held book =
      let divisor = cast_unsigned held.net_qty in
      if divisor == 0
      then trap
      else (let unit_margin = held.reserved_margin_usd / divisor in
          let to_release = mul_u128 unit_margin (cast_unsigned qty) in
          ok (
            insert (outcome_key caller series_id outcome_id)
                (record held {
                  net_qty = sub_i128 held.net_qty qty;
                  reserved_margin_usd = held.reserved_margin_usd - to_release;
                })
                book.0,
            release_account (lookup caller book.1) domain to_release book.1,
          ))

  -- One round of the loop that deducts the positions.
  unfoldable pub deduct : BalanceDomain → OutcomeId → Option Position → Book → Res TradeError Book
  unfolding release
  deduct domain outcome_id none book = ok book
  deduct domain outcome_id (some held) book = release domain outcome_id held book

  unfoldable pub deduct_all : BalanceDomain → List Outcome → Book → Res TradeError Book
  unfolding deduct
  deduct_all domain [] book = ok book
  deduct_all domain (outcome ∷ outcomes) book = do
    book' ← deduct domain outcome.id (lookup (outcome_key caller series_id outcome.id) book.0) book
    deduct_all domain outcomes book'

-- The reservation of the total cost on the account, and the account without it.
unfoldable pub reserve_cost :
    Clearing → User → BalanceDomain → ℤ → AccountState → Res TradeError AccountState
reserve_cost st caller domain total_cost acc =
    let reserved = get_reserved_margin_usd acc domain in
    let required = add_u128 reserved (unsigned_abs total_cost) in
    do
      equity ← calculate_raw_equity acc domain st.collateral_assets st.asset_metrics
      balance ← calculate_equity_usd acc domain st.collateral_assets st.asset_metrics
      if ltb_ℤ equity (add_i128 (cast_signed reserved) total_cost)
          then err (insufficient_margin caller balance required)
          else ok (set_reserved_margin_usd acc domain required)

abbrev pub put_account : User → AccountState → Clearing → Clearing
put_account user acc st = record st { accounts = insert user acc st.accounts }

-- The grant of the positions, which divides by the number of outcomes.
unfoldable pub grant_set :
    User → SeriesId → ℤ → (total_cost : ℤ) → List Outcome → Clearing → Reply TradeError Bool
unfolding grant_all
grant_set caller series_id qty total_cost [] st = trapped
grant_set caller series_id qty total_cost (o ∷ os) st = done true (record st {
  positions =
      grant_all caller series_id qty (unsigned_abs total_cost / length (o ∷ os)) (o ∷ os)
        st.positions;
})

-- `or_insert_with` stores the account before the check.
unfoldable pub mint_complete_set_logic :
    User → SeriesId → Series → ℤ → Clearing → Reply TradeError Bool
unfolding set_outcomes reserve_cost grant_set
mint_complete_set_logic caller series_id series qty st =
    proceed (set_outcomes only_categorical_minting series qty) st λ outcomes.
      let total_cost = total_cost_usd qty in
      let acc = account_or_new st.accounts caller in
      let opened = put_account caller acc st in
      proceed (reserve_cost st caller series.balance_domain total_cost acc) opened
        λ acc'. grant_set caller series_id qty total_cost outcomes (put_account caller acc' opened)

unfoldable pub redeem_complete_set_logic :
    User → SeriesId → Series → ℤ → Clearing → Reply TradeError Bool
unfolding set_outcomes check_quantities deduct_all
redeem_complete_set_logic caller series_id series qty st =
    proceed (set_outcomes only_categorical_redemption series qty) st λ outcomes.
      proceed (check_quantities caller series_id qty outcomes st.positions) st λ _.
        proceed
          (deduct_all caller series_id qty series.balance_domain outcomes
            (st.positions, st.accounts))
          st λ book. done true (record st { positions = book.0; accounts = book.1 })
