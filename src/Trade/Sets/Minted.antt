-- ===== src/Trade/Sets/Minted.antt =====
-- What minting a complete set grants and reserves (src/clearing/src/api/trade/api.rs).
use icdc_core.Payoffs.Solvency.{unit_usd}
use icdc_core.Prelude.{
  ◌<◌, ◌+◌, ◌*◌, ℕ, ◌/◌, ◌≡◌, refl, ◌∙◌, sym, ap, Bool, false, some, List, [], ◌∷◌, length, any_by,
  arith, ◌==◌, ==_iff, if◌then◌else◌, Bool-cases, inl, inr,
}
use icdc_core.Prelude.Int.{pos, ◌≤ℤ◌, int_bounds, ℤ, ltb_ℤ}
use icdc_core.Prelude.Words.{
  i128_lim, pow10_u128, mul_u128-eq, add_u128-eq, cast_signed-eq, add_i128-eq, add_u128, add_i128,
  cast_signed, unsigned_abs,
}
use icdc_core.Prelude.Maps.{nat_key, lookup, insert, lookup-insert, insert-insert}
use icdc_core.Prelude.Results.{ok, >>=-eq-ok, guard-eq-ok, ok-injective}
use icdc_core.Shared.Domain.{BalanceDomain, domain_key}
use icdc_core.Shared.Series.{Series, SeriesId, Outcome, OutcomeId}
use icdc_core.Margin.{
  User, Position, PositionKey, position_key, PositionsMap, AccountState, get_reserved_margin_usd,
  set_reserved_margin_usd, calculate_raw_equity, calculate_equity_usd,
}
use icdc_core.Clearing.Errors.{TradeError, Text, only_categorical_minting}
use icdc_core.Clearing.State.{Clearing, done, proceed-eq-done, done-injective}
use icdc_core.Trade.Execute.{account_or_new, position_or_new}
use icdc_core.Trade.Sets.{
  grant, grant_all, grant_set, outcome_key, mint_complete_set_logic, total_cost_usd, set_outcomes,
  reserve_cost, put_account,
}

-- Whether an outcome is one of the list.
abbrev pub offers : List Outcome → OutcomeId → Bool
offers outcomes id = any_by (λ (o : Outcome). o.id == id) outcomes

-- No two outcomes have the same id.
abbrev pub UniqueIds : List Outcome → Type 0
UniqueIds [] = Unit
UniqueIds (o ∷ os) = (offers os o.id ≡ false) × UniqueIds os

-- A position with its share of a minted set.
abbrev pub granted : ℤ → (share : ℕ) → Position → Position
granted qty share old = record old {
  net_qty = add_i128 old.net_qty qty;
  reserved_margin_usd = add_u128 old.reserved_margin_usd share;
}

module _ (caller : User) (series_id : SeriesId) where
  -- Whether a position is the user's in one of the outcomes.
  abbrev pub covers : List Outcome → PositionKey → Bool
  covers outcomes k =
      any_by (λ (o : Outcome). position_key.beq (outcome_key caller series_id o.id) k) outcomes

  pub covers-offers :
      (outcomes : List Outcome) (id : OutcomeId)
      → covers outcomes (outcome_key caller series_id id) ≡ offers outcomes id
  covers-offers [] id = refl
  covers-offers (o ∷ os) id =
      ground (arith, ==_iff caller caller, ==_iff series_id series_id, covers-offers os id)

module _ (caller : User) (series_id : SeriesId) (qty : ℤ) (share : ℕ) where
  grant-lookup :
      (o : OutcomeId) (k : PositionKey) (ps : PositionsMap)
      → lookup k (grant caller series_id qty share o ps) ≡ (
          if position_key.beq (outcome_key caller series_id o) k
          then some (granted qty share (position_or_new ps (outcome_key caller series_id o)))
          else lookup k ps)
  unfolding grant
  grant-lookup o k ps = lookup-insert (outcome_key caller series_id o) k _ ps

  pub grant_all-lookup :
      (outcomes : List Outcome) (k : PositionKey) (ps : PositionsMap)
      → UniqueIds outcomes
      → lookup k (grant_all caller series_id qty share outcomes ps) ≡ (
          if covers caller series_id outcomes k
          then some (granted qty share (position_or_new ps k))
          else lookup k ps)
  unfolding grant_all
  grant_all-lookup [] k ps unique = refl
  grant_all-lookup (o ∷ os) k ps (first, rest) =
      let key = outcome_key caller series_id o.id in
      elim (Bool-cases (position_key.beq key k)) [
        | inl same ↦
            let found : key ≡ k = (position_key.beq_iff key k).0 same in
            let alone : covers caller series_id os k ≡ false =
              ap (covers caller series_id os) (sym found)
              ∙ covers-offers caller series_id os o.id
              ∙ first in
            grant_all-lookup os k (grant caller series_id qty share o.id ps) rest
            ∙ rw (alone, grant-lookup o.id k ps, same)
                (ap (λ (j : PositionKey). some (granted qty share (position_or_new ps j))) found)
        | inr other ↦
            grant_all-lookup os k (grant caller series_id qty share o.id ps) rest
            ∙ rw (grant-lookup o.id k ps, other) refl
      ]

reserve_cost_lem :
    (st : Clearing) (caller : User) (domain : BalanceDomain) (cost : ℤ) (acc : AccountState)
    {acc' : AccountState}
    → reserve_cost st caller domain cost acc ≡ ok acc'
    → (equity : ℤ) × (calculate_raw_equity {E = TradeError} acc domain st.collateral_assets
          st.asset_metrics
        ≡ ok equity)
      × (ltb_ℤ equity (add_i128 (cast_signed (get_reserved_margin_usd acc domain)) cost) ≡ false)
      × (acc'
          ≡ set_reserved_margin_usd acc domain
              (add_u128 (get_reserved_margin_usd acc domain) (unsigned_abs cost)))
unfolding reserve_cost
reserve_cost_lem st caller domain cost acc {acc'} h =
    let (equity, valued, h1) = >>=-eq-ok (calculate_raw_equity acc domain _ _) _ h in
    let (balance, _, h2) = >>=-eq-ok (calculate_equity_usd acc domain _ _) _ h1 in
    let (covered, same) = guard-eq-ok _ _ _ h2 in (equity, valued, covered, sym (ok-injective same))

pub set_outcomes_lem :
    (message : Text) (series : Series) (qty : ℤ) {outcomes os : List Outcome}
    → series.outcomes ≡ some outcomes
    → set_outcomes message series qty ≡ ok os
    → os ≡ outcomes
unfolding set_outcomes
set_outcomes_lem message series qty offered h = ground (arith, offered, h)

grant_set_lem :
    (caller : User) (series_id : SeriesId) (qty cost : ℤ) (os : List Outcome) (st : Clearing)
    {r : Bool} {st' : Clearing}
    → grant_set caller series_id qty cost os st ≡ done r st'
    → st' ≡ record st {
      positions = grant_all caller series_id qty (unsigned_abs cost / length os) os st.positions;
    }
unfolding grant_set
grant_set_lem caller series_id qty cost [] st h = cc
grant_set_lem caller series_id qty cost (o ∷ os) st h = sym (done-injective h).1

-- The same in the widths of the code, whatever the size of the cost.
pub mint_complete_set_logic_lem :
    (caller : User) (series_id : SeriesId) (series : Series) (qty : ℤ) (outcomes : List Outcome)
    (st : Clearing) {r : Bool} {st' : Clearing}
    → series.outcomes ≡ some outcomes
    → UniqueIds outcomes
    → mint_complete_set_logic caller series_id series qty st ≡ done r st'
    → let domain = series.balance_domain in
      let cost = unsigned_abs (total_cost_usd qty) in
      let share = cost / length outcomes in
      let acc = account_or_new st.accounts caller in
      ((k : PositionKey)
        → lookup k st'.positions ≡ (
            if covers caller series_id outcomes k
            then some (granted qty share (position_or_new st.positions k))
            else lookup k st.positions))
      × (st'.accounts
          ≡ insert caller
              (set_reserved_margin_usd acc domain
                (add_u128 (get_reserved_margin_usd acc domain) cost))
              st.accounts)
      × ((equity : ℤ) × (calculate_raw_equity {E = TradeError} acc domain st.collateral_assets
              st.asset_metrics
            ≡ ok equity)
          × (ltb_ℤ equity
                (add_i128 (cast_signed (get_reserved_margin_usd acc domain)) (total_cost_usd qty))
              ≡ false))
      × (st' ≡ record st { positions = st'.positions; accounts = st'.accounts })
unfolding mint_complete_set_logic
mint_complete_set_logic_lem caller series_id series qty outcomes st offered unique h =
    let domain = series.balance_domain in
    let cost = total_cost_usd qty in
    let acc = account_or_new st.accounts caller in
    let opened = put_account caller acc st in
    let (os, listed, h1) =
      proceed-eq-done (set_outcomes only_categorical_minting series qty) st _ h in
    let (acc', reserved, h2) =
      proceed-eq-done (reserve_cost st caller domain cost acc) opened _ h1 in
    let same : os ≡ outcomes =
      set_outcomes_lem only_categorical_minting series qty offered listed in
    let (equity, valued, covered, written) = reserve_cost_lem st caller domain cost acc reserved in
    let ended = grant_set_lem caller series_id qty cost os (put_account caller acc' opened) h2 in
    (
      rw (ended, same)
          (λ k. grant_all-lookup caller series_id qty _ outcomes k st.positions unique),
      rw (ended, written) (insert-insert caller _ acc st.accounts),
      (equity, valued, covered),
      rw ended refl,
    )

total_cost_usd-eq :
    (qty : ℤ)
    → unsigned_abs qty * unit_usd < i128_lim
    → total_cost_usd qty ≡ pos (unsigned_abs qty * unit_usd)
unfolding total_cost_usd pow10_u128
total_cost_usd-eq qty small =
    rw (mul_u128-eq (unsigned_abs qty) unit_usd (omega (arith, small)))
      (cast_signed-eq (unsigned_abs qty * unit_usd) small)

-- The check of the equity, where the new reserve fits an `i128`.
reserve_covered :
    (equity : ℤ) (reserved cost : ℕ)
    → reserved + cost < i128_lim
    → ltb_ℤ equity (add_i128 (cast_signed reserved) (pos cost)) ≡ false
    → pos (reserved + cost) ≤ℤ equity
reserve_covered equity reserved cost small h =
    let total : add_i128 (cast_signed reserved) (pos cost) ≡ pos (reserved + cost) =
      rw (cast_signed-eq reserved (omega (arith, small))) (
        add_i128-eq (pos reserved) (pos cost) (omega (int_bounds, small))
        ∙ omega (int_bounds, small)) in
    let covered : ltb_ℤ equity (pos (reserved + cost)) ≡ false = rw total at h in
    ground (arith, covered)

-- Let a set be minted for a quantity of a categorical series with distinct outcomes, where a dollar
-- for each set and the user's reserve in the series' domain are together below 2 ^ 127, the limit of
-- an `i128`. Then the user's position in every outcome grows by the quantity, as an `i128`, and its
-- margin by an equal share of those dollars, rounded down, as a `u128`. Exactly the dollars are
-- added to the user's reserve, and the user's equity is at least the new reserve. Nothing else
-- changes: neither the account's cash and balances, nor another account or position.
pub mint_complete_set_logic-grants :
    (caller : User) (series_id : SeriesId) (series : Series) (qty : ℤ) (outcomes : List Outcome)
    (st : Clearing) {r : Bool} {st' : Clearing}
    → series.outcomes ≡ some outcomes
    → UniqueIds outcomes
    → get_reserved_margin_usd (account_or_new st.accounts caller) series.balance_domain
        + unsigned_abs qty * unit_usd
      < i128_lim
    → mint_complete_set_logic caller series_id series qty st ≡ done r st'
    → let domain = series.balance_domain in
      let cost = unsigned_abs qty * unit_usd in
      let acc = account_or_new st.accounts caller in
      let reserve = get_reserved_margin_usd acc domain + cost in
      ((k : PositionKey)
        → lookup k st'.positions ≡ (
            if covers caller series_id outcomes k
            then some (granted qty (cost / length outcomes) (position_or_new st.positions k))
            else lookup k st.positions))
      × (st'.accounts ≡ insert caller (set_reserved_margin_usd acc domain reserve) st.accounts)
      × ((equity : ℤ) × (calculate_raw_equity {E = TradeError} acc domain st.collateral_assets
              st.asset_metrics
            ≡ ok equity)
          × (pos reserve ≤ℤ equity))
      × (st' ≡ record st { positions = st'.positions; accounts = st'.accounts })
mint_complete_set_logic-grants caller series_id series qty outcomes st {r} {st'} offered unique
      small h =
    let acc = account_or_new st.accounts caller in
    let reserved : ℕ = get_reserved_margin_usd acc series.balance_domain in
    let dollars : ℕ = unsigned_abs qty * unit_usd in
    let cost : total_cost_usd qty ≡ pos dollars = total_cost_usd-eq qty (omega (arith, small)) in
    let (positions, written, (equity, valued, covered), framed) =
      mint_complete_set_logic_lem caller series_id series qty outcomes st offered unique h in
    let exact : add_u128 reserved dollars ≡ reserved + dollars =
      add_u128-eq reserved dollars (omega (arith, small)) in
    let covered_at : ltb_ℤ equity (add_i128 (cast_signed reserved) (pos dollars)) ≡ false =
      rw cost at covered in
    (
      rw cost at positions,
      written ∙ rw (cost, exact) refl,
      (equity, valued, reserve_covered equity reserved dollars small covered_at),
      framed,
    )
