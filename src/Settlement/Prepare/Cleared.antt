-- ===== src/Settlement/Prepare/Cleared.antt =====
-- What `prepare_settlement_impl` takes off the books
-- (src/clearing/src/api/settlement/api.rs).
use icdc_core.Prelude.{
  ℕ, ◌≡◌, refl, sym, ◌∙◌, Bool, true, false, Option, none, some, List, [], ◌∷◌, map, arith, ◌==◌,
  if◌then◌else◌, any_by, Bool-cases, inl, inr,
}
use icdc_core.Prelude.Maps.{
  lookup-absent, Map, nat_key, lookup, contains_key, remove, lookup-remove,
}
use icdc_core.Prelude.Results.{Res, ok, map_err, >>=-eq-ok, map_err-eq-ok, ok-injective}
use icdc_core.Shared.Series.{Series, SeriesId, SettlementInput}
use icdc_core.Payoffs.{get_settlement_value}
use icdc_core.Margin.{PositionKey, position_key, Position, PositionsMap}
use icdc_core.Clearing.Errors.{SettlementError, settlement_payoff_error}
use icdc_core.Clearing.Orders.{OrderId, LimitOrder}
use icdc_core.Clearing.Plans.{SettlementPosition, SettlementPlan}
use icdc_core.Clearing.State.{
  Clearing, Env, done, failed, proceed-eq-done, proceed-eq-failed, done-injective, done-ne-failed,
}
use icdc_core.Settlement.Prepare.{
  FeeRatios, Gathered, gather_position, gather_positions, check_settlement_solvency, remove_settled,
  remove_orders, matching_orders, cancel_open_limit_orders, commit_settlement,
  prepare_settlement_impl,
}

-- Whether the row settles the position under the key.
abbrev settles : SeriesId → PositionKey → SettlementPosition → Bool
settles series_id k r = position_key.beq (r.user, (series_id, r.outcome_id)) k

lookup-remove_settled :
    (series_id : SeriesId) (k : PositionKey) (rs : List SettlementPosition) (ps : PositionsMap)
    → lookup k (remove_settled series_id rs ps)
      ≡ (if any_by (settles series_id k) rs then none else lookup k ps)
unfolding remove_settled
lookup-remove_settled series_id k [] ps = refl
lookup-remove_settled series_id k (r ∷ rs) ps = ground (
  arith,
  lookup-remove_settled series_id k rs (remove (r.user, (series_id, r.outcome_id)) ps),
  lookup-remove (r.user, (series_id, r.outcome_id)) k ps,
)

-- A row is of the series that it was gathered for.
settles-other :
    (series_id : SeriesId) (k : PositionKey) (rs : List SettlementPosition)
    → (k.1.0 == series_id) ≡ false
    → any_by (settles series_id k) rs ≡ false
settles-other series_id k [] ne = refl
settles-other series_id k (r ∷ rs) ne = ground (arith, settles-other series_id k rs ne)

module _ (ser : Series) (series_id : SeriesId) (i : SettlementInput) (fees : FeeRatios) where
  abbrev payoff_of : Position → Res SettlementError ℕ
  payoff_of p = map_err settlement_payoff_error (get_settlement_value ser p.net_qty p.outcome_id i)

  -- Where the first entry is of the series, its row stands in front.
  pub gather_positions-match :
      (k : PositionKey) (p : Position) (ps : PositionsMap) {g : Gathered}
      → (k.1.0 == series_id) ≡ true
      → gather_positions ser series_id i fees ((k, p) ∷ ps) ≡ ok g
      → (payoff : ℕ) × (rest : Gathered) × (get_settlement_value ser p.net_qty p.outcome_id i
          ≡ ok payoff)
        × (gather_positions ser series_id i fees ps ≡ ok rest)
        × (g ≡ gather_position fees k p payoff rest)
  unfolding gather_positions
  gather_positions-match k p ps same h =
      let others = gather_positions ser series_id i fees ps in
      let (payoff, paid, h1) = >>=-eq-ok (payoff_of p) _ (rw same at h) in
      let (rest, gathered, h2) = >>=-eq-ok others _ h1 in
      (payoff, rest, map_err-eq-ok settlement_payoff_error _ paid, gathered, sym (ok-injective h2))

  pub gather_positions-skip :
      (k : PositionKey) (p : Position) (ps : PositionsMap)
      → (k.1.0 == series_id) ≡ false
      → gather_positions ser series_id i fees ((k, p) ∷ ps)
        ≡ gather_positions ser series_id i fees ps
  unfolding gather_positions
  gather_positions-skip k p ps other = rw other refl

  -- Every position of the series has a row.
  lookup-gathered :
      (k : PositionKey) (ps : PositionsMap) {g : Gathered}
      → k.1.0 ≡ series_id
      → gather_positions ser series_id i fees ps ≡ ok g
      → any_by (settles series_id k) g.results ≡ false
      → lookup k ps ≡ none
  unfolding gather_position
  lookup-gathered k [] same h free = refl
  lookup-gathered k ((j, p) ∷ ps) same h free = elim (Bool-cases (j.1.0 == series_id)) [
    | inl here ↦
        let (payoff, rest, _, gathered, e) = gather_positions-match j p ps here h in
        let free' = rw e at free in ground (arith, lookup-gathered k ps same gathered, free')
    | inr other ↦
        let gathered = sym (gather_positions-skip j p ps other) ∙ h in
        ground (arith, lookup-gathered k ps same gathered free)
  ]

-- An order that stays when the series is settled.
abbrev pub keep_other : SeriesId → Option LimitOrder → Option LimitOrder
keep_other series_id none = none
keep_other series_id (some o) = if o.series_id == series_id then none else some o

-- Every key stands in the map once.
abbrev pub UniqueKeys {ℓ} : {V : Type ℓ} → Map ℕ V → Type 0
UniqueKeys [] = Unit
UniqueKeys ((k, v) ∷ m) = (contains_key k m ≡ false) × UniqueKeys m

lookup-remove_orders :
    (id : OrderId) (ids : List OrderId) (orders : Map OrderId LimitOrder)
    → lookup id (remove_orders ids orders)
      ≡ (if any_by (λ j. j == id) ids then none else lookup id orders)
unfolding remove_orders
lookup-remove_orders id [] orders = refl
lookup-remove_orders id (j ∷ ids) orders =
    ground (arith, lookup-remove_orders id ids (remove j orders), lookup-remove j id orders)

abbrev is_matched : SeriesId → Option LimitOrder → Bool
is_matched series_id none = false
is_matched series_id (some o) = o.series_id == series_id

matching_orders-lookup :
    (series_id : SeriesId) (id : OrderId) (orders : Map OrderId LimitOrder)
    → UniqueKeys orders
    → any_by (λ j. j == id) (map (λ e. e.0) (matching_orders series_id orders))
      ≡ is_matched series_id (lookup id orders)
unfolding matching_orders
matching_orders-lookup series_id id [] u = refl
matching_orders-lookup series_id id ((j, o) ∷ orders) u =
    ground (arith, matching_orders-lookup series_id id orders u.1, lookup-absent j orders u.0)

keep_other-eq :
    (series_id : SeriesId) (o : Option LimitOrder)
    → (if is_matched series_id o then none else o) ≡ keep_other series_id o
keep_other-eq series_id none = refl
keep_other-eq series_id (some o) = refl

cancel_open_limit_orders-lookup :
    (series_id : SeriesId) (id : OrderId) (st : Clearing)
    → UniqueKeys st.limit_orders
    → lookup id (cancel_open_limit_orders series_id st).limit_orders
      ≡ keep_other series_id (lookup id st.limit_orders)
unfolding cancel_open_limit_orders
cancel_open_limit_orders-lookup series_id id st unique =
    rw
      (
        lookup-remove_orders id (map (λ e. e.0) (matching_orders series_id st.limit_orders))
            st.limit_orders,
        matching_orders-lookup series_id id st.limit_orders unique,
      )
      (keep_other-eq series_id (lookup id st.limit_orders))

module _ (env : Env) (ser : Series) (series_id : SeriesId) (i : SettlementInput) (fees : FeeRatios)
    (st : Clearing) where
  -- A settlement that was prepared passed both checks, and left what the commit wrote.
  pub prepare_settlement_impl-inversion :
      {plan : SettlementPlan} {st' : Clearing}
      → prepare_settlement_impl env ser series_id i fees st ≡ done plan st'
      → (g : Gathered) × (gather_positions ser series_id i fees st.positions ≡ ok g)
        × (check_settlement_solvency st ser.balance_domain g.total_net_payoff g.results ≡ ok tt)
        × (plan ≡ (commit_settlement env ser series_id i st g).0)
        × (st' ≡ (commit_settlement env ser series_id i st g).1)
  unfolding prepare_settlement_impl
  prepare_settlement_impl-inversion h =
      let (g, gathered, h1) =
        proceed-eq-done (gather_positions ser series_id i fees st.positions) st _ h in
      let (_, solvent, h2) =
        proceed-eq-done
          (check_settlement_solvency st ser.balance_domain g.total_net_payoff g.results) st _ h1 in
      let e = done-injective h2 in (g, gathered, solvent, sym e.0, sym e.1)

  commit_settlement-books :
      (g : Gathered)
      → let after = (commit_settlement env ser series_id i st g).1 in
        (after.positions ≡ remove_settled series_id g.results st.positions)
        × (after.limit_orders ≡ (cancel_open_limit_orders series_id st).limit_orders)
  unfolding commit_settlement cancel_open_limit_orders
  commit_settlement-books g = (refl, refl)

  -- A settlement that is prepared takes every position of the series off the books and no other.
  pub prepare_settlement_impl-positions :
      {plan : SettlementPlan} {st' : Clearing} (k : PositionKey)
      → prepare_settlement_impl env ser series_id i fees st ≡ done plan st'
      → lookup k st'.positions ≡ (if k.1.0 == series_id then none else lookup k st.positions)
  prepare_settlement_impl-positions k h =
      let (g, gathered, _, _, e) = prepare_settlement_impl-inversion h in
      let removed = lookup-remove_settled series_id k g.results st.positions in
      elim (Bool-cases (k.1.0 == series_id)) [
        | inl same ↦
            rw (e, (commit_settlement-books g).0, same)
              (ground (
                arith,
                removed,
                lookup-gathered ser series_id i fees k st.positions (ground arith) gathered,
              ))
        | inr other ↦
            rw
              (
                e,
                (commit_settlement-books g).0,
                other,
                removed,
                settles-other series_id k g.results other,
              )
              refl
      ]

  -- A settlement that is prepared takes every limit order on the series out of the book and no
  -- other, where an order id stands in the book once.
  pub prepare_settlement_impl-orders :
      {plan : SettlementPlan} {st' : Clearing} (id : OrderId)
      → UniqueKeys st.limit_orders
      → prepare_settlement_impl env ser series_id i fees st ≡ done plan st'
      → lookup id st'.limit_orders ≡ keep_other series_id (lookup id st.limit_orders)
  prepare_settlement_impl-orders id unique h =
      let (g, _, _, _, e) = prepare_settlement_impl-inversion h in
      rw (e, (commit_settlement-books g).1) (cancel_open_limit_orders-lookup series_id id st unique)

  -- A settlement that is refused, for a payoff that cannot be computed or for want of equity,
  -- changes nothing.
  pub prepare_settlement_impl-atomic :
      {e : SettlementError} {st' : Clearing}
      → prepare_settlement_impl env ser series_id i fees st ≡ failed e st'
      → st' ≡ st
  unfolding prepare_settlement_impl
  prepare_settlement_impl-atomic h =
      elim (proceed-eq-failed (gather_positions ser series_id i fees st.positions) st _ h) [
        | inl (_, kept) ↦ kept
        | inr (g, _, h1) ↦
            elim (proceed-eq-failed
              (check_settlement_solvency st ser.balance_domain g.total_net_payoff g.results) st _
              h1) [ inl (_, kept) ↦ kept | inr (_, _, h2) ↦ absurd (done-ne-failed h2) ]
      ]
