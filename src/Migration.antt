-- ===== src/Migration.antt =====
-- Moving a user's state from one balance domain to another
-- (src/clearing/src/api/migration/{api,errors,params}.rs).
pub mod Moved
pub mod Account
pub mod Migrated
use icdc_core.Prelude.{
  ℕ, ◌-◌, Bool, true, false, not, ◌&&◌, Option, none, some, List, [], ◌∷◌, map, filter_by, any_by,
  ◌==◌, if◌then◌else◌,
}
use icdc_core.Prelude.Int.{ℤ, pos, beq_ℤ}
use icdc_core.Prelude.Words.{add_u128, add_i128, sub_i128}
use icdc_core.Prelude.Maps.{Map, nat_key, lookup, insert, values}
use icdc_core.Prelude.Results.{Res, ok, err, ◌>>=◌}
use icdc_core.Shared.Domain.{BalanceDomain, domain_beq, domain_key}
use icdc_core.Shared.Series.{Series, SeriesId}
use icdc_core.Shared.Collateral.{AssetId}
use icdc_core.Margin.{
  User, PositionKey, Position, AccountState, unwrap_or, get_balance, set_balance,
  get_cash_balance_usd, set_cash_balance_usd, get_reserved_margin_usd, set_reserved_margin_usd,
}
use icdc_core.Clearing.Orders.{LimitOrder, OrderId}
use icdc_core.Clearing.Plans.{
  UserKey, user_key, PlanStatus, planned, executing, finalised, is_finalised, SettlementPlan,
  SettlementPosition, DepositPlan, WithdrawalPlan, MigrationPlan, MigratedPosition, MigratedOrder,
  migration_get_or_create,
}
use icdc_core.Clearing.State.{Clearing, Env, Reply, done, failed, proceed}
use icdc_core.Trade.Execute.{account_or_new}

pub data MigrationError : Type 0 where
  same_domain in_flight_plans_exist no_state_to_migrate : MigrationError

pub record MigrateDomainParams : Type 0 where
  pub migration_id : ℕ
  pub from_domain : BalanceDomain
  pub to_domain : BalanceDomain

-- Whether the user has a deposit, or a withdrawal, that is not finalised.
unfoldable pub has_deposit : User → Map UserKey DepositPlan → Bool
has_deposit user =
    any_by λ (e : UserKey × DepositPlan). (e.0.0 == user) && not (is_finalised e.1.status)

unfoldable pub has_withdrawal : User → Map UserKey WithdrawalPlan → Bool
has_withdrawal user =
    any_by λ (e : UserKey × WithdrawalPlan). (e.0.0 == user) && not (is_finalised e.1.status)

unfoldable pub settles_user : User → SettlementPlan → Bool
settles_user user p =
    not (is_finalised p.status) && any_by (λ (q : SettlementPosition). q.user == user) p.positions

unfoldable pub check_no_inflight_plans :
    User → BalanceDomain → Clearing → Res MigrationError (Unit {0})
unfolding has_deposit has_withdrawal settles_user
check_no_inflight_plans user domain st =
    if has_deposit user st.deposit_plans
    then err in_flight_plans_exist
    else if has_withdrawal user st.withdrawal_plans
    then err in_flight_plans_exist
    else if any_by
        (λ (p : SettlementPlan). domain_beq p.balance_domain domain && settles_user user p)
        (values st.settlement_plans)
    then err in_flight_plans_exist
    else ok tt

-- Whether a position is the user's, in a cached series of the domain.
unfoldable pub in_domain : Clearing → User → BalanceDomain → PositionKey → Bool
in_domain st user domain key = (key.0 == user) && (elim (lookup key.1.0 st.series) [
  | none ↦ false
  | some series ↦ domain_beq series.balance_domain domain
])

abbrev pub rests_in : User → BalanceDomain → LimitOrder → Bool
rests_in user domain o = (o.creator == user) && domain_beq o.balance_domain domain

abbrev pub is_empty {ℓ} : {A : Type ℓ} → List A → Bool
is_empty [] = true
is_empty (x ∷ xs) = false

-- An account with nothing in the domain, of a user with no position and no order there.
unfoldable pub has_nothing : Clearing → User → BalanceDomain → AccountState → Bool
unfolding in_domain
has_nothing st user domain a =
    (is_empty (unwrap_or (lookup domain a.balances) [])
      && beq_ℤ (get_cash_balance_usd a domain) (pos 0)
      && (get_reserved_margin_usd a domain == 0))
    && not (any_by (λ (e : PositionKey × Position). in_domain st user domain e.0) st.positions)
    && not (any_by (rests_in user domain) (values st.limit_orders))

abbrev pub migrated_position : PositionKey × Position → MigratedPosition
migrated_position e = record {
  series_id = e.1.series_id;
  outcome_id = e.0.1.1;
  net_qty = e.1.net_qty;
  reserved_margin_usd = e.1.reserved_margin_usd;
}

abbrev pub migrated_order : LimitOrder → MigratedOrder
migrated_order o = record { order_id = o.order_id; blocked_margin_usd = o.blocked_margin_usd }

-- Phase A.
unfoldable pub snapshot :
    Clearing
    → User
    → BalanceDomain
    → MigrationPlan
    → Option AccountState
    → Res MigrationError MigrationPlan
unfolding has_nothing in_domain
snapshot st user domain plan none = err no_state_to_migrate
snapshot st user domain plan (some a) =
    if has_nothing st user domain a
    then err no_state_to_migrate
    else ok (record plan {
      status = executing;
      balances = unwrap_or (lookup domain a.balances) [];
      cash_balance_usd = get_cash_balance_usd a domain;
      reserved_margin_usd = get_reserved_margin_usd a domain;
      positions =
          map migrated_position
            (filter_by (λ (e : PositionKey × Position). in_domain st user domain e.0) st.positions);
      orders = map migrated_order (filter_by (rests_in user domain) (values st.limit_orders));
    })

module _ (from to : BalanceDomain) where
  -- One asset of phase B.
  unfoldable pub move_balance : AssetId → ℕ → AccountState → AccountState
  move_balance asset_id amount a =
      let taken = set_balance a from asset_id (get_balance a from asset_id - amount) in
      set_balance taken to asset_id (add_u128 (get_balance taken to asset_id) amount)

  unfoldable pub move_balances : List (AssetId × ℕ) → AccountState → AccountState
  unfolding move_balance
  move_balances [] a = a
  move_balances ((asset_id, amount) ∷ rest) a = move_balances rest (move_balance asset_id amount a)

  unfoldable pub move_cash : ℤ → AccountState → AccountState
  move_cash amount a =
      let taken = set_cash_balance_usd a from (sub_i128 (get_cash_balance_usd a from) amount) in
      set_cash_balance_usd taken to (add_i128 (get_cash_balance_usd taken to) amount)

  unfoldable pub move_margin : ℕ → AccountState → AccountState
  move_margin amount a =
      let taken = set_reserved_margin_usd a from (get_reserved_margin_usd a from - amount) in
      set_reserved_margin_usd taken to (add_u128 (get_reserved_margin_usd taken to) amount)

  -- The order under an id, retagged when it is the user's and still in the old domain.
  unfoldable pub retag_found :
      Option LimitOrder → User → OrderId → Map OrderId LimitOrder → Map OrderId LimitOrder
  retag_found none user order_id orders = orders
  retag_found (some o) user order_id orders =
      if rests_in user from o
      then insert order_id (record o { balance_domain = to }) orders
      else orders

  unfoldable pub retag_orders :
      User → List MigratedOrder → Map OrderId LimitOrder → Map OrderId LimitOrder
  unfolding retag_found
  retag_orders user [] orders = orders
  retag_orders user (m ∷ migrated) orders =
      retag_orders user migrated (retag_found (lookup m.order_id orders) user m.order_id orders)

  -- The account after phase B.
  unfoldable pub moved_account : MigrationPlan → AccountState → AccountState
  unfolding move_balances move_cash move_margin
  moved_account plan a =
      move_margin plan.reserved_margin_usd
        (move_cash plan.cash_balance_usd (move_balances plan.balances a))

abbrev pub put_migration : UserKey → MigrationPlan → Clearing → Clearing
put_migration key plan st = record st { migration_plans = insert key plan st.migration_plans }

-- Phases B and C.
unfoldable pub apply_migration :
    User → BalanceDomain → BalanceDomain → MigrationPlan → Clearing → Clearing
unfolding moved_account retag_orders
apply_migration user from to plan st =
    put_migration (user, plan.migration_id) (record plan { status = finalised })
      (record st {
        accounts =
            insert user (moved_account from to plan (account_or_new st.accounts user)) st.accounts;
        limit_orders = retag_orders from to user plan.orders st.limit_orders;
      })

-- What is left to do of a plan, by its status.
unfoldable pub continue_migration :
    PlanStatus
    → User
    → MigrateDomainParams
    → MigrationPlan
    → Clearing
    → Reply MigrationError (Unit {0})
unfolding check_no_inflight_plans snapshot apply_migration
continue_migration finalised user p plan st = done tt st
continue_migration executing user p plan st =
    proceed (check_no_inflight_plans user p.from_domain st) st
      λ _. done tt (apply_migration user p.from_domain p.to_domain plan st)
continue_migration planned user p plan st =
    proceed (check_no_inflight_plans user p.from_domain st) st λ _.
      proceed (snapshot st user p.from_domain plan (lookup user st.accounts)) st λ plan'. done tt (
        apply_migration user p.from_domain p.to_domain plan'
          (put_migration (user, plan'.migration_id) plan' st))

-- The call for two different domains.
unfoldable pub open_migration :
    Env → User → MigrateDomainParams → Clearing → Reply MigrationError (Unit {0})
unfolding continue_migration
open_migration env user p st =
    let opened =
      migration_get_or_create p.migration_id user p.from_domain p.to_domain env.now
        st.migration_plans in
    continue_migration opened.0.status user p opened.0 (record st { migration_plans = opened.1 })

unfoldable pub migrate_domain_impl :
    Env → User → MigrateDomainParams → Clearing → Reply MigrationError (Unit {0})
unfolding open_migration
migrate_domain_impl env user p st =
    if domain_beq p.from_domain p.to_domain
    then failed same_domain st
    else open_migration env user p st
