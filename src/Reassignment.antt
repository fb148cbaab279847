-- ===== src/Reassignment.antt =====
-- Moving a clearing account to another principal (src/clearing/src/account/reassignment.rs,
-- src/clearing/src/api/admin/errors.rs): the checks, and the change of the account's keys.
pub mod Sweep
pub mod Positions
pub mod Rekeyed
pub mod Blocked
use icdc_core.Prelude.{
  ℕ, ◌-◌, Bool, true, false, not, ◌&&◌, ◌||◌, Option, none, some, List, [], ◌∷◌, ◌++◌, map,
  filter_by, any_by, ltb, ◌==◌, if◌then◌else◌,
}
use icdc_core.Prelude.Maps.{
  Map, Key, nat_key, pair_key, option_key, lookup, insert, remove, contains_key, values, keys,
}
use icdc_core.Prelude.Results.{Res, ok, err, map_err, ok_or, ◌>>=◌}
use icdc_core.Shared.Domain.{BalanceDomain}
use icdc_core.Shared.Price.{anonymous}
use icdc_core.Shared.Series.{SeriesId, OutcomeId, Asset, icrc, native_evm, erc20}
use icdc_core.Shared.Collateral.{AssetId, AssetError, CollateralAssetConfig, AssetMetrics}
use icdc_core.Margin.{
  User, PositionKey, position_key, Position, PositionsMap, AccountState, unwrap_or,
}
use icdc_core.Clearing.Orders.{LimitOrder, PositionProof}
use icdc_core.Clearing.Plans.{
  UserKey, user_key, PlanStatus, executing, finalised, is_finalised, SettlementPlan, MigrationPlan,
  CustodySweep, ReassignmentPlan, reassignment_get_or_create, PaymentReceipt, icrc_block_index,
}
use icdc_core.Clearing.State.{Clearing, Env, Reply, done, failed, trapped, proceed}
use icdc_core.Trade.Access.{mark_of, lock_for_reassignment, unlock_after_reassignment}
use icdc_core.Trade.Registered.{continue}
use icdc_core.Collateral.{
  AssetHandler, get_handler, AssetTransferParams, LedgerAnswer, settled, refused, user_clearing,
}
use icdc_core.Migration.{has_deposit, has_withdrawal, settles_user, is_empty}

pub data ReassignAccountError : Type 0 where
  same_owner account_not_found target_account_not_empty open_orders_exist : ReassignAccountError
  inflight_plans_exist pending_position_transfers_exist anonymous_owner : ReassignAccountError
  reassignment_in_progress reassignment_id_reused : ReassignAccountError
  unsupported_custody_asset : AssetId → ReassignAccountError
  custody_transfer_failed : AssetId → AssetError → ReassignAccountError

unfoldable pub validate_principals : User → User → Res ReassignAccountError (Unit {0})
validate_principals old_owner new_owner =
    if old_owner == new_owner
    then err same_owner
    else if (old_owner == anonymous) || (new_owner == anonymous)
    then err anonymous_owner
    else ok tt

unfoldable pub is_locked : User → Clearing → Bool
is_locked user st = (mark_of user st).locked

unfoldable pub has_migration : User → Map UserKey MigrationPlan → Bool
has_migration user =
    any_by λ (e : UserKey × MigrationPlan). (e.0.0 == user) && not (is_finalised e.1.status)

unfoldable pub check_no_inflight_plans_for_reassignment :
    User → Clearing → Res ReassignAccountError (Unit {0})
unfolding has_migration
check_no_inflight_plans_for_reassignment user st =
    if has_deposit user st.deposit_plans
    then err inflight_plans_exist
    else if has_withdrawal user st.withdrawal_plans
    then err inflight_plans_exist
    else if has_migration user st.migration_plans
    then err inflight_plans_exist
    else if any_by (settles_user user) (values st.settlement_plans)
    then err inflight_plans_exist
    else ok tt

unfoldable pub has_orders : User → Clearing → Bool
has_orders user st = any_by (λ (o : LimitOrder). o.creator == user) (values st.limit_orders)

unfoldable pub has_frozen : User → Clearing → Bool
has_frozen user st = any_by (λ (p : PositionProof). p.user == user) (values st.frozen_transfers)

unfoldable pub has_positions : User → PositionsMap → Bool
has_positions user = any_by λ (e : PositionKey × Position). e.0.0 == user

-- An account with an entry in one of its maps.
abbrev pub holds_something : Option AccountState → Bool
holds_something none = false
holds_something (some a) =
    not (is_empty a.balances)
    || not (is_empty a.cash_balances_usd)
    || not (is_empty a.reserved_margins_usd)

unfoldable pub target_has_clearing_state : User → Clearing → Bool
unfolding has_orders has_frozen has_positions
target_has_clearing_state owner st =
    holds_something (lookup owner st.accounts)
    || has_positions owner st.positions
    || has_orders owner st
    || has_frozen owner st

abbrev pub is_icrc : Asset → Bool
is_icrc (icrc ledger) = true
is_icrc (native_evm chain address) = false
is_icrc (erc20 chain contract address) = false

abbrev pub is_icrc_config : Option CollateralAssetConfig → Bool
is_icrc_config none = false
is_icrc_config (some config) = is_icrc config.asset

module _ (configs : Map AssetId CollateralAssetConfig) where
  -- The assets of one domain, added to those that were found.
  unfoldable pub custody_of_domain :
      Map AssetId ℕ → List AssetId → Res ReassignAccountError (List AssetId)
  custody_of_domain [] asset_ids = ok asset_ids
  custody_of_domain ((asset_id, balance) ∷ rest) asset_ids =
      let listed = any_by (λ j. j == asset_id) asset_ids in
      let next = custody_of_domain rest (
        if is_icrc_config (lookup asset_id configs) && not listed
        then asset_ids ++ asset_id ∷ []
        else asset_ids) in
      if not (is_icrc_config (lookup asset_id configs)) && ltb 0 balance
      then err (unsupported_custody_asset asset_id)
      else next

  unfoldable pub custody_of_domains :
      Map BalanceDomain (Map AssetId ℕ) → List AssetId → Res ReassignAccountError (List AssetId)
  unfolding custody_of_domain
  custody_of_domains [] asset_ids = ok asset_ids
  custody_of_domains ((domain, balances) ∷ rest) asset_ids = do
    asset_ids' ← custody_of_domain balances asset_ids
    custody_of_domains rest asset_ids'

abbrev pub balances_of : Option AccountState → Map BalanceDomain (Map AssetId ℕ)
balances_of none = []
balances_of (some a) = a.balances

unfoldable pub custody_assets : User → Clearing → Res ReassignAccountError (List AssetId)
unfolding custody_of_domains
custody_assets old_owner st =
    custody_of_domains st.collateral_assets (balances_of (lookup old_owner st.accounts)) []

unfoldable pub persist : ReassignmentPlan → Clearing → Clearing
persist plan st = record st {
  reassignment_plans = insert (plan.old_owner, plan.reassignment_id) plan st.reassignment_plans;
}

-- A position without its user.
abbrev pub Holding : Type 0
Holding = SeriesId × Option OutcomeId

instance abbrev pub holding_key : Key Holding
holding_key = pair_key nat_key (option_key nat_key)

-- The keys of an owner.
unfoldable pub holdings : User → PositionsMap → List Holding
holdings owner [] = []
holdings owner ((key, position) ∷ rest) =
    if key.0 == owner then key.1 ∷ holdings owner rest else holdings owner rest

module _ (old_owner new_owner : User) where
  unfoldable pub rekey_account : Option AccountState → Map User AccountState → Map User AccountState
  rekey_account none accounts = accounts
  rekey_account (some state) accounts =
      insert new_owner (record state { user = new_owner }) (remove old_owner accounts)

  unfoldable pub rekey_found : Option Position → Holding → PositionsMap → PositionsMap
  rekey_found none h positions = positions
  rekey_found (some position) h positions =
      insert (new_owner, h) (record position { user = new_owner }) (remove (old_owner, h) positions)

  -- The loop over the old owner's keys.
  unfoldable pub rekey_positions : List Holding → PositionsMap → PositionsMap
  unfolding rekey_found
  rekey_positions [] positions = positions
  rekey_positions (h ∷ hs) positions =
      rekey_positions hs (rekey_found (lookup (old_owner, h) positions) h positions)

  -- The mutation of `validate_and_rekey`.
  unfoldable pub rekey : Clearing → Clearing
  unfolding rekey_account rekey_positions holdings
  rekey st =
      let locked = lock_for_reassignment old_owner new_owner st in
      record locked {
        accounts = rekey_account (lookup old_owner locked.accounts) locked.accounts;
        positions = rekey_positions (holdings old_owner locked.positions) locked.positions;
      }

  -- The guard rails before the plan is made.
  unfoldable pub check_rekey : Clearing → Res ReassignAccountError (Unit {0})
  unfolding is_locked has_orders has_frozen check_no_inflight_plans_for_reassignment
      target_has_clearing_state
  check_rekey st =
      if is_locked old_owner st || is_locked new_owner st
      then err reassignment_in_progress
      else if not (contains_key old_owner st.accounts)
      then err account_not_found
      else if has_orders old_owner st
      then err open_orders_exist
      else if has_frozen old_owner st
      then err pending_position_transfers_exist
      else (do
        idle_old ← check_no_inflight_plans_for_reassignment old_owner st
        idle_new ← check_no_inflight_plans_for_reassignment new_owner st
        if target_has_clearing_state new_owner st then err target_account_not_empty else ok tt)

  unfoldable pub validate_and_rekey :
      Env → (reassignment_id : ℕ) → Clearing → Reply ReassignAccountError ReassignmentPlan
  unfolding check_rekey custody_assets persist rekey
  validate_and_rekey env reassignment_id st = proceed (check_rekey st) st λ _.
      proceed (custody_assets old_owner st) st λ asset_ids.
        let opened =
          reassignment_get_or_create reassignment_id old_owner new_owner asset_ids env.now
            st.reassignment_plans in
        let plan = record opened.0 { status = executing } in
        done plan (rekey (persist plan (record st { reassignment_plans = opened.1 })))
