-- ===== src/Reassignment/Sweep.antt =====
-- The custody sweep of a reassignment, and `reassign_account` as a whole
-- (src/clearing/src/account/reassignment.rs). The ledger's answers are parameters, and no other
-- message runs during the sweep.
use icdc_core.Prelude.{ℕ, ◌-◌, not, Option, none, some, List, [], ◌∷◌, ◌++◌, ◌==◌, if◌then◌else◌}
use icdc_core.Prelude.Maps.{nat_key, lookup}
use icdc_core.Prelude.Results.{Res, ok, err, map_err, ok_or, ◌>>=◌}
use icdc_core.Shared.Series.{Asset}
use icdc_core.Shared.Collateral.{AssetId, AssetError, CollateralAssetConfig, AssetMetrics}
use icdc_core.Margin.{User, position_key}
use icdc_core.Clearing.Plans.{
  user_key, finalised, is_finalised, CustodySweep, ReassignmentPlan, icrc_block_index,
}
use icdc_core.Clearing.State.{Clearing, Env, Reply, done, failed, proceed}
use icdc_core.Trade.Access.{unlock_after_reassignment}
use icdc_core.Trade.Registered.{continue}
use icdc_core.Collateral.{
  AssetHandler, get_handler, AssetTransferParams, LedgerAnswer, settled, refused, user_clearing,
}
use icdc_core.Reassignment.{
  ReassignAccountError, unsupported_custody_asset, custody_transfer_failed, reassignment_id_reused,
  persist, validate_principals, validate_and_rekey,
}

-- The ledger, as the sweep meets it.
pub record Ledger : Type 0 where
  pub balance_of : Asset → User → Res AssetError ℕ
  pub get_fee : Asset → Res AssetError ℕ
  pub transfer : AssetTransferParams → LedgerAnswer

abbrev pub cached_fee_of : Option AssetMetrics → Option ℕ
cached_fee_of none = none
cached_fee_of (some metrics) = metrics.latest_transfer_fee

unfoldable pub cached_transfer_fee : AssetId → Clearing → Option ℕ
cached_transfer_fee asset_id st = cached_fee_of (lookup asset_id st.asset_metrics)

abbrev pub answer_of : LedgerAnswer → Res AssetError ℕ
answer_of (settled block) = ok block
answer_of (refused e) = err e

-- `Some(fee) => fee, None => handler.get_fee(..)`.
abbrev pub fee_or_ask : Option ℕ → Res AssetError ℕ → Res AssetError ℕ
fee_or_ask none asked = asked
fee_or_ask (some fee) asked = ok fee

-- The transfer of what the subaccount holds beyond the fee.
unfoldable pub drain :
    Ledger
    → Env
    → ReassignmentPlan
    → CustodySweep
    → CollateralAssetConfig
    → AssetHandler
    → (amount : ℕ) → Res AssetError CustodySweep
drain ledger env plan sweep config handler amount =
    if amount == 0 then ok (record sweep { moved_amount = some 0 }) else (do
      block ← answer_of (
          ledger.transfer (record {
            handler = handler;
            asset = config.asset;
            asset_id = sweep.asset_id;
            from = user_clearing plan.old_owner;
            to = user_clearing plan.new_owner;
            amount = amount;
            created_at_time_ns = some env.now;
          }))
      ok (record sweep { moved_amount = some amount; receipt = some (icrc_block_index block) }))

unfoldable pub sweep_asset :
    Ledger
    → Env
    → ReassignmentPlan
    → CustodySweep
    → Clearing
    → Res ReassignAccountError CustodySweep
unfolding drain cached_transfer_fee
sweep_asset ledger env plan sweep st = do
  config ←
      ok_or (lookup sweep.asset_id st.collateral_assets) (unsupported_custody_asset sweep.asset_id)
  map_err (custody_transfer_failed sweep.asset_id) (do
    handler ← get_handler config.asset
    balance ← ledger.balance_of config.asset plan.old_owner
    fee ← fee_or_ask (cached_transfer_fee sweep.asset_id st) (ledger.get_fee config.asset)
    drain ledger env plan sweep config handler (balance - fee))

-- The loop over the sweeps; the ones before are done, and each new one is persisted.
unfoldable pub sweep_custody :
    Ledger
    → Env
    → ReassignmentPlan
    → (before rest : List CustodySweep) → Clearing
    → Reply ReassignAccountError ReassignmentPlan
unfolding sweep_asset persist
sweep_custody ledger env plan before [] st = done (record plan { sweeps = before }) st
sweep_custody ledger env plan before (s ∷ rest) st = elim s.moved_amount [
  | some moved ↦ sweep_custody ledger env plan (before ++ s ∷ []) rest st
  | none ↦ proceed (sweep_asset ledger env plan s st) st λ s'.
      sweep_custody ledger env plan (before ++ s' ∷ []) rest
        (persist (record plan { sweeps = before ++ s' ∷ rest }) st)
]

-- The sweep of a plan, and its end.
unfoldable pub finish_reassignment :
    Ledger → Env → User → User → ReassignmentPlan → Clearing → Reply ReassignAccountError (Unit {0})
unfolding sweep_custody persist
finish_reassignment ledger env old_owner new_owner plan st =
    continue (sweep_custody ledger env plan [] plan.sweeps st) λ swept st'. done tt (
      unlock_after_reassignment old_owner new_owner
        (persist (record swept { status = finalised }) st'))

-- What an existing plan leaves to do.
unfoldable pub resume_reassignment :
    Option ReassignmentPlan
    → Ledger
    → Env
    → (reassignment_id : ℕ) (old_owner new_owner : User) → Clearing
    → Reply ReassignAccountError (Unit {0})
unfolding finish_reassignment validate_and_rekey
resume_reassignment none ledger env reassignment_id old_owner new_owner st =
    continue (validate_and_rekey old_owner new_owner env reassignment_id st)
      λ plan st'. finish_reassignment ledger env old_owner new_owner plan st'
resume_reassignment (some plan) ledger env reassignment_id old_owner new_owner st =
    if not (plan.new_owner == new_owner)
    then failed reassignment_id_reused st
    else if is_finalised plan.status
    then done tt st
    else finish_reassignment ledger env old_owner new_owner plan st

unfoldable pub reassign_account :
    Ledger
    → Env
    → (reassignment_id : ℕ) (old_owner new_owner : User) → Clearing
    → Reply ReassignAccountError (Unit {0})
unfolding validate_principals resume_reassignment
reassign_account ledger env reassignment_id old_owner new_owner st =
    proceed (validate_principals old_owner new_owner) st λ _.
      resume_reassignment (lookup (old_owner, reassignment_id) st.reassignment_plans) ledger env
        reassignment_id old_owner new_owner st
