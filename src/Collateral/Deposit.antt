-- ===== src/Collateral/Deposit.antt =====
-- `deposit_collateral` (src/clearing/src/api/collateral/api.rs), cut at the ledger call.
pub mod Credit
pub mod Retry
use icdc_core.Prelude.{ℕ, Bool, true, false, Option, none, some, not, ◌==◌, if◌then◌else◌}
use icdc_core.Prelude.Words.{add_u128}
use icdc_core.Prelude.Maps.{Map, nat_key, lookup, insert}
use icdc_core.Prelude.Results.{Res, ok, err, map_err, ok_or, ◌>>=◌}
use icdc_core.Shared.Domain.{BalanceDomain}
use icdc_core.Shared.Collateral.{AssetId, AssetError, unsupported_asset, CollateralAssetConfig}
use icdc_core.Margin.{User, AccountState, get_balance, set_balance}
use icdc_core.Clearing.Plans.{
  UserKey, user_key, DepositPlan, deposit_get_or_create, executing, finalised, is_finalised,
  PaymentReceipt, icrc_block_index, to_created_at_time_ns,
}
use icdc_core.Clearing.State.{Clearing, Env, Reply, done, failed, proceed}
use icdc_core.Trade.Access.{acquire}
use icdc_core.Trade.Execute.{account_or_new}
use icdc_core.Collateral.{
  AssetHandler, AssetTransferFromParams, get_handler, canister_main, external_principal,
  user_clearing, LedgerAnswer, settled, refused, Begun, replied, awaiting, begin_with, conclude,
  to_u128, allows, or_settlement,
}

pub data DepositCollateralError : Type 0 where
  deposit_asset : AssetError → DepositCollateralError
  deposit_math_overflow : DepositCollateralError
  deposit_domain_not_allowed : BalanceDomain → AssetId → DepositCollateralError
  deposit_under_reassignment : User → DepositCollateralError

pub record DepositCollateralParams : Type 0 where
  pub amount : ℕ
  pub asset_id : AssetId
  pub deposit_id : ℕ
  pub domain : Option BalanceDomain

-- The checks on the asset, its configuration and the domain.
unfoldable pub deposit_config :
    Clearing → DepositCollateralParams → Res DepositCollateralError CollateralAssetConfig
deposit_config st p =
    if p.asset_id == st.config.internal_asset_id then err (deposit_asset unsupported_asset) else (do
      config ← ok_or (lookup p.asset_id st.collateral_assets) (deposit_asset unsupported_asset)
      if not config.is_enabled
          then err (deposit_asset unsupported_asset)
          else if not (allows config.allowed_balance_domains (or_settlement p.domain))
          then err (deposit_domain_not_allowed (or_settlement p.domain) p.asset_id)
          else ok config)

unfoldable pub deposit_gates :
    Clearing → User → DepositCollateralParams → Res DepositCollateralError CollateralAssetConfig
deposit_gates st user p = do
  generation ← map_err (λ _. deposit_under_reassignment user) (acquire user st)
  deposit_config st p

abbrev pub put_deposit : UserKey → DepositPlan → Clearing → Clearing
put_deposit key plan st = record st { deposit_plans = insert key plan st.deposit_plans }

-- `current + amount` in the domain of the deposit, on the user's account or on a new one.
unfoldable pub credit :
    User → BalanceDomain → AssetId → ℕ → Map User AccountState → Map User AccountState
credit user domain asset_id amount accounts =
    let account = account_or_new accounts user in
    insert user
      (set_balance account domain asset_id (add_u128 (get_balance account domain asset_id) amount))
      accounts

-- What the suspended call keeps.
pub record PendingDeposit : Type 0 where
  pub user : User
  pub params : DepositCollateralParams
  pub plan : DepositPlan

abbrev pub plan_key : PendingDeposit → UserKey
plan_key d = (d.user, d.params.deposit_id)

-- Phase C.
unfoldable pub finish_deposit : PendingDeposit → Clearing → Reply DepositCollateralError (Unit {0})
finish_deposit d st = elim d.plan.receipt [
  | none ↦ done tt st
  | some receipt ↦
      if is_finalised d.plan.status
      then done tt st
      else proceed (to_u128 deposit_math_overflow d.params.amount) st λ amount. done tt (
          put_deposit (plan_key d) (record d.plan { status = finalised })
            (record st {
              accounts =
                  credit d.user (or_settlement d.params.domain) d.params.asset_id amount
                    st.accounts;
            }))
]

-- The call from the ledger's answer on.
unfoldable pub resume_deposit :
    PendingDeposit → LedgerAnswer → Clearing → Reply DepositCollateralError (Unit {0})
unfolding finish_deposit
resume_deposit d (settled block) st =
    let plan = record d.plan { receipt = some (icrc_block_index block) } in
    finish_deposit (record d { plan = plan }) (put_deposit (plan_key d) plan st)
resume_deposit d (refused e) st = failed (deposit_asset e) (put_deposit (plan_key d) d.plan st)

abbrev pub DepositBegun : Type 0
DepositBegun = Begun DepositCollateralError AssetTransferFromParams PendingDeposit

-- The arguments of `transfer_from`.
abbrev pub deposit_request :
    AssetHandler → CollateralAssetConfig → PendingDeposit → ℕ → AssetTransferFromParams
deposit_request handler config d amount = record {
  handler = handler;
  asset = config.asset;
  spender = canister_main;
  from = external_principal d.user;
  to = user_clearing d.user;
  amount = amount;
  created_at_time_ns = to_created_at_time_ns d.plan.idempotency_ns;
}

-- Phase B up to the `await`.
unfoldable pub send_deposit : CollateralAssetConfig → PendingDeposit → Clearing → DepositBegun
send_deposit config d st =
    let sent = record d { plan = record d.plan { status = executing } } in
    let st' = put_deposit (plan_key d) sent.plan st in
    begin_with (map_err deposit_asset (get_handler config.asset)) st' λ handler.
      begin_with (to_u128 deposit_math_overflow d.params.amount) st'
        λ amount. awaiting (deposit_request handler config sent amount) sent st'

-- What is left to do of a plan: nothing, the transfer, or the credit.
unfoldable pub continue_deposit :
    (finished : Bool)
    → Option PaymentReceipt
    → CollateralAssetConfig
    → PendingDeposit
    → Clearing
    → DepositBegun
unfolding send_deposit finish_deposit
continue_deposit true receipt config d st = replied (done tt st)
continue_deposit false none config d st = send_deposit config d st
continue_deposit false (some receipt) config d st = replied (finish_deposit d st)

-- Phase A.
unfoldable pub open_deposit :
    Env → User → CollateralAssetConfig → DepositCollateralParams → Clearing → DepositBegun
unfolding continue_deposit
open_deposit env user config p st =
    let opened =
      deposit_get_or_create p.deposit_id user p.asset_id p.amount env.now st.deposit_plans in
    continue_deposit (is_finalised opened.0.status) opened.0.receipt config
      (record { user = user; params = p; plan = opened.0 }) (record st { deposit_plans = opened.1 })

-- The call up to its `await`.
unfoldable pub begin_deposit : Env → User → DepositCollateralParams → Clearing → DepositBegun
unfolding open_deposit
begin_deposit env user p st =
    begin_with (deposit_gates st user p) st λ config. open_deposit env user config p st

-- The whole call when no other message runs during its `await`.
unfoldable pub deposit_collateral :
    (AssetTransferFromParams → LedgerAnswer)
    → Env
    → User
    → DepositCollateralParams
    → Clearing
    → Reply DepositCollateralError (Unit {0})
unfolding begin_deposit resume_deposit
deposit_collateral ledger env user p st =
    conclude (begin_deposit env user p st) ledger resume_deposit
