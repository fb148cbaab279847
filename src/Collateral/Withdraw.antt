-- ===== src/Collateral/Withdraw.antt =====
-- `withdraw_collateral` (src/clearing/src/api/collateral/api.rs), cut at the ledger call.
pub mod Reserved
pub mod Refused
use icdc_core.Prelude.{ℕ, ◌-◌, Option, none, some, not, ltb, ◌==◌, if◌then◌else◌}
use icdc_core.Prelude.Words.{add_u128}
use icdc_core.Prelude.Maps.{Map, nat_key, lookup, insert}
use icdc_core.Prelude.Results.{Res, ok, err, map_err, ok_or, ◌>>=◌}
use icdc_core.Shared.Domain.{BalanceDomain}
use icdc_core.Shared.Price.{bps_base}
use icdc_core.Shared.Collateral.{
  AssetId, AssetError, unsupported_asset, CollateralAssetConfig, AssetMetrics,
}
use icdc_core.Margin.{
  User, AccountState, get_balance, set_balance, get_reserved_margin_usd, calculate_equity_usd,
  asset_value_usd, unwrap_or,
}
use icdc_core.Clearing.Plans.{
  UserKey, user_key, WithdrawalPlan, withdrawal_get_or_create, executing, finalised, is_finalised,
  icrc_block_index, to_created_at_time_ns,
}
use icdc_core.Clearing.State.{Clearing, Env, Reply, done, failed, trapped, proceed}
use icdc_core.Trade.Access.{acquire}
use icdc_core.Collateral.{
  AssetHandler, AssetTransferParams, get_handler, external_icrc, user_clearing, LedgerAnswer,
  settled, refused, Begun, replied, awaiting, begin_with, conclude, to_u128, allows, or_settlement,
}

pub data WithdrawCollateralError : Type 0 where
  withdraw_asset : AssetError → WithdrawCollateralError
  -- the available margin and the value requested
  insufficient_excess_margin : ℕ → ℕ → WithdrawCollateralError
  withdraw_math_overflow : WithdrawCollateralError
  withdraw_domain_not_allowed : BalanceDomain → AssetId → WithdrawCollateralError
  withdraw_under_reassignment : User → WithdrawCollateralError

pub record WithdrawCollateralParams : Type 0 where
  pub amount : ℕ
  pub asset_id : AssetId
  pub withdrawal_id : ℕ
  pub domain : Option BalanceDomain

unfoldable pub withdraw_config :
    Clearing
    → WithdrawCollateralParams
    → Res WithdrawCollateralError (CollateralAssetConfig × AssetMetrics)
withdraw_config st p =
    if p.asset_id == st.config.internal_asset_id
    then err (withdraw_asset unsupported_asset)
    else (do
      config ← ok_or (lookup p.asset_id st.collateral_assets) (withdraw_asset unsupported_asset)
      metric ← ok_or (lookup p.asset_id st.asset_metrics) (withdraw_asset unsupported_asset)
      if not (allows config.allowed_balance_domains (or_settlement p.domain))
          then err (withdraw_domain_not_allowed (or_settlement p.domain) p.asset_id)
          else ok (config, metric))

unfoldable pub withdraw_gates :
    Clearing
    → User
    → WithdrawCollateralParams
    → Res WithdrawCollateralError (CollateralAssetConfig × AssetMetrics)
withdraw_gates st user p = do
  generation ← map_err (λ _. withdraw_under_reassignment user) (acquire user st)
  withdraw_config st p

abbrev pub put_withdrawal : UserKey → WithdrawalPlan → Clearing → Clearing
put_withdrawal key plan st = record st { withdrawal_plans = insert key plan st.withdrawal_plans }

-- `current.saturating_sub(amount)`.
unfoldable pub debit_account : AccountState → BalanceDomain → AssetId → ℕ → AccountState
debit_account account domain asset_id amount =
    set_balance account domain asset_id (get_balance account domain asset_id - amount)

-- What the suspended call keeps.
pub record PendingWithdrawal : Type 0 where
  pub user : User
  pub params : WithdrawCollateralParams
  pub plan : WithdrawalPlan

abbrev pub withdrawal_key : PendingWithdrawal → UserKey
withdrawal_key d = (d.user, d.params.withdrawal_id)

-- The solvency check of a withdrawal worth `value`: the equity that stays must cover the reserve.
unfoldable pub check_excess :
    Clearing
    → AccountState
    → WithdrawCollateralParams
    → (amount value : ℕ) → Res WithdrawCollateralError (Unit {0})
check_excess st account p amount value =
    let domain = or_settlement p.domain in
    let after = debit_account account domain p.asset_id amount in
    do
      pre ← calculate_equity_usd account domain st.collateral_assets st.asset_metrics
      post ← calculate_equity_usd after domain st.collateral_assets st.asset_metrics
      let reserved = get_reserved_margin_usd after domain in
          if ltb post reserved
          then err (insufficient_excess_margin (pre - reserved) value)
          else ok tt

-- The amount as a `u128` and the account, once the withdrawal has passed its checks.
unfoldable pub approve :
    Clearing
    → CollateralAssetConfig × AssetMetrics
    → PendingWithdrawal
    → Res WithdrawCollateralError (ℕ × AccountState)
unfolding check_excess
approve st c d = do
  amount ← to_u128 withdraw_math_overflow d.params.amount
  value ←
      asset_value_usd amount c.1.price_usd.value (bps_base - c.1.haircut_bps) c.1.price_usd.decimals
        c.0.decimals
  account ← ok_or (lookup d.user st.accounts) (insufficient_excess_margin 0 value)
  checked ← check_excess st account d.params amount value
  ok (amount, account)

-- The debit, recorded on the plan.
unfoldable pub reserve :
    PendingWithdrawal → (amount : ℕ) → AccountState → Clearing → PendingWithdrawal × Clearing
reserve d amount account st =
    let plan = record d.plan { reserved_amount = some amount; reserved_cash_usd = none } in
    let debited = debit_account account (or_settlement d.params.domain) d.params.asset_id amount in
    (
      record d { plan = plan },
      put_withdrawal (withdrawal_key d) plan
          (record st { accounts = insert d.user debited st.accounts }),
    )

-- Phase D.
unfoldable pub finish_withdrawal :
    PendingWithdrawal → Clearing → Reply WithdrawCollateralError (Unit {0})
finish_withdrawal d st = elim d.plan.receipt [
  | none ↦ done tt st
  | some receipt ↦
      if is_finalised d.plan.status
      then done tt st
      else done tt (put_withdrawal (withdrawal_key d) (record d.plan { status = finalised }) st)
]

-- `current + tokens`, on an account that exists.
unfoldable pub refund_account :
    Option AccountState
    → User
    → BalanceDomain
    → AssetId
    → ℕ
    → Map User AccountState
    → Map User AccountState
refund_account none user domain asset_id tokens accounts = accounts
refund_account (some account) user domain asset_id tokens accounts =
    insert user
      (set_balance account domain asset_id (add_u128 (get_balance account domain asset_id) tokens))
      accounts

unfoldable pub refund : PendingWithdrawal → Clearing → Clearing
unfolding refund_account
refund d st = elim d.plan.reserved_amount [
  | none ↦ st
  | some tokens ↦ record st {
    accounts =
        refund_account (lookup d.user st.accounts) d.user (or_settlement d.params.domain)
          d.params.asset_id tokens st.accounts;
  }
]

-- The call from the ledger's answer on; a refusal gives the debit back.
unfoldable pub resume_withdrawal :
    PendingWithdrawal → LedgerAnswer → Clearing → Reply WithdrawCollateralError (Unit {0})
unfolding finish_withdrawal refund
resume_withdrawal d (settled block) st =
    let plan = record d.plan { receipt = some (icrc_block_index block) } in
    finish_withdrawal (record d { plan = plan }) (put_withdrawal (withdrawal_key d) plan st)
resume_withdrawal d (refused e) st =
    failed (withdraw_asset e)
      (put_withdrawal (withdrawal_key d) (record d.plan { reserved_amount = none }) (refund d st))

abbrev pub WithdrawalBegun : Type 0
WithdrawalBegun = Begun WithdrawCollateralError AssetTransferParams PendingWithdrawal

-- The arguments of `transfer`.
abbrev pub withdrawal_request :
    AssetHandler → CollateralAssetConfig → PendingWithdrawal → ℕ → AssetTransferParams
withdrawal_request handler config d amount = record {
  handler = handler;
  asset = config.asset;
  asset_id = d.params.asset_id;
  from = user_clearing d.user;
  to = external_icrc d.plan.to_account.0 d.plan.to_account.1;
  amount = amount;
  created_at_time_ns = to_created_at_time_ns d.plan.idempotency_ns;
}

-- `plan.reserved_amount.unwrap()`, and the request.
unfoldable pub request_transfer :
    Option ℕ → CollateralAssetConfig → PendingWithdrawal → Clearing → WithdrawalBegun
request_transfer none config d st = replied trapped
request_transfer (some amount) config d st =
    begin_with (map_err withdraw_asset (get_handler config.asset)) st
      λ handler. awaiting (withdrawal_request handler config d amount) d st

-- Phase C up to the `await`, or phase D when the transfer is known to have settled.
unfoldable pub send_withdrawal :
    CollateralAssetConfig → PendingWithdrawal → Clearing → WithdrawalBegun
unfolding request_transfer finish_withdrawal
send_withdrawal config d st = elim d.plan.receipt [
  | none ↦
      let sent = record d { plan = record d.plan { status = executing } } in
      request_transfer d.plan.reserved_amount config sent
        (put_withdrawal (withdrawal_key d) sent.plan st)
  | some receipt ↦ replied (finish_withdrawal d st)
]

-- The part between the plan and the transfer: nothing, when the plan has its reserve.
unfoldable pub reserve_once :
    Option ℕ → CollateralAssetConfig × AssetMetrics → PendingWithdrawal → Clearing → WithdrawalBegun
unfolding send_withdrawal approve reserve
reserve_once (some amount) c d st = send_withdrawal c.0 d st
reserve_once none c d st = begin_with (approve st c d) st λ approved.
    let reserved = reserve d approved.0 approved.1 st in send_withdrawal c.0 reserved.0 reserved.1

unfoldable pub open_withdrawal :
    Env
    → User
    → CollateralAssetConfig × AssetMetrics
    → WithdrawCollateralParams
    → Clearing
    → WithdrawalBegun
unfolding reserve_once
open_withdrawal env user c p st =
    let opened =
      withdrawal_get_or_create p.withdrawal_id user p.asset_id p.amount (user, none) env.now
        st.withdrawal_plans in
    let st' = record st { withdrawal_plans = opened.1 } in
    if is_finalised opened.0.status
    then replied (done tt st')
    else reserve_once opened.0.reserved_amount c
        (record { user = user; params = p; plan = opened.0 }) st'

unfoldable pub begin_withdrawal : Env → User → WithdrawCollateralParams → Clearing → WithdrawalBegun
unfolding open_withdrawal
begin_withdrawal env user p st =
    begin_with (withdraw_gates st user p) st λ c. open_withdrawal env user c p st

-- The whole call when no other message runs during its `await`.
unfoldable pub withdraw_collateral :
    (AssetTransferParams → LedgerAnswer)
    → Env
    → User
    → WithdrawCollateralParams
    → Clearing
    → Reply WithdrawCollateralError (Unit {0})
unfolding begin_withdrawal resume_withdrawal
withdraw_collateral ledger env user p st =
    conclude (begin_withdrawal env user p st) ledger resume_withdrawal
