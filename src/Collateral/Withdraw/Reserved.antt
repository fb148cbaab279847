-- ===== src/Collateral/Withdraw/Reserved.antt =====
-- What a withdrawal debits before its transfer, and what it leaves to cover the reserved margin
-- (src/clearing/src/api/collateral/api.rs).
use icdc_core.Prelude.{ℕ, ◌-◌, ◌≤◌, ◌≡◌, refl, ◌∙◌, sym, ap, none, some, arith}
use icdc_core.Prelude.Maps.{nat_key, lookup, lookup-insert, insert, beq_refl}
use icdc_core.Prelude.Results.{ok, >>=-eq-ok, ok_or, ok_or-eq-ok, ok-injective}
use icdc_core.Shared.Domain.{BalanceDomain}
use icdc_core.Shared.Collateral.{AssetId, CollateralAssetConfig, AssetMetrics}
use icdc_core.Margin.{
  User, AccountState, get_reserved_margin_usd, calculate_equity_usd, asset_value_usd,
}
use icdc_core.Clearing.Plans.{
  user_key, executing, planned, withdrawal_get_or_create, icrc_created_at_time_ns,
}
use icdc_core.Clearing.State.{Clearing, Env}
use icdc_core.Trade.Execute.{account_or_new}
use icdc_core.Collateral.{
  to_u128, to_u128-eq-ok, or_settlement, awaiting, begin_with, begin_with-eq-awaiting, get_handler,
  handler_of, awaiting-injective, AssetTransferParams,
}
use icdc_core.Collateral.Balances.{held, rebalanced, held-set_balance}
use icdc_core.Collateral.Withdraw.{
  PendingWithdrawal, WithdrawCollateralParams, WithdrawCollateralError, withdraw_math_overflow,
  insufficient_excess_margin, withdraw_gates, debit_account, check_excess, approve, reserve,
  send_withdrawal, reserve_once, request_transfer, withdrawal_request, open_withdrawal,
  begin_withdrawal, put_withdrawal,
}

check_excess_lem :
    (st : Clearing) (account : AccountState) (p : WithdrawCollateralParams) (amount value : ℕ)
    → check_excess st account p amount value ≡ ok tt
    → let domain = or_settlement p.domain in
      let after = debit_account account domain p.asset_id amount in
      (post : ℕ) × (calculate_equity_usd {E = WithdrawCollateralError} after domain
          st.collateral_assets st.asset_metrics
        ≡ ok post)
      × (get_reserved_margin_usd after domain ≤ post)
unfolding check_excess
check_excess_lem st account p amount value h =
    let (pre, _, h1) = >>=-eq-ok (calculate_equity_usd _ _ _ _) _ h in
    let (post, found, h2) = >>=-eq-ok (calculate_equity_usd _ _ _ _) _ h1 in
    (post, found, ground (arith, h2))

abbrev pub domain_of : PendingWithdrawal → BalanceDomain
domain_of d = or_settlement d.params.domain

-- The account after the debit covers its reserved margin.
abbrev pub IsCovered : Clearing → BalanceDomain → AccountState → Type 0
IsCovered st domain after =
    (post : ℕ) × (calculate_equity_usd {E = WithdrawCollateralError} after domain
        st.collateral_assets st.asset_metrics
      ≡ ok post)
    × (get_reserved_margin_usd after domain ≤ post)

pub approve_lem :
    (st : Clearing) (c : CollateralAssetConfig × AssetMetrics) (d : PendingWithdrawal)
    (approved : ℕ × AccountState)
    → approve st c d ≡ ok approved
    → (d.params.amount ≡ approved.0)
      × (lookup d.user st.accounts ≡ some approved.1)
      × IsCovered st
          (domain_of d)
          (debit_account approved.1 (domain_of d) d.params.asset_id approved.0)
unfolding approve
approve_lem st c d approved h =
    let (amount, fitted, h1) = >>=-eq-ok (to_u128 withdraw_math_overflow d.params.amount) _ h in
    let (value, _, h2) = >>=-eq-ok (asset_value_usd amount _ _ _ _) _ h1 in
    let (account, there, h3) =
      >>=-eq-ok (ok_or (lookup d.user st.accounts) (insufficient_excess_margin 0 value)) _ h2 in
    let (checked, passed, h4) = >>=-eq-ok (check_excess st account d.params amount value) _ h3 in
    let same : (amount, account) ≡ approved = ok-injective h4 in
    rw (← same) (
      (to_u128-eq-ok withdraw_math_overflow d.params.amount fitted).1,
      ok_or-eq-ok (lookup d.user st.accounts) _ there,
      check_excess_lem st account d.params amount value passed,
    )

-- The call of a withdrawal id that has no plan yet.
abbrev pub fresh_call : Env → User → WithdrawCollateralParams → PendingWithdrawal
fresh_call env user p = record {
  user = user;
  params = p;
  plan = record {
    withdrawal_id = p.withdrawal_id;
    user = user;
    asset_id = p.asset_id;
    amount = p.amount;
    to_account = (user, none);
    status = planned;
    idempotency_ns = icrc_created_at_time_ns env.now;
    receipt = none;
    reserved_amount = none;
    reserved_cash_usd = none;
  };
}

abbrev pub planned_state : PendingWithdrawal → Clearing → Clearing
planned_state d st = record st {
  withdrawal_plans = insert (d.user, d.params.withdrawal_id) d.plan st.withdrawal_plans;
}

-- The call as it waits for its transfer.
abbrev pub sent_call : PendingWithdrawal → ℕ → PendingWithdrawal
sent_call d amount = record d {
  plan = record d.plan {
    reserved_amount = some amount;
    reserved_cash_usd = none;
    status = executing;
  };
}

unfoldable pub sent_state : PendingWithdrawal → ℕ × AccountState → Clearing → Clearing
unfolding reserve
sent_state d approved st =
    put_withdrawal (d.user, d.params.withdrawal_id) (sent_call d approved.0).plan
      (reserve d approved.0 approved.1 st).1

open_withdrawal-fresh :
    (env : Env) (user : User) (c : CollateralAssetConfig × AssetMetrics)
    (p : WithdrawCollateralParams) (st : Clearing)
    → lookup (user, p.withdrawal_id) st.withdrawal_plans ≡ none
    → let d = fresh_call env user p in
      let st' = planned_state d st in
      open_withdrawal env user c p st
      ≡ begin_with (approve st' c d) st' (λ (approved : ℕ × AccountState).
        awaiting
          (withdrawal_request (handler_of c.0.asset) c.0 (sent_call d approved.0) approved.0)
          (sent_call d approved.0)
          (sent_state d approved st'))
unfolding sent_state open_withdrawal withdrawal_get_or_create reserve_once send_withdrawal
    request_transfer get_handler reserve
open_withdrawal-fresh env user c p st fresh = rw fresh refl

pub debited :
    (st : Clearing) (d : PendingWithdrawal) (approved : ℕ × AccountState)
    → lookup d.user st.accounts ≡ some approved.1
    → (v : User) (e : BalanceDomain) (k : AssetId)
    → held (sent_state d approved st).accounts v e k
      ≡ rebalanced d.user
          (domain_of d)
          d.params.asset_id
          (held st.accounts d.user (domain_of d) d.params.asset_id - approved.0)
          (held st.accounts v e k)
          v
          e
          k
unfolding sent_state reserve debit_account
debited st d approved there v e k =
    let known : approved.1 ≡ account_or_new st.accounts d.user = rw there refl in
    rw known (held-set_balance d.user (domain_of d) d.params.asset_id _ st.accounts v e k)

pub lookup-debited :
    (st : Clearing) (d : PendingWithdrawal) (approved : ℕ × AccountState)
    → lookup d.user (sent_state d approved st).accounts
      ≡ some (debit_account approved.1 (domain_of d) d.params.asset_id approved.0)
unfolding sent_state reserve
lookup-debited st d approved =
    rw
      (
        lookup-insert d.user d.user
            (debit_account approved.1 (domain_of d) d.params.asset_id approved.0) st.accounts,
        beq_refl d.user,
      )
      refl

pub begin_withdrawal-fresh :
    (env : Env) (user : User) (p : WithdrawCollateralParams) (st : Clearing)
    {request : AssetTransferParams} {d : PendingWithdrawal} {st' : Clearing}
    → lookup (user, p.withdrawal_id) st.withdrawal_plans ≡ none
    → begin_withdrawal env user p st ≡ awaiting request d st'
    → let o = fresh_call env user p in
      (c : CollateralAssetConfig × AssetMetrics) × (approved : ℕ × AccountState) × (approve
          (planned_state o st)
          c
          o
        ≡ ok approved)
      × (withdrawal_request (handler_of c.0.asset) c.0 (sent_call o approved.0) approved.0
          ≡ request)
      × (sent_call o approved.0 ≡ d)
      × (sent_state o approved (planned_state o st) ≡ st')
unfolding begin_withdrawal
begin_withdrawal-fresh env user p st fresh h =
    let (c, passed, h1) =
      begin_with-eq-awaiting (withdraw_gates st user p) st
        (λ (c : CollateralAssetConfig × AssetMetrics). open_withdrawal env user c p st) h in
    let o = fresh_call env user p in
    let (approved, checked, h2) =
      begin_with-eq-awaiting (approve (planned_state o st) c o) (planned_state o st) _
        (sym (open_withdrawal-fresh env user c p st fresh) ∙ h1) in
    let (asked, kept, wrote) = awaiting-injective h2 in (c, approved, checked, asked, kept, wrote)

-- The first call of a withdrawal that reaches its transfer has taken the amount, or all that there
-- is, from the user's balance of the asset in the domain, and no other balance changed. It asks
-- the ledger for exactly the amount, and the equity left in the domain covers the reserved margin.
pub begin_withdrawal-IsCovered :
    (env : Env) (user : User) (p : WithdrawCollateralParams) (st : Clearing)
    {request : AssetTransferParams} {d : PendingWithdrawal} {st' : Clearing}
    → lookup (user, p.withdrawal_id) st.withdrawal_plans ≡ none
    → begin_withdrawal env user p st ≡ awaiting request d st'
    → (request.amount ≡ p.amount)
      × IsCovered st' (or_settlement p.domain) (account_or_new st'.accounts user)
      × ((v : User) (e : BalanceDomain) (k : AssetId)
          → held st'.accounts v e k
            ≡ rebalanced user
                (or_settlement p.domain)
                p.asset_id
                (held st.accounts user (or_settlement p.domain) p.asset_id - p.amount)
                (held st.accounts v e k)
                v
                e
                k)
unfolding sent_state
begin_withdrawal-IsCovered env user p st {request} {d} {st'} fresh h =
    let o = fresh_call env user p in
    let (c, approved, checked, asked, kept, wrote) = begin_withdrawal-fresh env user p st fresh h in
    let (amount, there, covered) = approve_lem (planned_state o st) c o approved checked in
    (
      sym (ap (λ (r : AssetTransferParams). r.amount) asked) ∙ sym amount,
      rw (← wrote) (rw (lookup-debited (planned_state o st) o approved) covered),
      λ v e k.
          rw (← wrote) (debited (planned_state o st) o approved there v e k)
          ∙ ap
              (λ (n : ℕ).
                rebalanced user (or_settlement p.domain) p.asset_id
                  (held st.accounts user (or_settlement p.domain) p.asset_id - n)
                  (held st.accounts v e k) v e k)
              (sym amount),
    )
