-- ===== src/Collateral/Withdraw/Refused.antt =====
-- A withdrawal that the ledger refuses (src/clearing/src/api/collateral/api.rs).
use icdc_core.Prelude.{ℕ, ◌-◌, ◌≤◌, ◌<◌, ◌≡◌, refl, ◌∙◌, sym, ap, Option, none, some, arith}
use mathlib.Core.Path.{ap₂}
use icdc_core.Prelude.Words.{u128_mod, add_u128, add_u128-eq}
use icdc_core.Prelude.Maps.{Map, nat_key, lookup}
use icdc_core.Shared.Domain.{BalanceDomain}
use icdc_core.Shared.Collateral.{AssetId, AssetError}
use icdc_core.Margin.{User, AccountState}
use icdc_core.Clearing.Plans.{user_key}
use icdc_core.Clearing.State.{Clearing, Env, failed}
use icdc_core.Trade.Execute.{account_or_new}
use icdc_core.Collateral.{LedgerAnswer, refused, or_settlement, awaiting, AssetTransferParams}
use icdc_core.Collateral.Balances.{
  held, rebalanced, rebalanced_self, rebalanced_twice, rebalanced_same, held-set_balance,
}
use icdc_core.Collateral.Withdraw.{
  PendingWithdrawal, WithdrawCollateralParams, withdraw_asset, refund, refund_account,
  resume_withdrawal, begin_withdrawal, withdraw_collateral, put_withdrawal,
}
use icdc_core.Collateral.Withdraw.Reserved.{
  domain_of, sent_call, fresh_call, planned_state, begin_withdrawal-fresh, approve_lem,
  lookup-debited, begin_withdrawal-IsCovered,
}

held-refund_account :
    (found : Option AccountState) (user : User) (domain : BalanceDomain) (asset_id : AssetId)
    (tokens : ℕ) (accounts : Map User AccountState) {account : AccountState}
    → found ≡ some account
    → lookup user accounts ≡ found
    → (v : User) (e : BalanceDomain) (k : AssetId)
    → held (refund_account found user domain asset_id tokens accounts) v e k
      ≡ rebalanced user domain asset_id
          (add_u128 (held accounts user domain asset_id) tokens)
          (held accounts v e k)
          v
          e
          k
unfolding refund_account
held-refund_account none user domain asset_id tokens accounts absent there v e k =
    absurd (ground arith)
held-refund_account (some account) user domain asset_id tokens accounts same there v e k =
    let known : account ≡ account_or_new accounts user = rw there refl in
    rw known (held-set_balance user domain asset_id _ accounts v e k)

-- A refusal of the transfer gives the reserved tokens back to an account that still exists.
pub held-refund :
    (d : PendingWithdrawal) (st : Clearing) {tokens : ℕ} {account : AccountState}
    → d.plan.reserved_amount ≡ some tokens
    → lookup d.user st.accounts ≡ some account
    → (v : User) (e : BalanceDomain) (k : AssetId)
    → held (refund d st).accounts v e k
      ≡ rebalanced d.user
          (domain_of d)
          d.params.asset_id
          (add_u128 (held st.accounts d.user (domain_of d) d.params.asset_id) tokens)
          (held st.accounts v e k)
          v
          e
          k
unfolding refund
held-refund d st {tokens} reserved there v e k = rw reserved (
    held-refund_account (lookup d.user st.accounts) d.user (domain_of d) d.params.asset_id tokens
      st.accounts there refl v e k)

-- The call that waits after its first part, and the account that it has written.
begin_withdrawal-waits :
    (env : Env) (user : User) (p : WithdrawCollateralParams) (st : Clearing)
    {request : AssetTransferParams} {d : PendingWithdrawal} {st' : Clearing}
    → lookup (user, p.withdrawal_id) st.withdrawal_plans ≡ none
    → begin_withdrawal env user p st ≡ awaiting request d st'
    → (sent_call (fresh_call env user p) p.amount ≡ d)
      × ((a : AccountState) × (lookup user st'.accounts ≡ some a))
begin_withdrawal-waits env user p st {d} {st'} fresh h =
    let o = fresh_call env user p in
    let (c, approved, checked, asked, kept, wrote) = begin_withdrawal-fresh env user p st fresh h in
    let (amount, _, _) = approve_lem (planned_state o st) c o approved checked in
    (
      ap (sent_call o) amount ∙ kept,
      (
        _,
        ap (λ (s : Clearing). lookup user s.accounts) (sym wrote)
            ∙ lookup-debited (planned_state o st) o approved,
      ),
    )

-- The first call of a withdrawal that reaches its transfer lowers the user's balance of the asset
-- in the domain by the amount, down to zero at most. When the ledger refuses the transfer, at any
-- later time and whatever other messages have run during the `await`, and the user's account still
-- exists, the call fails with the ledger's error, and the balance of that time is raised by the
-- whole amount, as a `u128`. Neither step changes another balance, and the second one writes only
-- the accounts and the withdrawal plans.
pub resume_withdrawal-refunds :
    (env : Env) (user : User) (p : WithdrawCollateralParams) (st later : Clearing) (e : AssetError)
    {request : AssetTransferParams} {d : PendingWithdrawal} {st' : Clearing}
    {account : AccountState}
    → lookup (user, p.withdrawal_id) st.withdrawal_plans ≡ none
    → begin_withdrawal env user p st ≡ awaiting request d st'
    → lookup user later.accounts ≡ some account
    → ((v : User) (b : BalanceDomain) (k : AssetId)
        → held st'.accounts v b k
          ≡ rebalanced user
              (or_settlement p.domain)
              p.asset_id
              (held st.accounts user (or_settlement p.domain) p.asset_id - p.amount)
              (held st.accounts v b k)
              v
              b
              k)
      × ((end : Clearing) × (resume_withdrawal d (refused e) later ≡ failed (withdraw_asset e) end)
          × ((v : User) (b : BalanceDomain) (k : AssetId)
              → held end.accounts v b k
                ≡ rebalanced user
                    (or_settlement p.domain)
                    p.asset_id
                    (add_u128
                      (held later.accounts user (or_settlement p.domain) p.asset_id)
                      p.amount)
                    (held later.accounts v b k)
                    v
                    b
                    k)
          × (end
              ≡ record later { accounts = end.accounts; withdrawal_plans = end.withdrawal_plans }))
unfolding resume_withdrawal refund
resume_withdrawal-refunds env user p st later e {d} {st'} fresh h there =
    let o = fresh_call env user p in
    let (kept, _) = begin_withdrawal-waits env user p st fresh h in
    let (_, _, lowered) = begin_withdrawal-IsCovered env user p st fresh h in
    rw (← kept) (
      lowered,
      (
        put_withdrawal (user, p.withdrawal_id)
            (record (sent_call o p.amount).plan { reserved_amount = none })
            (refund (sent_call o p.amount) later),
        refl,
        held-refund (sent_call o p.amount) later refl there,
        refl,
      ),
    )

-- Let the first call of a withdrawal reach its transfer, where the user's balance of the asset in
-- the domain covers the amount and is a `u128`, and let the ledger refuse the transfer while no
-- other message runs during the `await`. Then the call fails with the ledger's error, and every
-- balance of every user is as it was before the call.
pub withdraw_collateral-restores :
    (ledger : AssetTransferParams → LedgerAnswer) (env : Env) (user : User)
    (p : WithdrawCollateralParams) (st : Clearing) (e : AssetError) {request : AssetTransferParams}
    {d : PendingWithdrawal} {st' : Clearing}
    → lookup (user, p.withdrawal_id) st.withdrawal_plans ≡ none
    → begin_withdrawal env user p st ≡ awaiting request d st'
    → ledger request ≡ refused e
    → p.amount ≤ held st.accounts user (or_settlement p.domain) p.asset_id
    → held st.accounts user (or_settlement p.domain) p.asset_id < u128_mod
    → (end : Clearing) × (withdraw_collateral ledger env user p st ≡ failed (withdraw_asset e) end)
      × ((v : User) (b : BalanceDomain) (k : AssetId)
          → held end.accounts v b k ≡ held st.accounts v b k)
unfolding withdraw_collateral
withdraw_collateral-restores ledger env user p st e {d} {st'} fresh h answer enough fits =
    let (_, (account, there)) = begin_withdrawal-waits env user p st fresh h in
    let (lowered, (end, ended, raised, _)) =
      resume_withdrawal-refunds env user p st st' e fresh h there in
    let domain = or_settlement p.domain in
    let balance = held st.accounts user domain p.asset_id in
    let low : held st'.accounts user domain p.asset_id ≡ balance - p.amount =
      lowered user domain p.asset_id ∙ rebalanced_self user domain p.asset_id _ _ in
    let back : add_u128 (held st'.accounts user domain p.asset_id) p.amount ≡ balance =
      ap (λ (n : ℕ). add_u128 n p.amount) low
      ∙ add_u128-eq (balance - p.amount) p.amount (omega (arith, enough, fits))
      ∙ omega (arith, enough) in
    (
      end,
      rw (h, answer) ended,
      λ v b k.
          raised v b k
          ∙ ap₂ (λ (n before : ℕ). rebalanced user domain p.asset_id n before v b k) back
              (lowered v b k)
          ∙ rebalanced_twice user domain p.asset_id _ _ _ v b k
          ∙ rebalanced_same user domain p.asset_id st.accounts v b k,
    )
