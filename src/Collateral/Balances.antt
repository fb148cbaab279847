-- ===== src/Collateral/Balances.antt =====
-- Reading the balances of a map of accounts back after one account was written
-- (ACCOUNT_STATES in src/clearing/src/memory.rs, src/clearing/src/types/margin.rs).
use icdc_core.Prelude.{ℕ, ◌≡◌, arith, ◌==◌, ==_iff, if◌then◌else◌}
use icdc_core.Prelude.Maps.{Map, nat_key, insert, lookup-insert}
use icdc_core.Shared.Domain.{BalanceDomain, domain_beq, domain_beq_iff}
use icdc_core.Shared.Collateral.{AssetId}
use icdc_core.Margin.{User, AccountState, get_balance, set_balance}
use icdc_core.Margin.Accounts.{get_balance-set_balance}
use icdc_core.Trade.Execute.{account_or_new}

-- What a user's account holds; a missing account holds nothing.
abbrev pub held : Map User AccountState → User → BalanceDomain → AssetId → ℕ
held accounts user domain asset_id = get_balance (account_or_new accounts user) domain asset_id

-- The balance of `(user, domain, asset_id)` becomes `x`, and every other one is `before`.
abbrev pub rebalanced : User → BalanceDomain → AssetId → ℕ → ℕ → User → BalanceDomain → AssetId → ℕ
rebalanced user domain asset_id x before v d k =
    if user == v
    then (if domain_beq domain d then (if asset_id == k then x else before) else before)
    else before

pub rebalanced_self :
    (user : User) (domain : BalanceDomain) (asset_id : AssetId) (x before : ℕ)
    → rebalanced user domain asset_id x before user domain asset_id ≡ x
rebalanced_self user domain asset_id x before = ground arith

pub rebalanced_twice :
    (user : User) (domain : BalanceDomain) (asset_id : AssetId) (x y before : ℕ) (v : User)
    (d : BalanceDomain) (k : AssetId)
    → rebalanced user domain asset_id x (rebalanced user domain asset_id y before v d k) v d k
      ≡ rebalanced user domain asset_id x before v d k
rebalanced_twice user domain asset_id x y before v d k = ground arith

-- Writing a balance back changes nothing.
pub rebalanced_same :
    (user : User) (domain : BalanceDomain) (asset_id : AssetId) (accounts : Map User AccountState)
    (v : User) (d : BalanceDomain) (k : AssetId)
    → rebalanced user domain asset_id
        (held accounts user domain asset_id)
        (held accounts v d k)
        v
        d
        k
      ≡ held accounts v d k
rebalanced_same user domain asset_id accounts v d k =
    ground (arith, ==_iff user v, domain_beq_iff domain d, ==_iff asset_id k)

module _ (user : User) (domain : BalanceDomain) (asset_id : AssetId) (x : ℕ)
    (accounts : Map User AccountState) where
  pub held-set_balance :
      (v : User) (d : BalanceDomain) (k : AssetId)
      → held
          (insert user (set_balance (account_or_new accounts user) domain asset_id x) accounts)
          v
          d
          k
        ≡ rebalanced user domain asset_id x (held accounts v d k) v d k
  held-set_balance v d k =
      let written : AccountState = set_balance (account_or_new accounts user) domain asset_id x in
      ground (
        arith,
        ==_iff user v,
        lookup-insert user v written accounts,
        get_balance-set_balance (account_or_new accounts user) domain d asset_id k x,
      )
