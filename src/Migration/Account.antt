-- ===== src/Migration/Account.antt =====
-- What a migration makes of one account (src/clearing/src/api/migration/api.rs).
use icdc_core.Prelude.{ℕ, ◌-◌, ◌≡◌, refl, ◌∙◌, ap, false, [], arith, if◌then◌else◌}
use icdc_core.Prelude.Int.{ℤ, pos, ◌-ℤ◌, int_bounds}
use icdc_core.Prelude.Words.{add_u128, add_i128, sub_i128, wrap_i128, cast_signed, cast_unsigned}
use icdc_core.Prelude.Maps.{Map, nat_key, lookup}
use icdc_core.Shared.Domain.{BalanceDomain, domain_key, domain_beq}
use icdc_core.Shared.Collateral.{AssetId}
use icdc_core.Margin.{
  AccountState, get_balance, unwrap_or, get_cash_balance_usd, get_reserved_margin_usd,
  set_reserved_margin_usd,
}
use icdc_core.Margin.Accounts.{get_balance-set_cash, get_reserved-set_cash, get_cash-set_reserved}
use icdc_core.Clearing.Plans.{user_key, MigrationPlan}
use icdc_core.Settlement.Prepare.Cleared.{UniqueKeys}
use icdc_core.Migration.{move_balances, move_cash, move_margin, moved_account}
use icdc_core.Migration.Moved.{
  add_moved, get_balance-move_balances, move_balances_frame, get_cash-move_cash,
  get_reserved-move_margin,
}

set_reserved_balances :
    (a : AccountState) (d : BalanceDomain) (x : ℕ)
    → (set_reserved_margin_usd a d x).balances ≡ a.balances
unfolding set_reserved_margin_usd
set_reserved_balances a d x = ground arith

-- Everything that stands in the first domain, in the second one as well.
module _ (from to : BalanceDomain) (other : domain_beq from to ≡ false) where
  rest_balances :
      (margin : ℕ) (cash : ℤ) (a : AccountState)
      → (move_margin from to margin (move_cash from to cash a)).balances ≡ a.balances
  unfolding move_margin move_cash
  rest_balances margin cash a =
      set_reserved_balances _ to _
      ∙ set_reserved_balances _ from _
      ∙ get_balance-set_cash _ to to _
      ∙ get_balance-set_cash a from from _

  cash-move_margin :
      (margin : ℕ) (a : AccountState) (d : BalanceDomain)
      → get_cash_balance_usd (move_margin from to margin a) d ≡ get_cash_balance_usd a d
  unfolding move_margin
  cash-move_margin margin a d = get_cash-set_reserved _ to d _ ∙ get_cash-set_reserved a from d _

  reserved-move_cash :
      (cash : ℤ) (a : AccountState) (d : BalanceDomain)
      → get_reserved_margin_usd (move_cash from to cash a) d ≡ get_reserved_margin_usd a d
  unfolding move_cash
  reserved-move_cash cash a d = get_reserved-set_cash _ to d _ ∙ get_reserved-set_cash a from d _

minus_self : (n : ℕ) → n - n ≡ 0
minus_self n = omega arith

sub_i128_self : (z : ℤ) → sub_i128 z z ≡ pos 0
unfolding sub_i128 wrap_i128 cast_signed cast_unsigned
sub_i128_self z = let zero : z -ℤ z ≡ pos 0 = omega int_bounds in rw zero refl

-- The balances of a domain.
abbrev pub inner_of : BalanceDomain → AccountState → Map AssetId ℕ
inner_of domain a = unwrap_or (lookup domain a.balances) []

-- Everything of the first domain stands in the second one, on top of what was there.
abbrev pub IsMoved : BalanceDomain → BalanceDomain → AccountState → AccountState → Type 0
IsMoved from to a a' =
    ((d : BalanceDomain) (k : AssetId)
      → get_balance a' d k ≡ (
          if domain_beq from d
          then 0
          else if domain_beq to d
          then add_moved (lookup k (inner_of from a)) (get_balance a to k)
          else get_balance a d k))
    × ((d : BalanceDomain)
        → get_cash_balance_usd a' d ≡ (
            if domain_beq from d
            then pos 0
            else if domain_beq to d
            then add_i128 (get_cash_balance_usd a to) (get_cash_balance_usd a from)
            else get_cash_balance_usd a d))
    × ((d : BalanceDomain)
        → get_reserved_margin_usd a' d ≡ (
            if domain_beq from d
            then 0
            else if domain_beq to d
            then add_u128 (get_reserved_margin_usd a to) (get_reserved_margin_usd a from)
            else get_reserved_margin_usd a d))

-- A plan that has taken the account's state in the first domain down.
abbrev pub IsSnapshot : BalanceDomain → AccountState → MigrationPlan → Type 0
IsSnapshot from a plan =
    (plan.balances ≡ inner_of from a)
    × (plan.cash_balance_usd ≡ get_cash_balance_usd a from)
    × (plan.reserved_margin_usd ≡ get_reserved_margin_usd a from)

module _ (from to : BalanceDomain) (other : domain_beq from to ≡ false) where
  cash-move_balances :
      (moved : Map AssetId ℕ) (a : AccountState) (d : BalanceDomain)
      → get_cash_balance_usd (move_balances from to moved a) d ≡ get_cash_balance_usd a d
  unfolding get_cash_balance_usd
  cash-move_balances moved a d =
      ap (λ (m : Map BalanceDomain ℤ). unwrap_or (lookup d m) (pos 0))
        (move_balances_frame from to other moved a).0

  reserved-move_balances :
      (moved : Map AssetId ℕ) (a : AccountState) (d : BalanceDomain)
      → get_reserved_margin_usd (move_balances from to moved a) d ≡ get_reserved_margin_usd a d
  unfolding get_reserved_margin_usd
  reserved-move_balances moved a d =
      ap (λ (m : Map BalanceDomain ℕ). unwrap_or (lookup d m) 0)
        (move_balances_frame from to other moved a).1

  balances-rest :
      (margin : ℕ) (cash : ℤ) (a : AccountState) (d : BalanceDomain) (k : AssetId)
      → get_balance (move_margin from to margin (move_cash from to cash a)) d k ≡ get_balance a d k
  unfolding get_balance
  balances-rest margin cash a d k =
      ap
        (λ (m : Map BalanceDomain (Map AssetId ℕ)).
          unwrap_or (lookup k (unwrap_or (lookup d m) [])) 0)
        (rest_balances from to other margin cash a)

  taken_balance :
      (a : AccountState) (k : AssetId)
      → get_balance a from k - unwrap_or (lookup k (inner_of from a)) 0 ≡ 0
  unfolding get_balance
  taken_balance a k = minus_self (get_balance a from k)

  pub moved_account-IsMoved :
      (plan : MigrationPlan) (a : AccountState)
      → IsSnapshot from a plan
      → UniqueKeys (inner_of from a)
      → IsMoved from to a (moved_account from to plan a)
  unfolding moved_account
  moved_account-IsMoved plan a (balances, cash, margin) unique =
      let b = move_balances from to plan.balances a in
      let c = move_cash from to plan.cash_balance_usd b in
      (
        λ d k.
            balances-rest plan.reserved_margin_usd plan.cash_balance_usd b d k
            ∙ rw balances (
                get_balance-move_balances from to other (inner_of from a) k a d unique
                ∙ rw (taken_balance a k) refl),
        λ d.
            cash-move_margin from to other plan.reserved_margin_usd c d
            ∙ get_cash-move_cash from to other plan.cash_balance_usd b d
            ∙ rw
                (
                  cash,
                  cash-move_balances plan.balances a from,
                  cash-move_balances plan.balances a to,
                  cash-move_balances plan.balances a d,
                  sub_i128_self (get_cash_balance_usd a from),
                )
                refl,
        λ d.
            get_reserved-move_margin from to other plan.reserved_margin_usd c d
            ∙ rw
                (
                  margin,
                  reserved-move_cash from to other plan.cash_balance_usd b from,
                  reserved-move_cash from to other plan.cash_balance_usd b to,
                  reserved-move_cash from to other plan.cash_balance_usd b d,
                  reserved-move_balances plan.balances a from,
                  reserved-move_balances plan.balances a to,
                  reserved-move_balances plan.balances a d,
                  minus_self (get_reserved_margin_usd a from),
                )
                refl,
      )
