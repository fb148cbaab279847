-- ===== src/Migration/Moved.antt =====
-- What a migration moves between two domains (src/clearing/src/api/migration/api.rs).
use icdc_core.Prelude.{
  ℕ, ◌-◌, ◌≡◌, refl, ◌∙◌, false, Option, none, some, [], ◌∷◌, arith, ◌==◌, ==_iff, if◌then◌else◌,
  inl, inr, Option-cases,
}
use icdc_core.Prelude.Words.{add_u128, add_i128, sub_i128}
use icdc_core.Prelude.Int.{ℤ}
use icdc_core.Prelude.Maps.{Map, nat_key, lookup, lookup-absent}
use icdc_core.Shared.Domain.{BalanceDomain, domain_key, domain_beq, domain_beq_iff}
use icdc_core.Shared.Collateral.{AssetId}
use icdc_core.Margin.{
  AccountState, get_balance, set_balance, unwrap_or, get_cash_balance_usd, set_cash_balance_usd,
  get_reserved_margin_usd, set_reserved_margin_usd,
}
use icdc_core.Margin.Accounts.{
  get_balance-set_balance, get_cash-set_cash, get_reserved-set_reserved,
}
use icdc_core.Settlement.Prepare.Cleared.{UniqueKeys}
use icdc_core.Migration.{move_balance, move_balances, move_cash, move_margin}

-- A balance with what was moved to it.
abbrev pub add_moved : Option ℕ → ℕ → ℕ
add_moved none balance = balance
add_moved (some amount) balance = add_u128 balance amount

module _ (from to : BalanceDomain) (other : domain_beq from to ≡ false) where
  get_balance-move_balance :
      (j k : AssetId) (amount : ℕ) (a : AccountState) (d : BalanceDomain)
      → get_balance (move_balance from to j amount a) d k ≡ (
          if j == k
          then (if domain_beq from d
              then get_balance a from k - amount
              else if domain_beq to d
              then add_u128 (get_balance a to k) amount
              else get_balance a d k)
          else get_balance a d k)
  unfolding move_balance
  get_balance-move_balance j k amount a d =
      let taken : AccountState = set_balance a from j (get_balance a from j - amount) in
      ground (
        arith,
        ==_iff j k,
        domain_beq_iff from d,
        domain_beq_iff to d,
        domain_beq_iff from to,
        get_balance-set_balance taken to d j k (add_u128 (get_balance taken to j) amount),
        get_balance-set_balance a from d j k (get_balance a from j - amount),
        get_balance-set_balance a from to j j (get_balance a from j - amount),
      )

  pub get_balance-move_balances :
      (moved : Map AssetId ℕ) (k : AssetId) (a : AccountState) (d : BalanceDomain)
      → UniqueKeys moved
      → get_balance (move_balances from to moved a) d k ≡ (
          if domain_beq from d
          then get_balance a from k - unwrap_or (lookup k moved) 0
          else if domain_beq to d
          then add_moved (lookup k moved) (get_balance a to k)
          else get_balance a d k)
  unfolding move_balances
  get_balance-move_balances [] k a d unique =
      ground (arith, domain_beq_iff from d, domain_beq_iff to d)
  get_balance-move_balances ((j, amount) ∷ rest) k a d (first, unique) = ground (
    arith,
    ==_iff j k,
    lookup-absent j rest first,
    domain_beq_iff from d,
    domain_beq_iff to d,
    domain_beq_iff from to,
    get_balance-move_balances rest k (move_balance from to j amount a) d unique,
    get_balance-move_balance j k amount a d,
    get_balance-move_balance j k amount a from,
    get_balance-move_balance j k amount a to,
  )

  set_balance_frame :
      (a : AccountState) (d : BalanceDomain) (k : AssetId) (x : ℕ)
      → ((set_balance a d k x).cash_balances_usd ≡ a.cash_balances_usd)
        × ((set_balance a d k x).reserved_margins_usd ≡ a.reserved_margins_usd)
  unfolding set_balance
  set_balance_frame a d k x = elim (Option-cases (lookup d a.balances)) [
    | inl absent ↦ ground (arith, absent)
    | inr (inner, held) ↦ ground (arith, held)
  ]

  pub move_balances_frame :
      (moved : Map AssetId ℕ) (a : AccountState)
      → ((move_balances from to moved a).cash_balances_usd ≡ a.cash_balances_usd)
        × ((move_balances from to moved a).reserved_margins_usd ≡ a.reserved_margins_usd)
  unfolding move_balances move_balance
  move_balances_frame [] a = (refl, refl)
  move_balances_frame ((j, amount) ∷ rest) a =
      let taken : AccountState = set_balance a from j (get_balance a from j - amount) in
      let first = set_balance_frame a from j (get_balance a from j - amount) in
      let second = set_balance_frame taken to j (add_u128 (get_balance taken to j) amount) in
      let later = move_balances_frame rest (move_balance from to j amount a) in
      (later.0 ∙ second.0 ∙ first.0, later.1 ∙ second.1 ∙ first.1)

  pub get_cash-move_cash :
      (amount : ℤ) (a : AccountState) (d : BalanceDomain)
      → get_cash_balance_usd (move_cash from to amount a) d ≡ (
          if domain_beq from d
          then sub_i128 (get_cash_balance_usd a from) amount
          else if domain_beq to d
          then add_i128 (get_cash_balance_usd a to) amount
          else get_cash_balance_usd a d)
  unfolding move_cash
  get_cash-move_cash amount a d =
      let less = sub_i128 (get_cash_balance_usd a from) amount in
      let taken : AccountState = set_cash_balance_usd a from less in
      ground (
        arith,
        domain_beq_iff from d,
        domain_beq_iff to d,
        domain_beq_iff from to,
        get_cash-set_cash taken to d (add_i128 (get_cash_balance_usd taken to) amount),
        get_cash-set_cash a from d less,
        get_cash-set_cash a from to less,
      )

  pub get_reserved-move_margin :
      (amount : ℕ) (a : AccountState) (d : BalanceDomain)
      → get_reserved_margin_usd (move_margin from to amount a) d ≡ (
          if domain_beq from d
          then get_reserved_margin_usd a from - amount
          else if domain_beq to d
          then add_u128 (get_reserved_margin_usd a to) amount
          else get_reserved_margin_usd a d)
  unfolding move_margin
  get_reserved-move_margin amount a d =
      let less = get_reserved_margin_usd a from - amount in
      let taken : AccountState = set_reserved_margin_usd a from less in
      ground (
        arith,
        domain_beq_iff from d,
        domain_beq_iff to d,
        domain_beq_iff from to,
        get_reserved-set_reserved taken to d (add_u128 (get_reserved_margin_usd taken to) amount),
        get_reserved-set_reserved a from d less,
        get_reserved-set_reserved a from to less,
      )
