-- ===== src/Margin/Accounts.antt =====
-- Reading an account back after a write (src/clearing/src/types/margin.rs): the setters delete
-- the entry of a zero, and no reader can tell.
use icdc_core.Prelude.{ℕ, ◌≡◌, [], ◌∷◌, arith, ◌==◌, if◌then◌else◌, Option-cases, inl, inr}
use icdc_core.Prelude.Int.{ℤ}
use icdc_core.Prelude.Maps.{Map, lookup, insert, remove, lookup-insert, lookup-remove, nat_key}
use icdc_core.Shared.Domain.{BalanceDomain, domain_key, domain_beq, domain_beq_iff}
use icdc_core.Shared.Collateral.{AssetId}
use icdc_core.Margin.{
  AccountState, get_balance, set_balance, drop_balance, get_cash_balance_usd, set_cash_balance_usd,
  get_reserved_margin_usd, set_reserved_margin_usd, unwrap_or,
}

module _ (a : AccountState) (d e : BalanceDomain) where
  pub get_cash-set_cash :
      (x : ℤ)
      → get_cash_balance_usd (set_cash_balance_usd a d x) e
        ≡ (if domain_beq d e then x else get_cash_balance_usd a e)
  unfolding get_cash_balance_usd set_cash_balance_usd
  get_cash-set_cash x =
      ground (arith, lookup-insert d e x a.cash_balances_usd, lookup-remove d e a.cash_balances_usd)

  pub get_reserved-set_reserved :
      (x : ℕ)
      → get_reserved_margin_usd (set_reserved_margin_usd a d x) e
        ≡ (if domain_beq d e then x else get_reserved_margin_usd a e)
  unfolding get_reserved_margin_usd set_reserved_margin_usd
  get_reserved-set_reserved x =
      ground (
        arith,
        lookup-insert d e x a.reserved_margins_usd,
        lookup-remove d e a.reserved_margins_usd,
      )

  pub get_balance-set_cash : (x : ℤ) → (set_cash_balance_usd a d x).balances ≡ a.balances
  unfolding set_cash_balance_usd
  get_balance-set_cash x = ground arith

  pub get_reserved-set_cash :
      (x : ℤ) → get_reserved_margin_usd (set_cash_balance_usd a d x) e ≡ get_reserved_margin_usd a e
  unfolding get_reserved_margin_usd set_cash_balance_usd
  get_reserved-set_cash x = ground arith

  pub get_cash-set_reserved :
      (x : ℕ) → get_cash_balance_usd (set_reserved_margin_usd a d x) e ≡ get_cash_balance_usd a e
  unfolding get_cash_balance_usd set_reserved_margin_usd
  get_cash-set_reserved x = ground arith

lookup-drop_balance :
    (m : Map BalanceDomain (Map AssetId ℕ)) (d e : BalanceDomain) (inner : Map AssetId ℕ)
    → unwrap_or (lookup e (drop_balance m d inner)) []
      ≡ (if domain_beq d e then inner else unwrap_or (lookup e m) [])
unfolding drop_balance
lookup-drop_balance m d e [] = ground (arith, lookup-remove d e m)
lookup-drop_balance m d e (x ∷ xs) = ground (arith, lookup-insert d e (x ∷ xs) m)

-- A balance that is written is read back, and no other balance changes.
pub get_balance-set_balance :
    (a : AccountState) (d e : BalanceDomain) (j k : AssetId) (x : ℕ)
    → get_balance (set_balance a d j x) e k
      ≡ (if domain_beq d e then (if j == k then x else get_balance a e k) else get_balance a e k)
unfolding get_balance set_balance
get_balance-set_balance a d e j k x = elim (Option-cases (lookup d a.balances)) [
  | inl absent ↦ ground (
    arith,
    domain_beq_iff d e,
    lookup-insert d e (insert j x []) a.balances,
    lookup-insert j k x [],
  )
  | inr (inner, held) ↦ ground (
    arith,
    domain_beq_iff d e,
    lookup-drop_balance a.balances d e (remove j inner),
    lookup-remove j k inner,
    lookup-insert d e (insert j x inner) a.balances,
    lookup-insert j k x inner,
  )
]
