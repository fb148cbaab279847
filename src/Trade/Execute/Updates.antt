-- ===== src/Trade/Execute/Updates.antt =====
-- Reading positions and accounts back after `update_position` and `update_party`, the mutations of
-- `execute_trade_impl` (src/clearing/src/trade/service.rs).
use icdc_core.Prelude.{ℕ, ◌≡◌, ◌≢◌, refl}
use icdc_core.Prelude.Int.{ℤ}
use icdc_core.Prelude.Words.{sub_i128}
use icdc_core.Prelude.Maps.{Map, nat_key, lookup, lookup-insert, beq_refl, beq_of_ne}
use icdc_core.Shared.Domain.{BalanceDomain, domain_key}
use icdc_core.Margin.{
  User, PositionKey, position_key, PositionsMap, AccountState, get_cash_balance_usd,
  get_reserved_margin_usd,
}
use icdc_core.Margin.Accounts.{
  get_cash-set_cash, get_reserved-set_reserved, get_cash-set_reserved, get_reserved-set_cash,
}
use icdc_core.Trade.Execute.{
  position_or_new, account_or_new, change_reserved, update_party, update_position,
}

-- What an account holds and has reserved in a domain; a missing account reads as a new one.
abbrev pub cash_of : Map User AccountState → User → BalanceDomain → ℤ
cash_of accounts user domain = get_cash_balance_usd (account_or_new accounts user) domain

abbrev pub reserved_of : Map User AccountState → User → BalanceDomain → ℕ
reserved_of accounts user domain = get_reserved_margin_usd (account_or_new accounts user) domain

module _ (k : PositionKey) (change : ℤ → ℤ) (margin : ℕ) (ps : PositionsMap) where
  pub update_position_self :
      ((position_or_new (update_position k change margin ps) k).net_qty
        ≡ change (position_or_new ps k).net_qty)
      × ((position_or_new (update_position k change margin ps) k).reserved_margin_usd ≡ margin)
  unfolding update_position
  update_position_self = rw (lookup-insert k k _ ps, beq_refl k) (refl, refl)

  pub update_position_ne :
      (j : PositionKey) → k ≢ j → lookup j (update_position k change margin ps) ≡ lookup j ps
  unfolding update_position
  update_position_ne j ne = rw (lookup-insert k j _ ps, beq_of_ne k j ne)

module _ (domain : BalanceDomain) (user : User) (cash reserved : ℤ)
    (accounts : Map User AccountState) where
  pub update_party_cash :
      cash_of (update_party domain user cash reserved accounts) user domain
      ≡ sub_i128 (cash_of accounts user domain) cash
  unfolding update_party
  update_party_cash =
      rw (lookup-insert user user _ accounts, beq_refl user)
        (simp (get_cash-set_reserved, get_cash-set_cash, beq_refl domain))

  pub update_party_reserved :
      reserved_of (update_party domain user cash reserved accounts) user domain
      ≡ change_reserved (reserved_of accounts user domain) reserved
  unfolding update_party
  update_party_reserved =
      rw (lookup-insert user user _ accounts, beq_refl user)
        (simp (get_reserved-set_reserved, get_reserved-set_cash, beq_refl domain))

  -- The user's other domains are left alone.
  pub update_party_domains :
      (other : BalanceDomain)
      → domain ≢ other
      → (cash_of (update_party domain user cash reserved accounts) user other
          ≡ cash_of accounts user other)
        × (reserved_of (update_party domain user cash reserved accounts) user other
            ≡ reserved_of accounts user other)
  unfolding update_party
  update_party_domains other ne =
      rw (lookup-insert user user _ accounts, beq_refl user)
        (
          simp (get_cash-set_reserved, get_cash-set_cash, beq_of_ne domain other ne),
          simp (get_reserved-set_reserved, get_reserved-set_cash, beq_of_ne domain other ne),
        )

  pub update_party_ne :
      (v : User)
      → user ≢ v
      → lookup v (update_party domain user cash reserved accounts) ≡ lookup v accounts
  unfolding update_party
  update_party_ne v ne = rw (lookup-insert user v _ accounts, beq_of_ne user v ne)
