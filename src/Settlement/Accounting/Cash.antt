-- ===== src/Settlement/Accounting/Cash.antt =====
-- What the accounting of a settlement does to one account
-- (`apply_settlement_accounting_logic` of src/clearing/src/api/settlement/api.rs).
use icdc_core.Prelude.{
  ℕ, ◌+◌, ◌-◌, ◌≤◌, length, min, take, ap, ◌≡◌, refl, sym, ==_iff, ◌∙◌, true, false, some, List, [],
  ◌∷◌, arith, ◌==◌, if◌then◌else◌, Bool-cases, Option-cases, inl, inr,
}
use icdc_core.Prelude.Int.{ℤ}
use icdc_core.Prelude.Words.{add_i128}
use icdc_core.Prelude.Maps.{Map, nat_key, lookup, lookup-insert, beq_refl}
use icdc_core.Shared.Domain.{BalanceDomain, domain_key}
use icdc_core.Margin.{User, AccountState, get_cash_balance_usd, get_reserved_margin_usd}
use icdc_core.Margin.Accounts.{
  get_cash-set_cash, get_cash-set_reserved, get_reserved-set_reserved, get_reserved-set_cash,
}
use icdc_core.Clearing.Plans.{SettlementPosition, SettlementPlan}
use icdc_core.Clearing.State.{Clearing, Env}
use icdc_core.Settlement.Accounting.{settle_account, apply_settlement_accounting_logic}
use icdc_core.Settlement.Accounting.Chunks.{
  settle_one, settle_all, remaining, length-drop, apply_settlement_accounting_logic-Chunk,
}

-- The cash of a user after its positions among the list, in their order.
unfoldable pub cash_after : User → List SettlementPosition → ℤ → ℤ
cash_after user [] cash = cash
cash_after user (p ∷ ps) cash =
    let next = if p.user == user then add_i128 cash p.cashflow_usd else cash in
    cash_after user ps next

-- The reserved margin of a user after its positions are released.
unfoldable pub reserved_after : User → List SettlementPosition → ℕ → ℕ
reserved_after user [] reserved = reserved
reserved_after user (p ∷ ps) reserved =
    let next = if p.user == user then reserved - p.reserved_margin_usd else reserved in
    reserved_after user ps next

settle_account-domain :
    (domain : BalanceDomain) (p : SettlementPosition) (a : AccountState)
    → (get_cash_balance_usd (settle_account domain p a) domain
        ≡ add_i128 (get_cash_balance_usd a domain) p.cashflow_usd)
      × (get_reserved_margin_usd (settle_account domain p a) domain
          ≡ get_reserved_margin_usd a domain - p.reserved_margin_usd)
unfolding settle_account
settle_account-domain domain p a = (
  simp (get_cash-set_reserved, get_cash-set_cash, beq_refl domain),
  simp (get_reserved-set_reserved, get_reserved-set_cash, beq_refl domain),
)

settle_one_other :
    (domain : BalanceDomain) (p : SettlementPosition) (user : User)
    (accounts : Map User AccountState)
    → (p.user == user) ≡ false
    → lookup user (settle_one domain p accounts) ≡ lookup user accounts
unfolding settle_one
settle_one_other domain p user accounts other = elim (Option-cases (lookup p.user accounts)) [
  | inl absent ↦ ground (arith, absent)
  | inr (a, held) ↦
      ground (arith, held, lookup-insert p.user user (settle_account domain p a) accounts)
]

settle_one_self :
    (domain : BalanceDomain) (p : SettlementPosition) (user : User)
    (accounts : Map User AccountState) {a : AccountState}
    → (p.user == user) ≡ true
    → lookup user accounts ≡ some a
    → lookup user (settle_one domain p accounts) ≡ some (settle_account domain p a)
unfolding settle_one
settle_one_self domain p user accounts {a} same held =
    let found : lookup p.user accounts ≡ some a = rw ((==_iff p.user user).0 same) held in
    ground (arith, found, lookup-insert p.user user (settle_account domain p a) accounts)

-- One pass keeps a user's account, books its cashflows in order and releases its margins.
settle_all-user :
    (domain : BalanceDomain) (user : User) (ps : List SettlementPosition)
    (accounts : Map User AccountState) {a : AccountState}
    → lookup user accounts ≡ some a
    → (b : AccountState) × (lookup user (settle_all domain ps accounts) ≡ some b)
      × (get_cash_balance_usd b domain ≡ cash_after user ps (get_cash_balance_usd a domain))
      × (get_reserved_margin_usd b domain
          ≡ reserved_after user ps (get_reserved_margin_usd a domain))
unfolding settle_all cash_after reserved_after
settle_all-user domain user [] accounts {a} held = (a, held, refl, refl)
settle_all-user domain user (p ∷ ps) accounts {a} held = elim (Bool-cases (p.user == user)) [
  | inl same ↦
      let held' = settle_one_self domain p user accounts same held in
      let (b, found, cash, reserved) =
        settle_all-user domain user ps (settle_one domain p accounts) held' in
      let paid = settle_account-domain domain p a in
      (b, found, rw (same, sym paid.0) cash, rw (same, sym paid.1) reserved)
  | inr other ↦
      let held' = settle_one_other domain p user accounts other ∙ held in
      let (b, found, cash, reserved) =
        settle_all-user domain user ps (settle_one domain p accounts) held' in
      (b, found, rw other cash, rw other reserved)
]

-- One call of the accounting settles the next positions of the plan, at least one where one is left,
-- and moves the cursor past them. A user that has an account before the call has one after it. In
-- the plan's domain its cash has grown by the cashflows of its positions among those settled, added
-- in order as `i128`s, and its reserved margin has been lowered by their margins, one by one and
-- down to zero at most.
pub apply_settlement_accounting_logic-user :
    (env : Env) (counter : ℕ → ℕ) (plan : SettlementPlan) (st : Clearing) (user : User)
    {a : AccountState}
    → lookup user st.accounts ≡ some a
    → let (newly_applied, (plan', st')) = apply_settlement_accounting_logic env counter plan st in
      (n : ℕ) × (n ≤ length (remaining plan))
      × (min 1 (length (remaining plan)) ≤ n)
      × (plan'.accounting_cursor ≡ plan.accounting_cursor + n)
      × (b : AccountState) × (lookup user st'.accounts ≡ some b)
      × (get_cash_balance_usd b plan.balance_domain
          ≡ cash_after user (take n (remaining plan)) (get_cash_balance_usd a plan.balance_domain))
      × (get_reserved_margin_usd b plan.balance_domain
          ≡ reserved_after user
              (take n (remaining plan))
              (get_reserved_margin_usd a plan.balance_domain))
apply_settlement_accounting_logic-user env counter plan st user there =
    let chunk = apply_settlement_accounting_logic-Chunk env counter plan st in
    let some_left : length (remaining plan) ≡ length plan.positions - plan.accounting_cursor =
      length-drop plan.accounting_cursor plan.positions in
    let moves : min 1 (length (remaining plan)) ≤ chunk.settled =
      ground (arith, some_left, chunk.advances) in
    let (b, found, cash, reserved) =
      settle_all-user plan.balance_domain user (take chunk.settled (remaining plan)) st.accounts
        there in
    (
      chunk.settled,
      chunk.within,
      moves,
      chunk.cursor,
      b,
      ap (lookup user) chunk.accounts ∙ found,
      cash,
      reserved,
    )
