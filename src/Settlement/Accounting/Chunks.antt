-- ===== src/Settlement/Accounting/Chunks.antt =====
-- The accounting of a settlement in batches (`apply_settlement_accounting_logic` of
-- src/clearing/src/api/settlement/api.rs) against the same accounting in one pass.
use icdc_core.Prelude.{
  ℕ, zero, suc, ◌+◌, ◌-◌, ◌%◌, ◌≤◌, ◌<◌, ◌≡◌, refl, sym, ap, ◌∙◌, Bool, true, not, ◌&&◌, none, some,
  List, [], ◌∷◌, arith, ltb, ◌==◌, if◌then◌else◌, length, take, drop, Bool-cases, inl, inr,
}
use icdc_core.Prelude.Maps.{Map, nat_key, lookup, insert}
use icdc_core.Shared.Domain.{BalanceDomain, domain_key}
use icdc_core.Margin.{User, AccountState}
use icdc_core.Clearing.Plans.{SettlementPosition, SettlementPlan}
use icdc_core.Clearing.State.{Clearing, Env}
use icdc_core.Settlement.Accounting.{
  Progress, Frozen, settle_account, settle_position, settle_loop, frozen, start,
  apply_settlement_accounting_logic,
}

-- One position settled on the accounts.
unfoldable pub settle_one :
    BalanceDomain → SettlementPosition → Map User AccountState → Map User AccountState
settle_one domain p accounts = elim (lookup p.user accounts) [
  | none ↦ accounts
  | some account ↦ insert p.user (settle_account domain p account) accounts
]

-- All the positions settled in one pass, with neither cursor nor batches.
unfoldable pub settle_all :
    BalanceDomain → List SettlementPosition → Map User AccountState → Map User AccountState
settle_all domain [] accounts = accounts
settle_all domain (p ∷ ps) accounts = settle_all domain ps (settle_one domain p accounts)

settle_position-advances :
    (env : Env) (plan : Frozen) (p : SettlementPosition) (g : Progress)
    → ((settle_position env plan p g).accounting_cursor ≡ g.accounting_cursor + 1)
      × ((settle_position env plan p g).accounts ≡ settle_one plan.balance_domain p g.accounts)
unfolding settle_position settle_one
settle_position-advances env plan p g = (ground arith, ground arith)

-- A batch settles the first `done` of the positions that are left, and at least one.
pub record Batch (plan : Frozen) (ps : List SettlementPosition) (g after : Progress) : Type 0 where
  pub settled : ℕ
  pub within : settled ≤ length ps
  pub advances : 0 < length ps → 0 < settled
  pub cursor : after.accounting_cursor ≡ g.accounting_cursor + settled
  pub accounts : after.accounts ≡ settle_all plan.balance_domain (take settled ps) g.accounts

-- The loop settles a prefix of the positions that are left, as one pass over the prefix would, and
-- moves the cursor past it; the prefix is not empty where a position is left.
pub settle_loop-Batch :
    (env : Env) (counter : ℕ → ℕ) (plan : Frozen) (ps : List SettlementPosition) (g : Progress)
    → Batch plan ps g (settle_loop env counter plan ps g)
unfolding settle_loop settle_all
settle_loop-Batch env counter plan [] g = record {
  settled = 0;
  within = omega arith;
  advances = λ h. omega (arith, h);
  cursor = omega arith;
  accounts = refl;
}
settle_loop-Batch env counter plan (p ∷ ps) g =
    let next = settle_position env plan p g in
    let (stepped, settled_one) = settle_position-advances env plan p g in
    let rest = settle_loop-Batch env counter plan ps next in
    let full = (next.accounting_cursor % 100) == 0 && ltb 0 (counter next.accounting_cursor) in
    elim (Bool-cases full) [
      | inl stop ↦ record {
        settled = 1;
        within = omega arith;
        advances = λ _. omega arith;
        cursor = rw stop stepped;
        accounts = rw stop settled_one;
      }
      | inr more ↦ record {
        settled = suc rest.settled;
        within = omega (arith, rest.within);
        advances = λ _. omega arith;
        cursor = rw more (omega (arith, rest.cursor, stepped));
        accounts = rw more (
            rest.accounts ∙ ap (settle_all plan.balance_domain (take rest.settled ps)) settled_one);
      }
    ]

pub settle_all-take :
    (domain : BalanceDomain) (n : ℕ) (ps : List SettlementPosition)
    (accounts : Map User AccountState)
    → settle_all domain (drop n ps) (settle_all domain (take n ps) accounts)
      ≡ settle_all domain ps accounts
unfolding settle_all
settle_all-take domain zero ps accounts = refl
settle_all-take domain (suc n) [] accounts = refl
settle_all-take domain (suc n) (p ∷ ps) accounts =
    settle_all-take domain n ps (settle_one domain p accounts)

drop-nil : (n : ℕ) → ◌≡◌ {A = List SettlementPosition} (drop n []) []
drop-nil zero = refl
drop-nil (suc n) = refl

pub drop-drop : (n m : ℕ) (ps : List SettlementPosition) → drop n (drop m ps) ≡ drop (m + n) ps
drop-drop n zero ps = let e : n ≡ 0 + n = omega arith in ap (λ k. drop k ps) e
drop-drop zero (suc m) [] = sym (drop-nil (suc m + 0))
drop-drop (suc n) (suc m) [] = sym (drop-nil (suc m + suc n))
drop-drop n (suc m) (p ∷ ps) =
    let e : suc (m + n) ≡ suc m + n = omega arith in drop-drop n m ps ∙ ap (λ k. drop k (p ∷ ps)) e

pub length-drop : (n : ℕ) (ps : List SettlementPosition) → length (drop n ps) ≡ length ps - n
length-drop zero ps = omega arith
length-drop (suc n) [] = omega arith
length-drop (suc n) (p ∷ ps) = omega (arith, length-drop n ps)

pub take-length : (n : ℕ) (ps : List SettlementPosition) → n ≡ length ps → take n ps ≡ ps
take-length zero [] h = refl
take-length zero (p ∷ ps) h = absurd (omega (arith, h))
take-length (suc n) [] h = refl
take-length (suc n) (p ∷ ps) h =
    let e : n ≡ length ps = omega (arith, h) in ap (λ t. p ∷ t) (take-length n ps e)

-- The positions that the plan has still to settle.
abbrev pub remaining : SettlementPlan → List SettlementPosition
remaining plan = drop plan.accounting_cursor plan.positions

module _ (env : Env) (counter : ℕ → ℕ) (plan : SettlementPlan) (st : Clearing) where
  abbrev pub result : Bool × (SettlementPlan × Clearing)
  result = apply_settlement_accounting_logic env counter plan st

  -- What one call does.
  pub record Chunk : Type 0 where
    pub settled : ℕ
    pub within : settled ≤ length (remaining plan)
    pub advances : plan.accounting_cursor < length plan.positions → 0 < settled
    pub cursor : result.1.0.accounting_cursor ≡ plan.accounting_cursor + settled
    pub accounts :
        result.1.1.accounts
        ≡ settle_all plan.balance_domain (take settled (remaining plan)) st.accounts
    pub applied :
        result.1.0.accounting_applied ≡ (if result.0 then true else plan.accounting_applied)
    pub completes : result.0 ≡ (
        (plan.accounting_cursor + settled) == length plan.positions && not plan.accounting_applied)

  -- What one call leaves alone.
  pub record Kept : Type 0 where
    pub series_id : result.1.0.series_id ≡ plan.series_id
    pub settlement : result.1.0.settlement ≡ plan.settlement
    pub fee : result.1.0.fee_usd ≡ plan.fee_usd
    pub insurance_fee : result.1.0.insurance_fee_usd ≡ plan.insurance_fee_usd
    pub positions : result.1.0.positions ≡ plan.positions
    pub status : result.1.0.status ≡ plan.status
    pub domain : result.1.0.balance_domain ≡ plan.balance_domain
    pub treasury : result.1.1.treasury ≡ st.treasury
    pub insurance_fund : result.1.1.insurance_fund ≡ st.insurance_fund
    pub config : result.1.1.config ≡ st.config

  pub apply_settlement_accounting_logic-Kept : Kept
  unfolding apply_settlement_accounting_logic
  apply_settlement_accounting_logic-Kept = record {
    series_id = refl;
    settlement = refl;
    fee = refl;
    insurance_fee = refl;
    positions = refl;
    status = refl;
    domain = refl;
    treasury = refl;
    insurance_fund = refl;
    config = refl;
  }

  pub apply_settlement_accounting_logic-Chunk : Chunk
  unfolding apply_settlement_accounting_logic
  apply_settlement_accounting_logic-Chunk =
      let batch = settle_loop-Batch env counter (frozen plan) (remaining plan) (start plan st) in
      record {
        settled = batch.settled;
        within = batch.within;
        advances = λ h.
            batch.advances (omega (arith, length-drop plan.accounting_cursor plan.positions, h));
        cursor = batch.cursor;
        accounts = batch.accounts;
        applied = refl;
        completes = rw batch.cursor refl;
      }
