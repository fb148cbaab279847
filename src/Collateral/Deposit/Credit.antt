-- ===== src/Collateral/Deposit/Credit.antt =====
-- What a deposit credits, and that a finalised one credits nothing more
-- (src/clearing/src/api/collateral/api.rs, src/clearing/src/types/plans.rs).
use icdc_core.Prelude.{ℕ, ◌<◌, ◌≡◌, refl, ◌∙◌, sym, ap, some, lt→ltb}
use icdc_core.Prelude.Words.{u128_mod, add_u128}
use icdc_core.Prelude.Maps.{Map, nat_key, lookup, lookup-insert, beq_refl}
use icdc_core.Prelude.Results.{ok}
use icdc_core.Shared.Domain.{BalanceDomain}
use icdc_core.Shared.Collateral.{AssetId, CollateralAssetConfig}
use icdc_core.Margin.{User, AccountState}
use icdc_core.Clearing.Plans.{
  user_key, DepositPlan, executing, finalised, deposit_get_or_create, icrc_block_index,
}
use icdc_core.Clearing.State.{Clearing, Env, done, done-injective}
use icdc_core.Collateral.{settled, to_u128, or_settlement, replied}
use icdc_core.Collateral.Balances.{held, rebalanced, rebalanced_self, held-set_balance}
use icdc_core.Collateral.Deposit.{
  PendingDeposit, plan_key, credit, finish_deposit, resume_deposit, continue_deposit, open_deposit,
  deposit_gates, begin_deposit, DepositCollateralParams, put_deposit,
}

-- The state in which a settled deposit leaves the canister.
abbrev pub credited : PendingDeposit → ℕ → Clearing → Clearing
credited d block st =
    let plan = record d.plan { receipt = some (icrc_block_index block) } in
    let sent = put_deposit (plan_key d) plan st in
    put_deposit (plan_key d) (record plan { status = finalised })
      (record sent {
        accounts =
            credit d.user (or_settlement d.params.domain) d.params.asset_id d.params.amount
              st.accounts;
      })

pub resume_deposit-credited :
    (d : PendingDeposit) (block : ℕ) (st : Clearing)
    → d.plan.status ≡ executing
    → d.params.amount < u128_mod
    → resume_deposit d (settled block) st ≡ done tt (credited d block st)
unfolding resume_deposit finish_deposit to_u128
resume_deposit-credited d block st running fits =
    rw (running, lt→ltb d.params.amount u128_mod fits) refl

pub held-credited :
    (d : PendingDeposit) (block : ℕ) (st : Clearing) (v : User) (e : BalanceDomain) (k : AssetId)
    → held (credited d block st).accounts v e k
      ≡ rebalanced d.user
          (or_settlement d.params.domain)
          d.params.asset_id
          (add_u128
            (held st.accounts d.user (or_settlement d.params.domain) d.params.asset_id)
            d.params.amount)
          (held st.accounts v e k)
          v
          e
          k
unfolding credit
held-credited d block st v e k =
    held-set_balance d.user (or_settlement d.params.domain) d.params.asset_id _ st.accounts v e k

-- The balance that a deposit is for.
abbrev pub target_of : PendingDeposit → Map User AccountState → ℕ
target_of d accounts = held accounts d.user (or_settlement d.params.domain) d.params.asset_id

pub held-credited_self :
    (d : PendingDeposit) (block : ℕ) (st : Clearing)
    → target_of d (credited d block st).accounts
      ≡ add_u128 (target_of d st.accounts) d.params.amount
held-credited_self d block st =
    held-credited d block st d.user (or_settlement d.params.domain) d.params.asset_id
    ∙ rebalanced_self d.user (or_settlement d.params.domain) d.params.asset_id _ _

plan-credited :
    (d : PendingDeposit) (block : ℕ) (st : Clearing)
    → lookup (plan_key d) (credited d block st).deposit_plans
      ≡ some (record d.plan { status = finalised; receipt = some (icrc_block_index block) })
plan-credited d block st = rw (lookup-insert (plan_key d) (plan_key d), beq_refl (plan_key d)) refl

open_deposit-finalised :
    (env : Env) (user : User) (config : CollateralAssetConfig) (p : DepositCollateralParams)
    (st : Clearing) (plan : DepositPlan)
    → lookup (user, p.deposit_id) st.deposit_plans ≡ some plan
    → plan.status ≡ finalised
    → open_deposit env user config p st ≡ replied (done tt st)
unfolding open_deposit deposit_get_or_create continue_deposit
open_deposit-finalised env user config p st plan there final = rw (there, final) refl

-- When the ledger settles a deposit of at most 128 bits, the call returns, whatever happened
-- during its `await`: the user's balance of the asset in the domain grows by the amount, as a
-- `u128`, no other balance of any user changes, and only the accounts and the deposit plans are
-- written.
pub resume_deposit-credits :
    (d : PendingDeposit) (block : ℕ) (st : Clearing)
    → d.plan.status ≡ executing
    → d.params.amount < u128_mod
    → (st' : Clearing) × (resume_deposit d (settled block) st ≡ done tt st')
      × (st' ≡ record st { accounts = st'.accounts; deposit_plans = st'.deposit_plans })
      × ((v : User) (e : BalanceDomain) (k : AssetId)
          → held st'.accounts v e k
            ≡ rebalanced d.user
                (or_settlement d.params.domain)
                d.params.asset_id
                (add_u128
                  (held st.accounts d.user (or_settlement d.params.domain) d.params.asset_id)
                  d.params.amount)
                (held st.accounts v e k)
                v
                e
                k)
resume_deposit-credits d block st running fits = (
  credited d block st,
  resume_deposit-credited d block st running fits,
  refl,
  held-credited d block st,
)

-- After a call whose transfer settled has returned, a later call of the user with the same
-- deposit id, with any amount, asset or domain, that passes the checks while the plan is still
-- stored, returns and changes nothing.
pub begin_deposit-once :
    (d : PendingDeposit) (block : ℕ) (env : Env) (p : DepositCollateralParams) (st : Clearing)
    {st' later : Clearing} {config : CollateralAssetConfig}
    → d.plan.status ≡ executing
    → d.params.amount < u128_mod
    → resume_deposit d (settled block) st ≡ done tt st'
    → p.deposit_id ≡ d.params.deposit_id
    → lookup (plan_key d) later.deposit_plans ≡ lookup (plan_key d) st'.deposit_plans
    → deposit_gates later d.user p ≡ ok config
    → begin_deposit env d.user p later ≡ replied (done tt later)
unfolding begin_deposit
begin_deposit-once d block env p st {st'} {later} {config} running fits ended same kept passed =
    let final : st' ≡ credited d block st =
      (done-injective (sym ended ∙ resume_deposit-credited d block st running fits)).1 in
    let stored : lookup (plan_key d) later.deposit_plans
        ≡ some (record d.plan { status = finalised; receipt = some (icrc_block_index block) }) =
      kept
      ∙ ap (λ (s : Clearing). lookup (plan_key d) s.deposit_plans) final
      ∙ plan-credited d block st in
    rw passed (
      open_deposit-finalised env d.user config p later
        (record d.plan { status = finalised; receipt = some (icrc_block_index block) })
        (rw same stored) refl)
