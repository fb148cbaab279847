-- ===== src/Collateral/Deposit/Retry.antt =====
-- A deposit that is called again before it is finalised (src/clearing/src/api/collateral/api.rs).
use icdc_core.Prelude.{
  ℕ, ◌<◌, ◌≡◌, refl, ◌∙◌, sym, ap, Bool, true, false, Option, none, some, ltb, lt→ltb, ltb→lt,
  Bool-cases, inl, inr,
}
use icdc_core.Prelude.Words.{u128_mod, add_u128}
use icdc_core.Prelude.Maps.{Map, nat_key, lookup, lookup-insert, insert, beq_refl}
use icdc_core.Prelude.Results.{ok}
use icdc_core.Shared.Collateral.{CollateralAssetConfig}
use icdc_core.Margin.{User}
use icdc_core.Clearing.Plans.{
  UserKey, user_key, DepositPlan, executing, deposit_get_or_create, PaymentReceipt,
}
use icdc_core.Clearing.State.{Clearing, Env, done, failed}
use icdc_core.Collateral.{
  settled, to_u128, or_settlement, replied, awaiting, begin_with-eq-awaiting, awaiting-injective,
  handler_of, replied-ne-awaiting, get_handler, AssetTransferFromParams,
}
use icdc_core.Collateral.Balances.{held}
use icdc_core.Collateral.Deposit.{
  PendingDeposit, plan_key, resume_deposit, continue_deposit, open_deposit, deposit_gates,
  begin_deposit, send_deposit, DepositCollateralParams, put_deposit, deposit_request,
  deposit_math_overflow,
}
use icdc_core.Collateral.Deposit.Credit.{credited, resume_deposit-credited, held-credited_self}

continue-eq-awaiting :
    (finished : Bool) (receipt : Option PaymentReceipt) (config : CollateralAssetConfig)
    (d : PendingDeposit) (st : Clearing) {request : AssetTransferFromParams} {e : PendingDeposit}
    {st' : Clearing}
    → continue_deposit finished receipt config d st ≡ awaiting request e st'
    → (finished ≡ false) × (receipt ≡ none) × (send_deposit config d st ≡ awaiting request e st')
unfolding continue_deposit
continue-eq-awaiting true receipt config d st h = absurd (replied-ne-awaiting h)
continue-eq-awaiting false none config d st h = (refl, refl, h)
continue-eq-awaiting false (some receipt) config d st h = absurd (replied-ne-awaiting h)

-- A deposit that waits for its ledger: its plan is stored as executing, with no receipt, and its
-- amount fits a `u128`.
pub record IsWaiting (d : PendingDeposit) (st : Clearing) : Type 0 where
  pub running : d.plan.status ≡ executing
  pub unpaid : d.plan.receipt ≡ none
  pub fits : d.params.amount < u128_mod
  pub stored : lookup (plan_key d) st.deposit_plans ≡ some d.plan

abbrev sent_of : PendingDeposit → PendingDeposit
sent_of o = record o { plan = record o.plan { status = executing } }

abbrev request_of : CollateralAssetConfig → PendingDeposit → AssetTransferFromParams
request_of config o = deposit_request (handler_of config.asset) config o o.params.amount

send_deposit-sent :
    (config : CollateralAssetConfig) (o : PendingDeposit) (st : Clearing)
    → o.params.amount < u128_mod
    → send_deposit config o st
      ≡ awaiting (request_of config o) (sent_of o) (put_deposit (plan_key o) (sent_of o).plan st)
unfolding send_deposit get_handler to_u128
send_deposit-sent config o st fits = rw (lt→ltb o.params.amount u128_mod fits) refl

send_deposit-overflow :
    (config : CollateralAssetConfig) (o : PendingDeposit) (st : Clearing)
    → ltb o.params.amount u128_mod ≡ false
    → send_deposit config o st
      ≡ replied (failed deposit_math_overflow (put_deposit (plan_key o) (sent_of o).plan st))
unfolding send_deposit get_handler to_u128
send_deposit-overflow config o st large = rw large refl

-- A request is sent only for an amount that fits.
send-eq-awaiting :
    (config : CollateralAssetConfig) (o : PendingDeposit) (st : Clearing)
    {request : AssetTransferFromParams} {d : PendingDeposit} {st' : Clearing}
    → send_deposit config o st ≡ awaiting request d st'
    → (o.params.amount < u128_mod)
      × ((request_of config o ≡ request)
          × (sent_of o ≡ d)
          × (put_deposit (plan_key o) (sent_of o).plan st ≡ st'))
send-eq-awaiting config o st h = elim (Bool-cases (ltb o.params.amount u128_mod)) [
  | inl fits ↦
      let small : o.params.amount < u128_mod = ltb→lt o.params.amount u128_mod fits in
      (small, awaiting-injective (sym (send_deposit-sent config o st small) ∙ h))
  | inr large ↦ absurd (replied-ne-awaiting (sym (send_deposit-overflow config o st large) ∙ h))
]

read_back :
    (key : UserKey) (plan : DepositPlan) (plans : Map UserKey DepositPlan)
    → lookup key (insert key plan plans) ≡ some plan
read_back key plan plans = rw (lookup-insert key key plan plans, beq_refl key) refl

-- The plan that a call opens or finds.
abbrev opened_plan : Env → User → DepositCollateralParams → Clearing → DepositPlan
opened_plan env user p st =
    (deposit_get_or_create p.deposit_id user p.asset_id p.amount env.now st.deposit_plans).0

abbrev opened_call : Env → User → DepositCollateralParams → Clearing → PendingDeposit
opened_call env user p st = record { user = user; params = p; plan = opened_plan env user p st }

begin-eq-awaiting :
    (env : Env) (user : User) (p : DepositCollateralParams) (st : Clearing)
    {request : AssetTransferFromParams} {d : PendingDeposit} {st' : Clearing}
    → begin_deposit env user p st ≡ awaiting request d st'
    → (config : CollateralAssetConfig) × (deposit_gates st user p ≡ ok config)
      × (request_of config (opened_call env user p st) ≡ request)
      × (sent_of (opened_call env user p st) ≡ d)
      × IsWaiting (sent_of (opened_call env user p st)) st'
unfolding begin_deposit open_deposit
begin-eq-awaiting env user p st h =
    let (config, passed, h1) =
      begin_with-eq-awaiting (deposit_gates st user p) st
        (λ (c : CollateralAssetConfig). open_deposit env user c p st) h in
    let (running, unpaid, h2) = continue-eq-awaiting _ _ config _ _ h1 in
    let (fits, (asked, kept, wrote)) = send-eq-awaiting config (opened_call env user p st) _ h2 in
    (
      config,
      passed,
      asked,
      kept,
      rw (← wrote) (record {
        running = refl;
        unpaid = unpaid;
        fits = fits;
        stored =
            read_back (user, p.deposit_id) (sent_of (opened_call env user p st)).plan
              (deposit_get_or_create p.deposit_id user p.asset_id p.amount env.now
                st.deposit_plans).1;
      }),
    )

-- A call that finds its deposit waiting sends it again.
begin_deposit-waiting :
    (env : Env) (d : PendingDeposit) (st : Clearing) {config : CollateralAssetConfig}
    → IsWaiting d st
    → deposit_gates st d.user d.params ≡ ok config
    → begin_deposit env d.user d.params st
      ≡ awaiting (request_of config d) d (put_deposit (plan_key d) d.plan st)
unfolding begin_deposit open_deposit deposit_get_or_create continue_deposit
begin_deposit-waiting env d st {config} waits passed =
    rw (passed, waits.stored, waits.running, waits.unpaid)
      (send_deposit-sent config
        (record d { plan = record d.plan { status = executing; receipt = none } }) st waits.fits)

-- A second call of a deposit, made while the first waits for the ledger or after the first was
-- refused, at any later time and with the same parameters, sends the ledger the same request, its
-- time of creation included, provided that the plan is still stored as it was sent and that the
-- checks find the same configuration.
begin_deposit-retry :
    (env later : Env) (user : User) (p : DepositCollateralParams) (st st'' : Clearing)
    {request : AssetTransferFromParams} {d : PendingDeposit} {st' : Clearing}
    → begin_deposit env user p st ≡ awaiting request d st'
    → lookup (user, p.deposit_id) st''.deposit_plans ≡ lookup (user, p.deposit_id) st'.deposit_plans
    → deposit_gates st'' user p ≡ deposit_gates st user p
    → begin_deposit later user p st''
      ≡ awaiting request d (put_deposit (user, p.deposit_id) d.plan st'')
begin_deposit-retry env later user p st st'' {request} {d} {st'} h kept gates =
    let (config, passed, asked, same, waits) = begin-eq-awaiting env user p st h in
    rw (← same, ← asked)
      (begin_deposit-waiting later (sent_of (opened_call env user p st)) st''
        (record {
          running = refl;
          unpaid = waits.unpaid;
          fits = waits.fits;
          stored = kept ∙ waits.stored;
        })
        (gates ∙ passed))

-- Two calls of one deposit that overlap credit it twice: when the second call is made while the
-- first waits, and the ledger answers the first with its block and the second, as a duplicate,
-- with the same block, both calls return, and the user's balance has grown twice by the amount.
pub resume_deposit-overlap :
    (env : Env) (user : User) (p : DepositCollateralParams) (st : Clearing) (block : ℕ)
    {request : AssetTransferFromParams} {d : PendingDeposit} {st' : Clearing}
    → begin_deposit env user p st ≡ awaiting request d st'
    → deposit_gates st' user p ≡ deposit_gates st user p
    → (second : Clearing) × (once : Clearing) × (twice : Clearing) × (begin_deposit env user p st'
        ≡ awaiting request d second)
      × (resume_deposit d (settled block) second ≡ done tt once)
      × (resume_deposit d (settled block) once ≡ done tt twice)
      × (held twice.accounts user (or_settlement p.domain) p.asset_id
          ≡ add_u128
              (add_u128 (held st'.accounts user (or_settlement p.domain) p.asset_id) p.amount)
              p.amount)
resume_deposit-overlap env user p st block {request} {d} {st'} h gates =
    let (config, passed, asked, same, waits) = begin-eq-awaiting env user p st h in
    let o = sent_of (opened_call env user p st) in
    let second = put_deposit (user, p.deposit_id) d.plan st' in
    (
      second,
      credited d block second,
      credited d block (credited d block second),
      begin_deposit-retry env env user p st st' h refl gates,
      rw (← same) (resume_deposit-credited o block _ refl waits.fits),
      rw (← same) (resume_deposit-credited o block _ refl waits.fits),
      rw (← same) (
          held-credited_self o block
            (credited o block (put_deposit (user, p.deposit_id) o.plan st'))
          ∙ ap (λ (n : ℕ). add_u128 n p.amount)
              (held-credited_self o block (put_deposit (user, p.deposit_id) o.plan st'))),
    )

-- The plan under which a deposit waits.
pub begin_deposit-stored :
    (env : Env) (user : User) (p : DepositCollateralParams) (st : Clearing)
    {request : AssetTransferFromParams} {d : PendingDeposit} {st' : Clearing}
    → begin_deposit env user p st ≡ awaiting request d st'
    → (lookup (user, p.deposit_id) st'.deposit_plans ≡ some d.plan) × (d.plan.status ≡ executing)
begin_deposit-stored env user p st h =
    let (config, passed, asked, same, waits) = begin-eq-awaiting env user p st h in
    rw (← same) (waits.stored, refl)
