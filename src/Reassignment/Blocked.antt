-- ===== src/Reassignment/Blocked.antt =====
-- A deposit that waits for its ledger holds off every reassignment of its user
-- (src/clearing/src/api/collateral/api.rs, src/clearing/src/account/reassignment.rs).
use icdc_core.Prelude.{ℕ, ◌≡◌, refl, ◌∙◌, true, false, not, ◌||◌, some, [], ◌∷◌, arith}
use icdc_core.Prelude.Maps.{Map, nat_key, lookup, contains_key}
use icdc_core.Prelude.Results.{ok, >>=-eq-ok, guard-eq-ok}
use icdc_core.Margin.{User}
use icdc_core.Clearing.Plans.{UserKey, user_key, DepositPlan, ReassignmentPlan, is_finalised}
use icdc_core.Clearing.State.{Clearing, Env, done, proceed-eq-done}
use icdc_core.Migration.{has_deposit}
use icdc_core.Collateral.{awaiting, AssetTransferFromParams}
use icdc_core.Collateral.Deposit.{PendingDeposit, DepositCollateralParams, begin_deposit}
use icdc_core.Collateral.Deposit.Retry.{begin_deposit-stored}
use icdc_core.Reassignment.{
  check_rekey, check_no_inflight_plans_for_reassignment, validate_and_rekey, is_locked, has_orders,
  has_frozen,
}

has_deposit-stored :
    (user : User) (id : ℕ) (plans : Map UserKey DepositPlan) {plan : DepositPlan}
    → lookup (user, id) plans ≡ some plan
    → is_finalised plan.status ≡ false
    → has_deposit user plans ≡ true
unfolding has_deposit
has_deposit-stored user id [] h running = absurd (ground arith)
has_deposit-stored user id ((k, q) ∷ plans) {plan} h running =
    ground (arith, h, running, has_deposit-stored user id plans {plan = plan})

never_idle :
    (user : User) (st : Clearing)
    → has_deposit user st.deposit_plans ≡ true
    → ¬ (check_no_inflight_plans_for_reassignment user st ≡ ok tt)
unfolding check_no_inflight_plans_for_reassignment
never_idle user st waiting h = ground (arith, waiting, h)

-- A reassignment that goes through has found both parties without plans in flight.
idle_parties :
    (old_owner new_owner : User) (env : Env) (id : ℕ) (st : Clearing) {plan : ReassignmentPlan}
    {end : Clearing}
    → validate_and_rekey old_owner new_owner env id st ≡ done plan end
    → (check_no_inflight_plans_for_reassignment old_owner st ≡ ok tt)
      × (check_no_inflight_plans_for_reassignment new_owner st ≡ ok tt)
unfolding validate_and_rekey check_rekey
idle_parties old_owner new_owner env id st h =
    let (checked, passed, h0) = proceed-eq-done (check_rekey old_owner new_owner st) st _ h in
    let (free, h1) = guard-eq-ok (is_locked old_owner st || is_locked new_owner st) _ _ passed in
    let (there, h2) = guard-eq-ok (not (contains_key old_owner st.accounts)) _ _ h1 in
    let (orders, h3) = guard-eq-ok (has_orders old_owner st) _ _ h2 in
    let (frozen, h4) = guard-eq-ok (has_frozen old_owner st) _ _ h3 in
    let (idle_old, quiet, h5) =
      >>=-eq-ok (check_no_inflight_plans_for_reassignment old_owner st) _ h4 in
    let (idle_new, calm, h6) =
      >>=-eq-ok (check_no_inflight_plans_for_reassignment new_owner st) _ h5 in
    (quiet, calm)

-- From the moment a deposit waits for its ledger, no reassignment of the depositor's account, and
-- none to the depositor, goes through while the plan is stored as it was sent.
pub validate_and_rekey-begin_deposit :
    (env later : Env) (user v : User) (p : DepositCollateralParams) (st now : Clearing) (id : ℕ)
    {request : AssetTransferFromParams} {d : PendingDeposit} {st' : Clearing}
    → begin_deposit env user p st ≡ awaiting request d st'
    → lookup (user, p.deposit_id) now.deposit_plans ≡ lookup (user, p.deposit_id) st'.deposit_plans
    → ((plan : ReassignmentPlan) (end : Clearing)
        → ¬ (validate_and_rekey user v later id now ≡ done plan end))
      × ((plan : ReassignmentPlan) (end : Clearing)
          → ¬ (validate_and_rekey v user later id now ≡ done plan end))
validate_and_rekey-begin_deposit env later user v p st now id h kept =
    let (stored, running) = begin_deposit-stored env user p st h in
    let waiting =
      has_deposit-stored user p.deposit_id now.deposit_plans (kept ∙ stored) (rw running refl) in
    (
      λ plan end g. never_idle user now waiting (idle_parties user v later id now g).0,
      λ plan end g. never_idle user now waiting (idle_parties v user later id now g).1,
    )
