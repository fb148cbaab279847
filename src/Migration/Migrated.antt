-- ===== src/Migration/Migrated.antt =====
-- The state after a migration (src/clearing/src/api/migration/api.rs).
use icdc_core.Prelude.{
  ℕ, ◌≡◌, refl, ◌∙◌, sym, ap, Option, none, some, [], arith, ◌==◌, if◌then◌else◌, Bool-cases, inl,
  inr,
}
use icdc_core.Prelude.Int.{pos}
use icdc_core.Prelude.Maps.{Map, nat_key, lookup, insert, lookup-insert, beq_refl}
use icdc_core.Prelude.Results.{ok, guard-eq-ok, ok-injective}
use icdc_core.Shared.Domain.{BalanceDomain, domain_key, domain_beq}
use icdc_core.Margin.{User, AccountState}
use icdc_core.Clearing.Plans.{
  UserKey, user_key, MigrationPlan, planned, finalised, migration_get_or_create,
  icrc_created_at_time_ns,
}
use icdc_core.Clearing.State.{
  Clearing, Env, done, failed, proceed-eq-done, done-injective, failed-ne-done,
}
use icdc_core.Settlement.Prepare.Cleared.{UniqueKeys}
use icdc_core.Trade.Execute.{account_or_new}
use icdc_core.Migration.{
  MigrateDomainParams, moved_account, snapshot, has_nothing, apply_migration, continue_migration,
  open_migration, migrate_domain_impl, same_domain, check_no_inflight_plans,
}
use icdc_core.Migration.Account.{inner_of, IsMoved, IsSnapshot, moved_account-IsMoved}

snapshot_lem :
    (st : Clearing) (user : User) (from : BalanceDomain) (plan : MigrationPlan)
    (found : Option AccountState) {plan' : MigrationPlan}
    → snapshot st user from plan found ≡ ok plan'
    → (a : AccountState) × (found ≡ some a)
      × IsSnapshot from a plan'
      × (plan'.migration_id ≡ plan.migration_id)
unfolding snapshot
snapshot_lem st user from plan none h = absurd (ground arith)
snapshot_lem st user from plan (some a) h =
    let (something, taken) = guard-eq-ok (has_nothing st user from a) _ _ h in
    let same = ok-injective taken in (a, refl, rw (← same) (refl, refl, refl), rw (← same) refl)

abbrev fresh_migration : Env → User → MigrateDomainParams → MigrationPlan
fresh_migration env user p = record {
  migration_id = p.migration_id;
  user = user;
  from_domain = p.from_domain;
  to_domain = p.to_domain;
  status = planned;
  idempotency_ns = icrc_created_at_time_ns env.now;
  positions = [];
  orders = [];
  balances = [];
  cash_balance_usd = pos 0;
  reserved_margin_usd = 0;
}

open_migration-fresh :
    (env : Env) (user : User) (p : MigrateDomainParams) (st : Clearing) {r : Unit {0}}
    {st' : Clearing}
    → lookup (user, p.migration_id) st.migration_plans ≡ none
    → open_migration env user p st ≡ done r st'
    → let plans = insert (user, p.migration_id) (fresh_migration env user p) st.migration_plans in
      (plan : MigrationPlan) × (a : AccountState) × (lookup user st.accounts ≡ some a)
      × IsSnapshot p.from_domain a plan
      × (plan.migration_id ≡ p.migration_id)
      × (apply_migration user p.from_domain p.to_domain plan
            (record st { migration_plans = insert (user, plan.migration_id) plan plans })
          ≡ st')
unfolding open_migration migration_get_or_create continue_migration
open_migration-fresh env user p st {r} {st'} fresh h =
    let o = fresh_migration env user p in
    let st1 = record st { migration_plans = insert (user, p.migration_id) o st.migration_plans } in
    let first : open_migration env user p st ≡ continue_migration planned user p o st1 =
      rw fresh refl in
    let opened = sym first ∙ h in
    let (idle, _, h1) =
      proceed-eq-done (check_no_inflight_plans user p.from_domain st1) st1 _ opened in
    let (plan, taken, h2) =
      proceed-eq-done (snapshot st1 user p.from_domain o (lookup user st.accounts)) st1 _ h1 in
    let (a, there, snap, id) =
      snapshot_lem st1 user p.from_domain o (lookup user st.accounts) taken in
    (plan, a, there, snap, id, (done-injective h2).1)

open_migration-later :
    (env : Env) (user : User) (p : MigrateDomainParams) (st : Clearing) {plan : MigrationPlan}
    → lookup (user, p.migration_id) st.migration_plans ≡ some plan
    → plan.status ≡ finalised
    → open_migration env user p st ≡ done tt st
unfolding open_migration migration_get_or_create continue_migration
open_migration-later env user p st there final = rw (there, final) refl

abbrev plans_after :
    User → MigrationPlan → Env → MigrateDomainParams → Clearing → Map UserKey MigrationPlan
plans_after user plan env p st =
    insert (user, plan.migration_id) (record plan { status = finalised })
      (insert (user, plan.migration_id) plan
        (insert (user, p.migration_id) (fresh_migration env user p) st.migration_plans))

read_back_plan :
    (user : User) (plan : MigrationPlan) (env : Env) (p : MigrateDomainParams) (st : Clearing)
    → lookup (user, plan.migration_id) (plans_after user plan env p st)
      ≡ some (record plan { status = finalised })
read_back_plan user plan env p st =
    let key : UserKey = (user, plan.migration_id) in
    rw (lookup-insert key key (record plan { status = finalised }) _, beq_refl key) refl

-- The first call of a migration that succeeds moves every balance, the cash and the reserved
-- margin of the user in the first domain to the second one, where the amounts add up as `u128`s
-- and `i128`s; the first domain is left with zero of each, and a third domain as it was. The
-- account's entries for the first domain stand in its map once. Positions and the accounts of
-- other users stay as they were, and the same call later changes nothing.
pub migrate_domain_impl-IsMoved :
    (env later : Env) (user : User) (p : MigrateDomainParams) (st : Clearing) {r : Unit {0}}
    {st' : Clearing}
    → lookup (user, p.migration_id) st.migration_plans ≡ none
    → UniqueKeys (inner_of p.from_domain (account_or_new st.accounts user))
    → migrate_domain_impl env user p st ≡ done r st'
    → IsMoved p.from_domain p.to_domain
        (account_or_new st.accounts user)
        (account_or_new st'.accounts user)
      × (st'.positions ≡ st.positions)
      × ((v : User)
          → (if user == v then none else lookup v st'.accounts)
            ≡ (if user == v then none else lookup v st.accounts))
      × (migrate_domain_impl later user p st' ≡ done tt st')
unfolding migrate_domain_impl apply_migration
migrate_domain_impl-IsMoved env later user p st {r} {st'} fresh unique h =
    elim (Bool-cases (domain_beq p.from_domain p.to_domain)) [
      | inl same ↦
          let refused : migrate_domain_impl env user p st ≡ failed same_domain st = rw same refl in
          absurd (failed-ne-done (sym refused ∙ h))
      | inr other ↦
          let opened : migrate_domain_impl env user p st ≡ open_migration env user p st =
            rw other refl in
          let (plan, a, there, snap, id, ended) =
            open_migration-fresh env user p st fresh (sym opened ∙ h) in
          let known : account_or_new st.accounts user ≡ a = rw there refl in
          let again : migrate_domain_impl later user p st' ≡ open_migration later user p st' =
            rw other refl in
          let acc = account_or_new st.accounts user in
          let moved : AccountState = moved_account p.from_domain p.to_domain plan acc in
          let taken : IsSnapshot p.from_domain acc plan = rw known snap in
          let stored : lookup (user, p.migration_id) st'.migration_plans
              ≡ some (record plan { status = finalised }) =
            rw (← ended) (
              ap (λ (i : ℕ). lookup (user, i) (plans_after user plan env p st)) (sym id)
              ∙ read_back_plan user plan env p st) in
          (
            rw (← ended) (
                rw (lookup-insert user user moved st.accounts, beq_refl user)
                  (moved_account-IsMoved p.from_domain p.to_domain other plan acc taken unique)),
            rw (← ended) refl,
            λ v. rw (← ended) (ground (arith, lookup-insert user v moved st.accounts)),
            again ∙ open_migration-later later user p st' stored refl,
          )
    ]
