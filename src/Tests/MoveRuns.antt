-- ===== src/Tests/MoveRuns.antt =====
-- Runs of the operations that move a user's state: transfers, migrations and reassignments.
use icdc_core.Prelude.{◌≡◌, refl, true, none, some, [], ◌∷◌, ◌==◌, if◌then◌else◌}
use icdc_core.Prelude.Int.{pos, negsuc, ◌+ℤ◌, ◌-ℤ◌}
use icdc_core.Prelude.Words.{
  mul_u128, pow10_u128, add_u128, cast_signed, cast_unsigned, wrap_i128, add_i128, sub_i128,
}
use icdc_core.Prelude.Maps.{nat_key, lookup}
use icdc_core.Shared.Domain.{settlement, playground}
use icdc_core.Shared.Price.{new_price}
use icdc_core.Shared.Series.{Series, put}
use icdc_core.Payoffs.{get_required_margin, margin_by_type, put_margin, scale_price, missing_strike}
use icdc_core.Margin.{
  User, position_key, AccountState, get_balance, set_balance, drop_balance, get_cash_balance_usd,
  set_cash_balance_usd, get_reserved_margin_usd, set_reserved_margin_usd,
}
use icdc_core.Clearing.Errors.{trade_payoff_error}
use icdc_core.Clearing.Orders.{PositionProof}
use icdc_core.Clearing.Plans.{
  ReassignmentPlan, migration_get_or_create, reassignment_get_or_create, executing,
}
use icdc_core.Clearing.State.{Clearing, Env, done, failed, state_after}
use icdc_core.Trade.Access.{
  acquire, revalidate, mark_of, check_window, assert_series_not_settled, assert_series_started,
  lock_for_reassignment, lock_user,
}
use icdc_core.Trade.Execute.{account_or_new, position_or_new, change_reserved}
use icdc_core.Trade.Registered.{ensure_series_registered, cached_or_fetched}
use icdc_core.Trade.Transfers.{
  FreezePositionForTransferParams, frozen_key, proof_key, freeze_now, freeze_once,
  freeze_position_for_transfer, receive, resume_accept, accept_now, accept_position_transfer,
}
use icdc_core.Trade.Transfers.Conserved.{
  accept_position_transfer-freeze_position_for_transfer, receive-failed,
}
use icdc_core.Migration.{
  MigrateDomainParams, check_no_inflight_plans, has_deposit, has_withdrawal, settles_user, snapshot,
  has_nothing, in_domain, apply_migration, moved_account, move_balances, move_balance, move_cash,
  move_margin, retag_orders, retag_found, continue_migration, open_migration, migrate_domain_impl,
}
use icdc_core.Migration.Account.{IsMoved}
use icdc_core.Migration.Migrated.{migrate_domain_impl-IsMoved}
use icdc_core.Reassignment.{
  Holding, is_locked, has_migration, check_no_inflight_plans_for_reassignment, has_orders,
  has_frozen, has_positions, target_has_clearing_state, custody_of_domain, custody_of_domains,
  custody_assets, persist, holdings, rekey_account, rekey_found, rekey_positions, rekey,
  check_rekey, validate_and_rekey,
}
use icdc_core.Reassignment.Rekeyed.{validate_and_rekey-moves}
use icdc_core.Reassignment.Positions.{of_owner, account_of_owner}
use icdc_core.Tests.Fixture.{env, market, empty_market, pair, position, account, binary_series}

abbrev later : Env
later = record { now = 150; canister = 9 }

abbrev transfer : FreezePositionForTransferParams
transfer = record {
  transfer_id = 4;
  user = 1;
  series_id = 1;
  outcome_id = none;
  valuation_price = some (new_price 50 2);
}

abbrev proof : PositionProof
proof = record {
  transfer_id = 4;
  user = 1;
  series_id = 1;
  outcome_id = none;
  qty = pos 2;
  clearing_id = 9;
  signature = [];
  valuation_price = some (new_price 50 2);
}

abbrev left : Clearing
left = record (market pair []) {
  positions = ((2, (1, none)), position 2 (negsuc 1)) ∷ [];
  frozen_transfers = (4, proof) ∷ [];
}

freezes : freeze_position_for_transfer env transfer (market pair []) ≡ (some proof, left)
unfolding freeze_position_for_transfer freeze_once freeze_now
freezes = refl

abbrev reached : Clearing
reached = state_after empty_market (accept_position_transfer none later proof empty_market)

accepts : accept_position_transfer none later proof empty_market ≡ done true reached
unfolding accept_position_transfer accept_now acquire mark_of ensure_series_registered
    assert_series_not_settled assert_series_started cached_or_fetched check_window resume_accept
    revalidate receive get_required_margin margin_by_type scale_price pow10_u128 mul_u128
    cast_unsigned cast_signed wrap_i128 add_i128 sub_i128 add_u128 ◌+ℤ◌ ◌-ℤ◌ change_reserved
accepts = refl

accept_position_transfer-freeze_position_for_transfer_example :
    ((position_or_new left.positions (frozen_key transfer)).net_qty ≡ pos 0)
    × ((position_or_new reached.positions (frozen_key transfer)).net_qty
        ≡ add_i128
            (position_or_new empty_market.positions (frozen_key transfer)).net_qty
            (position_or_new (market pair []).positions (frozen_key transfer)).net_qty)
    × (freeze_position_for_transfer later transfer left ≡ (some proof, left))
    × (accept_position_transfer none later proof reached ≡ done true reached)
accept_position_transfer-freeze_position_for_transfer_example =
    accept_position_transfer-freeze_position_for_transfer none none env later later transfer
      (market pair []) empty_market refl freezes refl accepts

-- A short put option without a strike has no margin.
abbrev option_series : Series
option_series = record binary_series { payoff_type = put }

abbrev short_proof : PositionProof
short_proof = record proof { qty = negsuc 1 }

abbrev stranded : Clearing
stranded =
    state_after empty_market (receive short_proof option_series (new_price 50 2) empty_market)

fails :
    receive short_proof option_series (new_price 50 2) empty_market
    ≡ failed (trade_payoff_error missing_strike) stranded
unfolding receive get_required_margin margin_by_type put_margin scale_price pow10_u128 mul_u128
    cast_unsigned cast_signed wrap_i128 add_i128 ◌+ℤ◌
fails = refl

receive-failed_example :
    ((position_or_new stranded.positions (proof_key short_proof)).net_qty
      ≡ add_i128
          (position_or_new empty_market.positions (proof_key short_proof)).net_qty
          (negsuc 1))
    × ((position_or_new stranded.positions (proof_key short_proof)).reserved_margin_usd
        ≡ (position_or_new empty_market.positions (proof_key short_proof)).reserved_margin_usd)
    × (stranded ≡ record empty_market { positions = stranded.positions })
receive-failed_example =
    receive-failed short_proof option_series (new_price 50 2) empty_market fails

-- User 1 moves a balance, cash and a reserve from the settlement domain to the playground.
abbrev owner : AccountState
owner = record (account 1 (pos 70)) {
  balances = (settlement, (3, 90) ∷ []) ∷ [];
  reserved_margins_usd = (settlement, 30) ∷ [];
}

abbrev home : Clearing
home = record (market pair []) { accounts = (1, owner) ∷ [] }

abbrev migration : MigrateDomainParams
migration = record { migration_id = 8; from_domain = settlement; to_domain = playground }

abbrev abroad : Clearing
abroad = state_after home (migrate_domain_impl env 1 migration home)

migrates : migrate_domain_impl env 1 migration home ≡ done tt abroad
unfolding migrate_domain_impl open_migration migration_get_or_create continue_migration
    check_no_inflight_plans has_deposit has_withdrawal settles_user snapshot has_nothing in_domain
    apply_migration moved_account move_balances move_balance move_cash move_margin retag_orders
    retag_found get_balance set_balance drop_balance get_cash_balance_usd set_cash_balance_usd
    get_reserved_margin_usd set_reserved_margin_usd add_u128 add_i128 sub_i128 wrap_i128 ◌+ℤ◌ ◌-ℤ◌
migrates = refl

migrate_domain_impl-IsMoved_example :
    IsMoved settlement playground
      (account_or_new home.accounts 1)
      (account_or_new abroad.accounts 1)
    × (abroad.positions ≡ home.positions)
    × ((v : User)
        → (if 1 == v then none else lookup v abroad.accounts)
          ≡ (if 1 == v then none else lookup v home.accounts))
    × (migrate_domain_impl later 1 migration abroad ≡ done tt abroad)
migrate_domain_impl-IsMoved_example =
    migrate_domain_impl-IsMoved env later 1 migration home refl (refl, tt) migrates

abbrev moved_plan : ReassignmentPlan
moved_plan = record {
  reassignment_id = 2;
  old_owner = 1;
  new_owner = 6;
  status = executing;
  created_ns = 100;
  sweeps = [];
}

abbrev rekeyed : Clearing
rekeyed = state_after (market pair []) (validate_and_rekey 1 6 env 2 (market pair []))

rekeys : validate_and_rekey 1 6 env 2 (market pair []) ≡ done moved_plan rekeyed
unfolding validate_and_rekey check_rekey is_locked mark_of has_orders has_frozen
    check_no_inflight_plans_for_reassignment has_deposit has_withdrawal has_migration settles_user
    target_has_clearing_state has_positions custody_assets custody_of_domains custody_of_domain
    reassignment_get_or_create persist rekey lock_for_reassignment lock_user rekey_account
    rekey_positions rekey_found holdings
rekeys = refl

validate_and_rekey-moves_example :
    ((user : User) (h : Holding)
      → lookup (user, h) rekeyed.positions ≡ (
          if user == 1
          then none
          else if user == 6
          then of_owner 6 (lookup (1, h) (market pair []).positions)
          else lookup (user, h) (market pair []).positions))
    × ((user : User)
        → lookup user rekeyed.accounts ≡ (
            if user == 1
            then none
            else if user == 6
            then account_of_owner 6 (lookup 1 (market pair []).accounts)
            else lookup user (market pair []).accounts))
    × (is_locked 1 rekeyed ≡ true)
    × (is_locked 6 rekeyed ≡ true)
validate_and_rekey-moves_example = validate_and_rekey-moves 1 6 env 2 (market pair []) refl rekeys
