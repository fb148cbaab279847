-- ===== src/Clearing/Plans.antt =====
-- The background plans and their `get_or_create` (src/clearing/src/types/plans.rs, payment.rs).
-- Each `get_or_create` takes the map of its plans and the time, and returns the plan with the map.
use icdc_core.Prelude.{ℕ, Bool, true, false, Option, none, some, List, [], map, length}
use icdc_core.Prelude.Int.{ℤ, pos}
use icdc_core.Prelude.Maps.{Map, Key, nat_key, pair_key, lookup, insert}
use icdc_core.Shared.Domain.{BalanceDomain}
use icdc_core.Shared.Price.{Principal}
use icdc_core.Shared.Series.{SeriesId, OutcomeId, SettlementInput}
use icdc_core.Shared.Collateral.{AssetId}
use icdc_core.Margin.{User}

pub data PlanStatus : Type 0 where
  planned executing finalised : PlanStatus

abbrev pub is_finalised : PlanStatus → Bool
is_finalised finalised = true
is_finalised _ = false

pub data PaymentIdempotency : Type 0 where
  icrc_created_at_time_ns : ℕ → PaymentIdempotency

pub data PaymentReceipt : Type 0 where
  icrc_block_index : ℕ → PaymentReceipt

-- `PaymentIdempotency::to_created_at_time_ns`.
abbrev pub to_created_at_time_ns : PaymentIdempotency → Option ℕ
to_created_at_time_ns (icrc_created_at_time_ns time) = some time

-- A user together with an identifier that the caller chose.
abbrev pub UserKey : Type 0
UserKey = User × ℕ

instance abbrev pub user_key : Key UserKey
user_key = pair_key nat_key nat_key

-- The part that every `get_or_create` shares: an existing plan is returned as it is.
abbrev pub found_or_inserted {ℓ κ} :
    {K : Type ℓ} {P : Type κ} ⦃e : Key K⦄ → Option P → K → P → Map K P → P × Map K P
found_or_inserted none k fresh plans = (fresh, insert k fresh plans)
found_or_inserted (some existing) k fresh plans = (existing, plans)

abbrev pub get_or_insert {ℓ κ} :
    {K : Type ℓ} {P : Type κ} ⦃e : Key K⦄ → K → P → Map K P → P × Map K P
get_or_insert k fresh plans = found_or_inserted (lookup k plans) k fresh plans

pub record DepositPlan : Type 0 where
  pub deposit_id : ℕ
  pub user : User
  pub asset_id : AssetId
  pub amount : ℕ
  pub status : PlanStatus
  pub idempotency_ns : PaymentIdempotency
  pub receipt : Option PaymentReceipt

unfoldable pub deposit_get_or_create :
    (deposit_id : ℕ) (user : User) (asset_id : AssetId) (amount now : ℕ)
    → Map UserKey DepositPlan
    → DepositPlan × Map UserKey DepositPlan
deposit_get_or_create deposit_id user asset_id amount now =
    get_or_insert (user, deposit_id)
      (record {
        deposit_id = deposit_id;
        user = user;
        asset_id = asset_id;
        amount = amount;
        status = planned;
        idempotency_ns = icrc_created_at_time_ns now;
        receipt = none;
      })

pub record WithdrawalPlan : Type 0 where
  pub withdrawal_id : ℕ
  pub user : User
  pub asset_id : AssetId
  pub amount : ℕ
  pub to_account : Principal × Option (List ℕ)
  pub status : PlanStatus
  pub idempotency_ns : PaymentIdempotency
  pub receipt : Option PaymentReceipt
  pub reserved_amount : Option ℕ
  pub reserved_cash_usd : Option ℤ

unfoldable pub withdrawal_get_or_create :
    (withdrawal_id : ℕ) (user : User) (asset_id : AssetId) (amount : ℕ)
    → Principal × Option (List ℕ)
    → (now : ℕ) → Map UserKey WithdrawalPlan
    → WithdrawalPlan × Map UserKey WithdrawalPlan
withdrawal_get_or_create withdrawal_id user asset_id amount to_account now =
    get_or_insert (user, withdrawal_id)
      (record {
        withdrawal_id = withdrawal_id;
        user = user;
        asset_id = asset_id;
        amount = amount;
        to_account = to_account;
        status = planned;
        idempotency_ns = icrc_created_at_time_ns now;
        receipt = none;
        reserved_amount = none;
        reserved_cash_usd = none;
      })

pub record SettlementPosition : Type 0 where
  pub user : User
  pub outcome_id : Option OutcomeId
  pub net_qty : ℤ
  pub reserved_margin_usd : ℕ
  pub cashflow_usd : ℤ

pub record SettlementPlanParams : Type 0 where
  pub series_id : SeriesId
  pub settlement : SettlementInput
  pub oracle_source : ℕ
  pub fee : ℕ
  pub insurance_fee : ℕ
  pub positions : List SettlementPosition
  pub balance_domain : BalanceDomain

pub record SettlementPlan : Type 0 where
  pub series_id : SeriesId
  pub settlement : SettlementInput
  pub oracle_source : ℕ
  pub fee_usd : ℕ
  pub insurance_fee_usd : ℕ
  pub positions : List SettlementPosition
  pub accounting_cursor : ℕ
  pub accounting_applied : Bool
  pub status : PlanStatus
  pub idempotency_ns : PaymentIdempotency
  pub balance_domain : BalanceDomain

-- The plan that `SettlementPlan::get_or_create` opens.
abbrev pub fresh_settlement_plan : SettlementPlanParams → ℕ → SettlementPlan
fresh_settlement_plan p now = record {
  series_id = p.series_id;
  settlement = p.settlement;
  oracle_source = p.oracle_source;
  fee_usd = p.fee;
  insurance_fee_usd = p.insurance_fee;
  positions = p.positions;
  accounting_cursor = 0;
  accounting_applied = false;
  status = planned;
  idempotency_ns = icrc_created_at_time_ns now;
  balance_domain = p.balance_domain;
}

unfoldable pub settlement_get_or_create :
    SettlementPlanParams
    → ℕ
    → Map SeriesId SettlementPlan
    → SettlementPlan × Map SeriesId SettlementPlan
settlement_get_or_create p now = get_or_insert p.series_id (fresh_settlement_plan p now)

pub record SettlementStatusView : Type 0 where
  pub series_id : SeriesId
  pub settlement : SettlementInput
  pub oracle_source : ℕ
  pub fee_usd : ℕ
  pub insurance_fee_usd : ℕ
  pub accounting_cursor : ℕ
  pub accounting_applied : Bool
  pub status : PlanStatus
  pub total_positions : ℕ
  pub balance_domain : BalanceDomain

-- `SettlementStatusView::from`.
unfoldable pub status_view : SettlementPlan → SettlementStatusView
status_view plan = record {
  series_id = plan.series_id;
  settlement = plan.settlement;
  oracle_source = plan.oracle_source;
  fee_usd = plan.fee_usd;
  insurance_fee_usd = plan.insurance_fee_usd;
  accounting_cursor = plan.accounting_cursor;
  accounting_applied = plan.accounting_applied;
  status = plan.status;
  total_positions = length plan.positions;
  balance_domain = plan.balance_domain;
}

pub record MigratedPosition : Type 0 where
  pub series_id : SeriesId
  pub outcome_id : Option OutcomeId
  pub net_qty : ℤ
  pub reserved_margin_usd : ℕ

pub record MigratedOrder : Type 0 where
  pub order_id : ℕ
  pub blocked_margin_usd : ℕ

pub record MigrationPlan : Type 0 where
  pub migration_id : ℕ
  pub user : User
  pub from_domain : BalanceDomain
  pub to_domain : BalanceDomain
  pub status : PlanStatus
  pub idempotency_ns : PaymentIdempotency
  pub positions : List MigratedPosition
  pub orders : List MigratedOrder
  pub balances : List (AssetId × ℕ)
  pub cash_balance_usd : ℤ
  pub reserved_margin_usd : ℕ

unfoldable pub migration_get_or_create :
    (migration_id : ℕ) (user : User) (from to : BalanceDomain) (now : ℕ)
    → Map UserKey MigrationPlan
    → MigrationPlan × Map UserKey MigrationPlan
migration_get_or_create migration_id user from to now =
    get_or_insert (user, migration_id)
      (record {
        migration_id = migration_id;
        user = user;
        from_domain = from;
        to_domain = to;
        status = planned;
        idempotency_ns = icrc_created_at_time_ns now;
        positions = [];
        orders = [];
        balances = [];
        cash_balance_usd = pos 0;
        reserved_margin_usd = 0;
      })

pub record CustodySweep : Type 0 where
  pub asset_id : AssetId
  pub moved_amount : Option ℕ
  pub receipt : Option PaymentReceipt

pub record ReassignmentPlan : Type 0 where
  pub reassignment_id : ℕ
  pub old_owner : User
  pub new_owner : User
  pub status : PlanStatus
  pub created_ns : ℕ
  pub sweeps : List CustodySweep

abbrev pub fresh_sweep : AssetId → CustodySweep
fresh_sweep asset_id = record { asset_id = asset_id; moved_amount = none; receipt = none }

unfoldable pub reassignment_get_or_create :
    (reassignment_id : ℕ) (old_owner new_owner : User) (asset_ids : List AssetId) (now : ℕ)
    → Map UserKey ReassignmentPlan
    → ReassignmentPlan × Map UserKey ReassignmentPlan
reassignment_get_or_create reassignment_id old_owner new_owner asset_ids now =
    get_or_insert (old_owner, reassignment_id)
      (record {
        reassignment_id = reassignment_id;
        old_owner = old_owner;
        new_owner = new_owner;
        status = planned;
        created_ns = now;
        sweeps = map fresh_sweep asset_ids;
      })
