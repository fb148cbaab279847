-- ===== src/Clearing/State.antt =====
-- The thread-local maps of src/clearing/src/memory.rs as one record, and what an update call
-- returns. The time and the canister's own principal are constant during a call.
use icdc_core.Prelude.{ℕ, ◌≡◌, refl, ◌⊎◌, inl, inr, Bool, List, arith}
use icdc_core.Prelude.Maps.{Map, Key, nat_key, pair_key}
use icdc_core.Prelude.Results.{Res, ok, err, trap}
use icdc_core.Shared.Price.{Principal}
use icdc_core.Shared.Series.{SeriesId, Series}
use icdc_core.Shared.Collateral.{AssetId}
use icdc_core.Margin.{User, PositionsMap, AccountState, Configs, Metrics}
use icdc_core.Events.{Event, SeriesTradePoint, SeriesVolumeAggregate}
use icdc_core.Leaderboard.{LeaderboardWindow, window_key, PnlAggregate}
use icdc_core.Clearing.Orders.{
  TradeId, OrderId, TransferId, LimitOrder, PositionProof, ReassignmentMark,
}
use icdc_core.Clearing.Plans.{
  UserKey, DepositPlan, WithdrawalPlan, SettlementPlan, MigrationPlan, ReassignmentPlan,
}

pub record Config : Type 0 where
  -- u16 basis points
  pub insurance_fund_fee_ratio : ℕ
  pub protocol_fee_ratio : ℕ
  -- `internal_ledger.asset_id`
  pub internal_asset_id : AssetId

abbrev pub Leaderboard : Type 0
Leaderboard = Map (LeaderboardWindow × ℕ) (Map User PnlAggregate)

instance abbrev pub period_key : Key (LeaderboardWindow × ℕ)
period_key = pair_key window_key nat_key

pub record Clearing : Type 0 where
  pub config : Config
  pub positions : PositionsMap
  pub accounts : Map User AccountState
  pub series : Map SeriesId Series
  pub events : List Event
  pub next_event_id : ℕ
  pub series_trade_history : Map SeriesId (List SeriesTradePoint)
  pub series_traded_volume : Map SeriesId SeriesVolumeAggregate
  pub leaderboard : Leaderboard
  pub executed_trades : Map TradeId ℕ
  pub frozen_transfers : Map TransferId PositionProof
  pub accepted_transfers : Map TransferId Bool
  pub settlement_plans : Map SeriesId SettlementPlan
  pub deposit_plans : Map UserKey DepositPlan
  pub withdrawal_plans : Map UserKey WithdrawalPlan
  pub migration_plans : Map UserKey MigrationPlan
  pub reassignment_plans : Map UserKey ReassignmentPlan
  pub limit_orders : Map OrderId LimitOrder
  pub insurance_fund : Map AssetId ℕ
  pub treasury : Map AssetId ℕ
  pub collateral_assets : Configs
  pub asset_metrics : Metrics
  pub reassignment_marks : Map User ReassignmentMark

-- What a call reads from its environment.
pub record Env : Type 0 where
  pub now : ℕ
  pub canister : Principal

-- How a call ends: an error keeps what was written before it, a panic keeps nothing.
pub data Reply {ℓ κ} (E : Type ℓ) (A : Type κ) : Type (ℓ ⊔ κ) where
  done : A → Clearing → Reply E A
  failed : E → Clearing → Reply E A
  trapped : Reply E A

-- A computed result decides how the call goes on.
abbrev pub proceed {ℓ κ μ} :
    {E : Type ℓ} {A : Type κ} {B : Type μ} → Res E A → Clearing → (A → Reply E B) → Reply E B
proceed (ok a) st next = next a
proceed (err e) st next = failed e st
proceed trap st next = trapped

-- The state after the call, for the caller of a canister that panicked: the one before it.
abbrev pub state_after {ℓ κ} : {E : Type ℓ} {A : Type κ} → Clearing → Reply E A → Clearing
state_after st (done a st') = st'
state_after st (failed e st') = st'
state_after st trapped = st

-- Inversions of a reply.
pub done-injective {ℓ κ} :
    {E : Type ℓ} {A : Type κ} {a b : A} {st st' : Clearing}
    → ◌≡◌ {A = Reply E A} (done a st) (done b st')
    → (a ≡ b) × (st ≡ st')
done-injective h = (cc, cc)

pub failed-injective {ℓ κ} :
    {E : Type ℓ} {A : Type κ} {e f : E} {st st' : Clearing}
    → ◌≡◌ {A = Reply E A} (failed e st) (failed f st')
    → (e ≡ f) × (st ≡ st')
failed-injective h = (cc, cc)

pub failed-ne-done {ℓ κ} :
    {E : Type ℓ} {A : Type κ} {e : E} {b : A} {st st' : Clearing}
    → ¬ (◌≡◌ {A = Reply E A} (failed e st) (done b st'))
failed-ne-done h = cc

pub done-ne-failed {ℓ κ} :
    {E : Type ℓ} {A : Type κ} {e : E} {b : A} {st st' : Clearing}
    → ¬ (◌≡◌ {A = Reply E A} (done b st) (failed e st'))
done-ne-failed h = cc

pub proceed-eq-done {ℓ κ μ} :
    {E : Type ℓ} {A : Type κ} {B : Type μ} (r : Res E A) (st : Clearing) (next : A → Reply E B)
    {b : B} {st' : Clearing}
    → proceed r st next ≡ done b st'
    → (a : A) × (r ≡ ok a) × (next a ≡ done b st')
proceed-eq-done (ok a) st next h = (a, refl, h)
proceed-eq-done (err e) st next h = absurd (ground arith)
proceed-eq-done trap st next h = absurd (ground arith)

pub proceed-eq-failed {ℓ κ μ} :
    {E : Type ℓ} {A : Type κ} {B : Type μ} (r : Res E A) (st : Clearing) (next : A → Reply E B)
    {e : E} {st' : Clearing}
    → proceed r st next ≡ failed e st'
    → ((r ≡ err e) × (st' ≡ st)) ⊎ ((a : A) × (r ≡ ok a) × (next a ≡ failed e st'))
proceed-eq-failed (ok a) st next h = inr (a, refl, h)
proceed-eq-failed (err e) st next h = inl (cc, cc)
proceed-eq-failed trap st next h = absurd (ground arith)
