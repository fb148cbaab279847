-- ===== src/Settlement/Settle.antt =====
-- `settle_series_inner`, the queries on settlement plans, and the sweep over stalled plans
-- (src/clearing/src/api/settlement/api.rs).
pub mod Drive
pub mod Completion
use icdc_core.Prelude.{
  ℕ, Bool, true, false, not, Option, none, some, List, [], ◌∷◌, map, if◌then◌else◌, ◌==◌,
}
use icdc_core.Prelude.Words.{add_u128}
use icdc_core.Prelude.Maps.{Map, nat_key, lookup, insert, remove}
use icdc_core.Shared.Series.{Series, SeriesId, SettlementInput, settlement_beq}
use icdc_core.Shared.Collateral.{AssetId}
use icdc_core.Margin.{unwrap_or}
use icdc_core.Clearing.Errors.{
  SettlementError, inconsistent_settlement, unauthorized, internal, plan_not_found,
}
use icdc_core.Clearing.Plans.{
  PlanStatus, planned, executing, finalised, is_finalised, SettlementPlan, SettlementStatusView,
  status_view,
}
use icdc_core.Clearing.State.{Clearing, Env, Reply, done, failed, trapped}
use icdc_core.Settlement.Prepare.{FeeRatios, prepare_settlement_impl}
use icdc_core.Settlement.Accounting.{apply_settlement_accounting_logic}

-- `SettleSeriesResult` apart from its `Err`, which is the failure of a reply.
pub data SettleSeriesResult : Type 0 where
  finished processing : SettleSeriesResult

-- Amounts held per asset, with one added to.
abbrev pub credit : AssetId → ℕ → Map AssetId ℕ → Map AssetId ℕ
credit asset_id amount held =
    insert asset_id (add_u128 (unwrap_or (lookup asset_id held) 0) amount) held

abbrev pub begin_status : PlanStatus → PlanStatus
begin_status planned = executing
begin_status status = status

-- The fees go to the treasury and the insurance fund when the last position is settled.
unfoldable pub book_fees : Bool → SettlementPlan → Clearing → Clearing
book_fees false plan st = st
book_fees true plan st = record st {
  treasury = credit st.config.internal_asset_id plan.fee_usd st.treasury;
  insurance_fund = credit st.config.internal_asset_id plan.insurance_fee_usd st.insurance_fund;
}

abbrev pub store_plan : SeriesId → SettlementPlan → Clearing → Clearing
store_plan series_id plan st = record st {
  settlement_plans = insert series_id plan st.settlement_plans;
}

-- Phase B: a chunk of the accounting, and the fees once it is complete.
unfoldable pub apply_accounting :
    Env → (ℕ → ℕ) → SeriesId → SettlementPlan → Clearing → SettlementPlan × Clearing
apply_accounting env counter series_id plan st =
    let begun = record plan { status = begin_status plan.status } in
    let (newly_applied, (plan', st')) = apply_settlement_accounting_logic env counter begun st in
    (plan', book_fees newly_applied plan' (store_plan series_id plan' st'))

-- Phase C. Where it is not finished the canister arms a timer that calls it again.
unfoldable pub finalise :
    SeriesId → SettlementPlan × Clearing → Reply SettlementError SettleSeriesResult
finalise series_id (plan, st) =
    if plan.accounting_applied
    then done finished (record (store_plan series_id (record plan { status = finalised }) st) {
      series = remove series_id st.series;
    })
    else done processing st

-- Phases B and C, on a plan that was built or resumed.
unfoldable pub drive_plan :
    Env → (ℕ → ℕ) → SeriesId → SettlementPlan → Clearing → Reply SettlementError SettleSeriesResult
drive_plan env counter series_id plan st =
    if is_finalised plan.status
    then done finished st
    else finalise series_id (
        if plan.accounting_applied
        then (plan, st)
        else apply_accounting env counter series_id plan st)

-- A resumed plan must be for the same settlement.
unfoldable pub resume_plan :
    Env
    → (ℕ → ℕ)
    → SeriesId
    → SettlementInput
    → SettlementPlan
    → Clearing
    → Reply SettlementError SettleSeriesResult
resume_plan env counter series_id settlement existing st =
    if is_finalised existing.status
    then done finished st
    else if settlement_beq existing.settlement settlement
    then drive_plan env counter series_id existing st
    else failed (inconsistent_settlement existing.settlement settlement) st

-- A call that goes on after another one has returned a value.
abbrev pub and_then {ℓ κ μ} :
    {E : Type ℓ} {A : Type κ} {B : Type μ} → Reply E A → (A → Clearing → Reply E B) → Reply E B
and_then (done a st) next = next a st
and_then (failed e st) next = failed e st
and_then trapped next = trapped

abbrev pub fee_ratios : Clearing → FeeRatios
fee_ratios st = record {
  insurance_fund_fee_ratio = st.config.insurance_fund_fee_ratio;
  protocol_fee_ratio = st.config.protocol_fee_ratio;
}

-- A new plan needs the series.
unfoldable pub open_plan :
    Option Series
    → Env
    → (ℕ → ℕ)
    → SeriesId
    → SettlementInput
    → Clearing
    → Reply SettlementError SettleSeriesResult
open_plan none env counter series_id settlement st = failed (SettlementError.common unauthorized) st
open_plan (some series) env counter series_id settlement st =
    and_then (prepare_settlement_impl env series series_id settlement (fee_ratios st) st)
      (drive_plan env counter series_id)

-- Phase A, on the plan that exists.
unfoldable pub build_or_resume :
    Option SettlementPlan
    → Env
    → (ℕ → ℕ)
    → SeriesId
    → SettlementInput
    → Clearing
    → Reply SettlementError SettleSeriesResult
build_or_resume (some existing) env counter series_id settlement st =
    resume_plan env counter series_id settlement existing st
build_or_resume none env counter series_id settlement st =
    open_plan (lookup series_id st.series) env counter series_id settlement st

unfoldable pub settle_series_inner :
    Env → (ℕ → ℕ) → SeriesId → SettlementInput → Clearing → Reply SettlementError SettleSeriesResult
settle_series_inner env counter series_id settlement st =
    build_or_resume (lookup series_id st.settlement_plans) env counter series_id settlement st

-- `resume_settlement`, for an administrator.
pub resume_settlement :
    Env → (ℕ → ℕ) → SeriesId → Clearing → Reply SettlementError SettleSeriesResult
unfolding settle_series_inner
resume_settlement env counter series_id st = elim (lookup series_id st.settlement_plans) [
  | none ↦ failed (SettlementError.common (internal plan_not_found)) st
  | some p ↦ settle_series_inner env counter p.series_id p.settlement st
]

-- The plans that `resume_pending_settlements` calls `settle_series_inner` for.
unfoldable pub pending_settlement_params : Clearing → List (SeriesId × SettlementInput)
pending_settlement_params st = pending_plans st.settlement_plans
  where
    pending_plans : Map SeriesId SettlementPlan → List (SeriesId × SettlementInput)
    pending_plans [] = []
    pending_plans ((id, plan) ∷ rest) =
        if is_finalised plan.status
        then pending_plans rest
        else (plan.series_id, plan.settlement) ∷ pending_plans rest

pub get_settlement_status : SeriesId → Clearing → Option SettlementStatusView
unfolding status_view
get_settlement_status series_id st = elim (lookup series_id st.settlement_plans) [
  | none ↦ none
  | some plan ↦ some (status_view plan)
]

pub list_series_settlement_statuses :
    List SeriesId → Clearing → List (SeriesId × Option SettlementStatusView)
unfolding get_settlement_status
list_series_settlement_statuses series_ids st =
    map (λ id. (id, get_settlement_status id st)) series_ids
