-- ===== src/Settlement/Settle/Drive.antt =====
-- The calls of `settle_series_inner` that drive a plan to its end
-- (src/clearing/src/api/settlement/api.rs).
use icdc_core.Prelude.{
  ℕ, ◌+◌, ◌≤◌, ◌<◌, ◌≡◌, ◌≢◌, refl, ap, ◌∙◌, true, false, none, some, arith, ◌==◌, length, take,
  Bool-cases, inl, inr, ◌⊎◌,
}
use icdc_core.Prelude.Maps.{nat_key, lookup, remove, lookup-insert, lookup-remove, beq_refl}
use icdc_core.Shared.Series.{SeriesId, SettlementInput, settlement_beq, settlement_beq_iff}
use icdc_core.Clearing.Errors.{inconsistent_settlement}
use icdc_core.Clearing.Plans.{
  PlanStatus, planned, executing, finalised, is_finalised, SettlementPlan,
}
use icdc_core.Clearing.State.{Clearing, Env, done, failed, state_after}
use icdc_core.Settlement.Accounting.Chunks.{
  settle_all, remaining, result, length-drop, Chunk, take-length,
  apply_settlement_accounting_logic-Chunk, apply_settlement_accounting_logic-Kept,
}
use icdc_core.Settlement.Settle.{
  finished, credit, begin_status, store_plan, book_fees, apply_accounting, finalise, drive_plan,
  resume_plan, build_or_resume, settle_series_inner,
}

-- A plan for the series that is under way in a state.
pub record Underway (series_id : SeriesId) (i : SettlementInput) (plan : SettlementPlan)
    (st : Clearing) : Type 0 where
  pub stored : lookup series_id st.settlement_plans ≡ some plan
  pub unfinished : is_finalised plan.status ≡ false
  pub same : plan.settlement ≡ i
  pub unapplied : plan.accounting_applied ≡ false
  pub in_range : plan.accounting_cursor ≤ length plan.positions

-- The whole accounting of the plan was booked on `before`, once, and the plan is closed in `after`.
pub record Closed (series_id : SeriesId) (plan : SettlementPlan) (before after : Clearing)
    : Type 0 where
  pub final : SettlementPlan
  pub stored : lookup series_id after.settlement_plans ≡ some final
  pub is_final : is_finalised final.status ≡ true
  pub delisted : lookup series_id after.series ≡ none
  pub accounts : after.accounts ≡ settle_all plan.balance_domain (remaining plan) before.accounts
  pub treasury :
      after.treasury ≡ credit before.config.internal_asset_id plan.fee_usd before.treasury
  pub insurance_fund :
      after.insurance_fund
      ≡ credit before.config.internal_asset_id plan.insurance_fee_usd before.insurance_fund

-- One more batch: nothing but the accounts of the first `settled` positions was booked.
pub record Stepped (series_id : SeriesId) (i : SettlementInput) (plan : SettlementPlan)
    (before after : Clearing) : Type 0 where
  pub next : SettlementPlan
  pub settled : ℕ
  pub advances : 0 < settled
  pub underway : Underway series_id i next after
  pub cursor : next.accounting_cursor ≡ plan.accounting_cursor + settled
  pub left : next.accounting_cursor < length next.positions
  pub positions : next.positions ≡ plan.positions
  pub domain : next.balance_domain ≡ plan.balance_domain
  pub fee : next.fee_usd ≡ plan.fee_usd
  pub insurance_fee : next.insurance_fee_usd ≡ plan.insurance_fee_usd
  pub accounts :
      after.accounts
      ≡ settle_all plan.balance_domain (take settled (remaining plan)) before.accounts
  pub treasury : after.treasury ≡ before.treasury
  pub insurance_fund : after.insurance_fund ≡ before.insurance_fund
  pub config : after.config ≡ before.config

module _ (series_id : SeriesId) (i : SettlementInput) where
  -- A plan that is finalised makes a call, for whatever settlement, a success that changes nothing.
  pub settle_series_inner-finalised :
      (env : Env) (counter : ℕ → ℕ) {plan : SettlementPlan} (st : Clearing)
      → lookup series_id st.settlement_plans ≡ some plan
      → is_finalised plan.status ≡ true
      → settle_series_inner env counter series_id i st ≡ done finished st
  unfolding settle_series_inner build_or_resume resume_plan
  settle_series_inner-finalised env counter st stored final = rw (stored, final) refl

  -- A plan that is not finalised refuses another settlement, and nothing changes.
  settle_series_inner-inconsistent :
      (env : Env) (counter : ℕ → ℕ) {plan : SettlementPlan} (st : Clearing)
      → lookup series_id st.settlement_plans ≡ some plan
      → is_finalised plan.status ≡ false
      → plan.settlement ≢ i
      → settle_series_inner env counter series_id i st
        ≡ failed (inconsistent_settlement plan.settlement i) st
  unfolding settle_series_inner build_or_resume resume_plan
  settle_series_inner-inconsistent env counter {plan} st stored under other =
      let differs : settlement_beq plan.settlement i ≡ false =
        ground (arith, settlement_beq_iff plan.settlement i) in
      rw (stored, under, differs) refl

  pub settle_series_inner-drives :
      (env : Env) (counter : ℕ → ℕ) (plan : SettlementPlan) (st : Clearing)
      → Underway series_id i plan st
      → settle_series_inner env counter series_id i st
        ≡ finalise series_id (apply_accounting env counter series_id plan st)
  unfolding settle_series_inner build_or_resume resume_plan drive_plan
  settle_series_inner-drives env counter plan st u =
      let agrees : settlement_beq plan.settlement i ≡ true =
        (settlement_beq_iff plan.settlement i).1 u.same in
      rw (u.stored, u.unfinished, agrees, u.unapplied) refl

begin_status-open :
    (s : PlanStatus) → is_finalised s ≡ false → is_finalised (begin_status s) ≡ false
begin_status-open planned h = refl
begin_status-open executing h = refl
begin_status-open finalised h = h

module _ (series_id : SeriesId) where
  -- Phase C does not trap.
  pub finalise-total :
      (plan : SettlementPlan) (a b st : Clearing)
      → state_after a (finalise series_id (plan, st))
        ≡ state_after b (finalise series_id (plan, st))
  unfolding finalise
  finalise-total plan a b st = elim (Bool-cases plan.accounting_applied) [
    | inl e ↦ rw e refl
    | inr e ↦ rw e refl
  ]

  finalise-applied :
      (plan : SettlementPlan) (before st : Clearing)
      → plan.accounting_applied ≡ true
      → state_after before (finalise series_id (plan, st))
        ≡ (record (store_plan series_id (record plan { status = finalised }) st) {
          series = remove series_id st.series;
        })
  unfolding finalise
  finalise-applied plan before st e = rw e refl

  finalise-unapplied :
      (plan : SettlementPlan) (before st : Clearing)
      → plan.accounting_applied ≡ false
      → state_after before (finalise series_id (plan, st)) ≡ st
  unfolding finalise
  finalise-unapplied plan before st e = rw e refl

module _ (series_id : SeriesId) (i : SettlementInput) (env : Env) (counter : ℕ → ℕ)
    (plan : SettlementPlan) (st : Clearing) where
  abbrev begun : SettlementPlan
  begun = record plan { status = begin_status plan.status }

  abbrev plan' : SettlementPlan
  plan' = (result env counter begun st).1.0

  abbrev st' : Clearing
  st' = store_plan series_id plan' (result env counter begun st).1.1

  -- The last batch closes the plan.
  step_complete :
      (chunk : Chunk env counter begun st)
      → (result env counter begun st).0 ≡ true
      → plan.accounting_cursor + chunk.settled ≡ length plan.positions
      → Closed series_id plan st
          (state_after st (finalise series_id (apply_accounting env counter series_id plan st)))
  unfolding apply_accounting book_fees
  step_complete chunk newly complete =
      let kept = apply_settlement_accounting_logic-Kept env counter begun st in
      let applied : plan'.accounting_applied ≡ true = rw (chunk.applied, newly) refl in
      let e = finalise-applied series_id plan' st (book_fees true plan' st') applied in
      let whole : chunk.settled ≡ length (remaining plan) =
        omega (arith, length-drop plan.accounting_cursor plan.positions, complete) in
      rw (newly, e)
        (record {
          final = record plan' { status = finalised };
          stored =
              rw
                (
                  lookup-insert series_id series_id (record plan' { status = finalised })
                      st'.settlement_plans,
                  beq_refl series_id,
                )
                refl;
          is_final = refl;
          delisted = rw (lookup-remove series_id series_id st'.series, beq_refl series_id) refl;
          accounts =
              chunk.accounts
              ∙ ap (λ ps. settle_all plan.balance_domain ps st.accounts)
                  (take-length chunk.settled (remaining plan) whole);
          treasury = rw (kept.config, kept.fee, kept.treasury) refl;
          insurance_fund = rw (kept.config, kept.insurance_fee, kept.insurance_fund) refl;
        })

  -- Any other batch leaves the plan under way.
  step_more :
      (chunk : Chunk env counter begun st)
      → Underway series_id i plan st
      → (result env counter begun st).0 ≡ false
      → plan.accounting_cursor + chunk.settled ≢ length plan.positions
      → Stepped series_id i plan st
          (state_after st (finalise series_id (apply_accounting env counter series_id plan st)))
  unfolding apply_accounting book_fees
  step_more chunk u newly more =
      let kept = apply_settlement_accounting_logic-Kept env counter begun st in
      let unapplied : plan'.accounting_applied ≡ false = rw (chunk.applied, newly) u.unapplied in
      let e = finalise-unapplied series_id plan' st (book_fees false plan' st') unapplied in
      let range : plan.accounting_cursor + chunk.settled ≤ length plan.positions =
        omega
          (arith, length-drop plan.accounting_cursor plan.positions, chunk.within, u.in_range) in
      rw (newly, e)
        (record {
          next = plan';
          settled = chunk.settled;
          advances = chunk.advances (omega (arith, range, more));
          underway = record {
            stored =
                rw
                  (
                    lookup-insert series_id series_id plan'
                        (result env counter begun st).1.1.settlement_plans,
                    beq_refl series_id,
                  )
                  refl;
            unfinished = rw kept.status (begin_status-open plan.status u.unfinished);
            same = kept.settlement ∙ u.same;
            unapplied = unapplied;
            in_range = rw (chunk.cursor, kept.positions) range;
          };
          cursor = chunk.cursor;
          left = rw (chunk.cursor, kept.positions) (omega (arith, range, more));
          positions = kept.positions;
          domain = kept.domain;
          fee = kept.fee;
          insurance_fee = kept.insurance_fee;
          accounts = chunk.accounts;
          treasury = kept.treasury;
          insurance_fund = kept.insurance_fund;
          config = kept.config;
        })

  -- One call on a plan that is under way closes it or makes progress.
  pub settle_series_inner-step :
      Underway series_id i plan st
      → let after = state_after st (settle_series_inner env counter series_id i st) in
        Closed series_id plan st after ⊎ Stepped series_id i plan st after
  settle_series_inner-step u =
      let chunk = apply_settlement_accounting_logic-Chunk env counter begun st in
      let reach = plan.accounting_cursor + chunk.settled in
      rw (settle_series_inner-drives series_id i env counter plan st u)
        (elim (Bool-cases (reach == length plan.positions)) [
          | inl complete ↦
              let newly : (result env counter begun st).0 ≡ true =
                rw (chunk.completes, complete, u.unapplied) refl in
              inl (step_complete chunk newly (ground arith))
          | inr more ↦
              let newly : (result env counter begun st).0 ≡ false =
                rw (chunk.completes, more) refl in
              inr (step_more chunk u newly (ground arith))
        ])
