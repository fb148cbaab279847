-- ===== src/Settlement/Settle/Completion.antt =====
-- Repeated calls of `settle_series_inner` (src/clearing/src/api/settlement/api.rs), as the timers
-- and the sweep over stalled plans make them, finish the settlement.
use icdc_core.Prelude.{
  ℕ, zero, suc, ◌+◌, ◌≤◌, ◌<◌, ◌≡◌, refl, sym, arith, length, drop, none, some, true, inl, inr,
}
use icdc_core.Prelude.Maps.{nat_key, lookup, lookup-insert, beq_refl}
use icdc_core.Shared.Series.{Series, SeriesId, SettlementInput, settlement_beq, settlement_beq_iff}
use icdc_core.Clearing.Plans.{SettlementPlan, settlement_get_or_create, fresh_settlement_plan}
use icdc_core.Clearing.State.{Clearing, Env, state_after, done}
use icdc_core.Settlement.Accounting.Chunks.{settle_all-take, remaining, drop-drop}
use icdc_core.Settlement.Prepare.{
  FeeRatios, Gathered, plan_params, commit_settlement, cancel_open_limit_orders,
  prepare_settlement_impl,
}
use icdc_core.Settlement.Prepare.Cleared.{prepare_settlement_impl-inversion}
use icdc_core.Settlement.Settle.{
  fee_ratios, open_plan, build_or_resume, resume_plan, apply_accounting, settle_series_inner,
}
use icdc_core.Settlement.Settle.Drive.{
  Underway, Closed, Stepped, settle_series_inner-finalised, settle_series_inner-step,
  settle_series_inner-drives, finalise-total,
}

-- The state after a number of calls, each at its own time and with its own instruction counter.
unfoldable pub settle_again :
    ℕ → (ℕ → Env) → (ℕ → ℕ → ℕ) → SeriesId → SettlementInput → Clearing → Clearing
settle_again zero envs counters series_id i st = st
settle_again (suc k) envs counters series_id i st =
    settle_again k envs counters series_id i
      (state_after st (settle_series_inner (envs k) (counters k) series_id i st))

module _ (envs : ℕ → Env) (counters : ℕ → ℕ → ℕ) (series_id : SeriesId) (i : SettlementInput) where
  -- Calls after the last one change nothing.
  settle_again_kept :
      (k : ℕ) (plan : SettlementPlan) (before st : Clearing)
      → Closed series_id plan before st
      → settle_again k envs counters series_id i st ≡ st
  unfolding settle_again
  settle_again_kept zero plan before st c = refl
  settle_again_kept (suc k) plan before st c =
      rw (settle_series_inner-finalised series_id i (envs k) (counters k) st c.stored c.is_final)
        (settle_again_kept k plan before st c)

  -- A batch and then the rest close the plan as the whole would.
  Stepped-Closed :
      (plan : SettlementPlan) (before mid after : Clearing)
      (s : Stepped series_id i plan before mid)
      → Closed series_id s.next mid after
      → Closed series_id plan before after
  Stepped-Closed plan before mid after s c =
      let left : remaining s.next ≡ drop s.settled (remaining plan) =
        rw (s.cursor, s.positions)
          (sym (drop-drop s.settled plan.accounting_cursor plan.positions)) in
      record {
        final = c.final;
        stored = c.stored;
        is_final = c.is_final;
        delisted = c.delisted;
        accounts =
            rw (c.accounts, s.domain, left, s.accounts)
              (settle_all-take plan.balance_domain s.settled (remaining plan) before.accounts);
        treasury = rw (c.treasury, s.config, s.fee, s.treasury) refl;
        insurance_fund = rw (c.insurance_fund, s.config, s.insurance_fee, s.insurance_fund) refl;
      }

  -- Where a plan is under way, as many calls as there are positions left, and at least one, close
  -- it: each position that is left is settled once, the fees are credited once, and the series is
  -- delisted.
  pub settle_again-Closed :
      (k : ℕ) (plan : SettlementPlan) (st : Clearing)
      → Underway series_id i plan st
      → 0 < k
      → length plan.positions ≤ plan.accounting_cursor + k
      → Closed series_id plan st (settle_again k envs counters series_id i st)
  unfolding settle_again
  settle_again-Closed zero plan st u more enough = absurd (omega (arith, more))
  settle_again-Closed (suc k) plan st u more enough =
      let next = state_after st (settle_series_inner (envs k) (counters k) series_id i st) in
      elim (settle_series_inner-step series_id i (envs k) (counters k) plan st u) [
        | inl closed ↦ rw (settle_again_kept k plan st next closed) closed
        | inr s ↦
            let enough' : length s.next.positions ≤ s.next.accounting_cursor + k =
              rw (s.positions, s.cursor) (omega (arith, enough, s.advances)) in
            Stepped-Closed plan st next (settle_again k envs counters series_id i next) s (
              settle_again-Closed k s.next next s.underway (omega (arith, s.left, enough')) enough')
      ]

module _ (env : Env) (ser : Series) (series_id : SeriesId) (i : SettlementInput)
    (st : Clearing) where
  commit_settlement-Underway :
      (g : Gathered)
      → lookup series_id st.settlement_plans ≡ none
      → Underway series_id i
          (commit_settlement env ser series_id i st g).0
          (commit_settlement env ser series_id i st g).1
  unfolding commit_settlement cancel_open_limit_orders settlement_get_or_create
  commit_settlement-Underway g absent =
      let opened = fresh_settlement_plan (plan_params ser series_id i g) env.now in
      rw absent (record {
        stored =
            rw (lookup-insert series_id series_id opened st.settlement_plans, beq_refl series_id)
              refl;
        unfinished = refl;
        same = refl;
        unapplied = refl;
        in_range = omega arith;
      })

  -- A plan that was just prepared is under way.
  prepare_settlement_impl-Underway :
      {plan : SettlementPlan} {st' : Clearing} (fees : FeeRatios)
      → lookup series_id st.settlement_plans ≡ none
      → prepare_settlement_impl env ser series_id i fees st ≡ done plan st'
      → Underway series_id i plan st'
  prepare_settlement_impl-Underway fees absent h =
      let (g, _, _, p, e) = prepare_settlement_impl-inversion env ser series_id i fees st h in
      rw (p, e) (commit_settlement-Underway g absent)

  -- The first call prepares the plan and goes on like a call that resumes it.
  settle_series_inner-opens :
      (counter : ℕ → ℕ) {plan : SettlementPlan} {st' : Clearing}
      → lookup series_id st.settlement_plans ≡ none
      → lookup series_id st.series ≡ some ser
      → prepare_settlement_impl env ser series_id i (fee_ratios st) st ≡ done plan st'
      → settle_series_inner env counter series_id i st
        ≡ settle_series_inner env counter series_id i st'
  unfolding settle_series_inner build_or_resume open_plan resume_plan
  settle_series_inner-opens counter {plan} {st'} absent listed h =
      let u = prepare_settlement_impl-Underway (fee_ratios st) absent h in
      let agrees : settlement_beq plan.settlement i ≡ true =
        (settlement_beq_iff plan.settlement i).1 u.same in
      rw (absent, listed, h, u.stored, u.unfinished, agrees) refl

module _ (envs : ℕ → Env) (counters : ℕ → ℕ → ℕ) (ser : Series) (series_id : SeriesId)
    (i : SettlementInput) (st : Clearing) where
  -- Where a listed series has no plan and its settlement can be prepared, as many calls as it has
  -- positions, and at least one, close the plan: each position is settled once, the fees are
  -- credited once, and the series is delisted.
  pub settle_again-settles :
      (k : ℕ) {plan : SettlementPlan} {st' : Clearing}
      → lookup series_id st.settlement_plans ≡ none
      → lookup series_id st.series ≡ some ser
      → prepare_settlement_impl (envs k) ser series_id i (fee_ratios st) st ≡ done plan st'
      → length plan.positions ≤ suc k
      → Closed series_id plan st' (settle_again (suc k) envs counters series_id i st)
  unfolding settle_again
  settle_again-settles k {plan} {st'} absent listed h enough =
      let u =
        prepare_settlement_impl-Underway (envs k) ser series_id i st (fee_ratios st) absent h in
      let opens =
        settle_series_inner-opens (envs k) ser series_id i st (counters k) absent listed h in
      let closed =
        settle_again-Closed envs counters series_id i (suc k) plan st' u (omega arith)
          (omega (arith, enough)) in
      let driven = settle_series_inner-drives series_id i (envs k) (counters k) plan st' u in
      let booked = apply_accounting (envs k) (counters k) series_id plan st' in
      let same = finalise-total series_id booked.0 st' st booked.1 in
      let final : state_after st (settle_series_inner (envs k) (counters k) series_id i st)
          ≡ state_after st' (settle_series_inner (envs k) (counters k) series_id i st') =
        rw (opens, driven) (sym same) in
      rw final closed
