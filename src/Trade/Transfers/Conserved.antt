-- ===== src/Trade/Transfers/Conserved.antt =====
-- A position that moves between two clearing canisters (src/clearing/src/api/trade/api.rs,
-- src/clearing/src/utils/series.rs).
use icdc_core.Prelude.{
  ℕ, ◌≡◌, refl, ◌∙◌, sym, ap, inl, inr, Bool, true, false, Option, none, some, arith,
}
use icdc_core.Prelude.Int.{pos}
use icdc_core.Prelude.Words.{add_i128}
use icdc_core.Prelude.Maps.{
  nat_key, lookup, insert, lookup-insert, lookup-remove, contains_key, contains_key-insert,
  beq_refl,
}
use icdc_core.Prelude.Results.{ok_or}
use icdc_core.Shared.Price.{Price}
use icdc_core.Shared.Series.{Series, SeriesId}
use icdc_core.Margin.{Position, position_key}
use icdc_core.Clearing.Errors.{TradeError, internal, no_valuation_price}
use icdc_core.Clearing.Orders.{PositionProof}
use icdc_core.Clearing.State.{
  Clearing, Env, Reply, done, failed, trapped, proceed-eq-done, done-injective, failed-ne-done,
  proceed-eq-failed, done-ne-failed,
}
use icdc_core.Trade.Access.{
  SeriesAccess, acquire, revalidate, check_window, assert_series_not_settled, reduce_exposure,
}
use icdc_core.Trade.Execute.{position_or_new}
use icdc_core.Trade.Registered.{
  GetSeries, ensure_series_registered, cached_or_fetched, fetch_series, continue,
}
use icdc_core.Trade.Transfers.{
  FreezePositionForTransferParams, frozen_key, proof_of, freeze_now, freeze_once,
  freeze_position_for_transfer, proof_key, or_strike, received, receive, resume_accept,
  accept_position_transfer, accept_now, with_quantity, with_transfer, transfer_margin,
}

continue-eq-done {ℓ κ μ} :
    {E : Type ℓ} {A : Type κ} {B : Type μ} (r : Reply E A) (next : A → Clearing → Reply E B) {b : B}
    {st' : Clearing}
    → continue r next ≡ done b st'
    → (a : A) × (between : Clearing) × (r ≡ done a between) × (next a between ≡ done b st')
continue-eq-done (done a st) next h = (a, st, refl, h)
continue-eq-done (failed e st) next h = absurd (failed-ne-done h)
continue-eq-done trapped next h = absurd (ground arith)

cached-frame :
    (cached : Option Series) (registry : Option GetSeries) (series_id : SeriesId) (st : Clearing)
    {s : Series} {st' : Clearing}
    → cached_or_fetched cached registry series_id st ≡ done s st'
    → st' ≡ record st { series = st'.series }
unfolding cached_or_fetched
cached-frame (some series) registry series_id st h =
    let same = (done-injective h).1 in rw (← same) refl
cached-frame none registry series_id st h =
    let (s, fetched, h1) = proceed-eq-done (fetch_series registry series_id) st _ h in
    let same = (done-injective h1).1 in rw (← same) refl

-- Getting hold of a series writes the cache of series only.
pub ensure_series_registered-frame :
    (registry : Option GetSeries) (env : Env) (access : SeriesAccess) (series_id : SeriesId)
    (st : Clearing) {s : Series} {st' : Clearing}
    → ensure_series_registered registry env access series_id st ≡ done s st'
    → st' ≡ record st { series = st'.series }
unfolding ensure_series_registered
ensure_series_registered-frame registry env access series_id st {s} {st'} h =
    let (ungated, passed, h1) = proceed-eq-done (assert_series_not_settled series_id st) st _ h in
    let (series, between, found, h2) =
      continue-eq-done (cached_or_fetched (lookup series_id st.series) registry series_id st) _
        h1 in
    let (inside, open_now, h3) =
      proceed-eq-done (check_window access series env.now) between _ h2 in
    let same : between ≡ st' = (done-injective h3).1 in
    rw (← same) (cached-frame (lookup series_id st.series) registry series_id st found)

-- What an accepted transfer leaves.
receive_lem :
    (proof : PositionProof) (series : Series) (price : Price) (st : Clearing) {r : Bool}
    {st' : Clearing}
    → receive proof series price st ≡ done r st'
    → ((position_or_new st'.positions (proof_key proof)).net_qty
        ≡ add_i128 (position_or_new st.positions (proof_key proof)).net_qty proof.qty)
      × (st'.accepted_transfers ≡ insert proof.transfer_id true st.accepted_transfers)
unfolding receive
receive_lem proof series price st {st'} h =
    let (margin, computed, h1) =
      proceed-eq-done (transfer_margin proof series price st) (with_quantity proof st) _ h in
    let same : with_transfer proof series margin st ≡ st' = (done-injective h1).1 in
    rw (← same) (
      rw
          (
            lookup-insert (proof_key proof) (proof_key proof)
                (received proof (position_or_new st.positions (proof_key proof)) margin)
                st.positions,
            beq_refl (proof_key proof),
          )
          refl,
      refl,
    )

-- A transfer whose margin cannot be computed fails, and is not marked as accepted, but the
-- quantity stays on the receiving position, with the margin and the account as they were.
pub receive-failed :
    (proof : PositionProof) (series : Series) (price : Price) (st : Clearing) {e : TradeError}
    {st' : Clearing}
    → receive proof series price st ≡ failed e st'
    → ((position_or_new st'.positions (proof_key proof)).net_qty
        ≡ add_i128 (position_or_new st.positions (proof_key proof)).net_qty proof.qty)
      × ((position_or_new st'.positions (proof_key proof)).reserved_margin_usd
          ≡ (position_or_new st.positions (proof_key proof)).reserved_margin_usd)
      × (st' ≡ record st { positions = st'.positions })
unfolding receive
receive-failed proof series price st {st'} h =
    elim (proceed-eq-failed (transfer_margin proof series price st) (with_quantity proof st) _ h) [
      | inl (failure, same) ↦ rw same (
          rw
            (
              lookup-insert (proof_key proof) (proof_key proof)
                  (received proof (position_or_new st.positions (proof_key proof))
                    (position_or_new st.positions (proof_key proof)).reserved_margin_usd)
                  st.positions,
              beq_refl (proof_key proof),
            )
            (refl, refl, refl))
      | inr (margin, computed, h1) ↦ absurd (done-ne-failed h1)
    ]

resume_lem :
    (proof : PositionProof) (generation : ℕ) (series : Series) (st : Clearing) {r : Bool}
    {st' : Clearing}
    → resume_accept proof generation series st ≡ done r st'
    → ((position_or_new st'.positions (proof_key proof)).net_qty
        ≡ add_i128 (position_or_new st.positions (proof_key proof)).net_qty proof.qty)
      × (st'.accepted_transfers ≡ insert proof.transfer_id true st.accepted_transfers)
unfolding resume_accept
resume_lem proof generation series st h =
    let (checked, _, h1) = proceed-eq-done (revalidate proof.user generation st) st _ h in
    let (price, _, h2) =
      proceed-eq-done
        (ok_or (or_strike proof.valuation_price series.strike)
          (TradeError.common (internal no_valuation_price)))
        st _ h1 in
    receive_lem proof series price st h2

accept_now_lem :
    (registry : Option GetSeries) (env : Env) (proof : PositionProof) (st : Clearing) {r : Bool}
    {st' : Clearing}
    → accept_now registry env proof st ≡ done r st'
    → ((position_or_new st'.positions (proof_key proof)).net_qty
        ≡ add_i128 (position_or_new st.positions (proof_key proof)).net_qty proof.qty)
      × (contains_key proof.transfer_id st'.accepted_transfers ≡ true)
unfolding accept_now
accept_now_lem registry env proof st h =
    let (generation, _, h1) = proceed-eq-done (acquire proof.user st) st _ h in
    let (series, between, found, h2) =
      continue-eq-done (ensure_series_registered registry env reduce_exposure proof.series_id st) _
        h1 in
    let framed =
      ensure_series_registered-frame registry env reduce_exposure proof.series_id st found in
    let (moved, marked) = resume_lem proof generation series between h2 in
    (
      moved
          ∙ ap
              (λ (s : Clearing).
                add_i128 (position_or_new s.positions (proof_key proof)).net_qty proof.qty)
              framed,
      rw
          (
            marked,
            contains_key-insert proof.transfer_id proof.transfer_id true between.accepted_transfers,
            beq_refl proof.transfer_id,
          )
          refl,
    )

-- The state and the proof of a freeze.
freeze_now_lem :
    (found : Option Position) (env : Env) (p : FreezePositionForTransferParams) (st : Clearing)
    {proof : PositionProof} {st' : Clearing}
    → freeze_now found env p st ≡ (some proof, st')
    → (position : Position) × (found ≡ some position)
      × (proof_of env p position ≡ proof)
      × (lookup (frozen_key p) st'.positions ≡ none)
      × (lookup p.transfer_id st'.frozen_transfers ≡ some proof)
unfolding freeze_now
freeze_now_lem none env p st {proof} {st'} h =
    let absent : ◌≡◌ {A = Option PositionProof} none (some proof) =
      ap (λ (x : Option PositionProof × Clearing). x.0) h in
    absurd (ground (arith, absent))
freeze_now_lem (some position) env p st {proof} {st'} h =
    let written = ap (λ (x : Option PositionProof × Clearing). x.1) h in
    let issued : ◌≡◌ {A = Option PositionProof} (some (proof_of env p position)) (some proof) =
      ap (λ (x : Option PositionProof × Clearing). x.0) h in
    (
      position,
      refl,
      cc,
      rw (← written) (
          rw (lookup-remove (frozen_key p) (frozen_key p) st.positions, beq_refl (frozen_key p))
            refl),
      rw (← written) (
          rw
            (
              lookup-insert p.transfer_id p.transfer_id (proof_of env p position)
                  st.frozen_transfers,
              beq_refl p.transfer_id,
            )
            issued),
    )

-- When a position is frozen under a new transfer id in one canister, and its proof is accepted for
-- the first time by another one, the quantity of the position leaves the first canister, and the
-- second canister's position of the same user, series and outcome grows by it, as an `i128`.
-- Freezing again returns the same proof, accepting again returns at once, and neither changes its
-- canister.
pub accept_position_transfer-freeze_position_for_transfer :
    (registry later_registry : Option GetSeries) (env env' later : Env)
    (p : FreezePositionForTransferParams) (source target : Clearing) {proof : PositionProof}
    {source' target' : Clearing} {r : Bool}
    → lookup p.transfer_id source.frozen_transfers ≡ none
    → freeze_position_for_transfer env p source ≡ (some proof, source')
    → contains_key p.transfer_id target.accepted_transfers ≡ false
    → accept_position_transfer registry env' proof target ≡ done r target'
    → ((position_or_new source'.positions (frozen_key p)).net_qty ≡ pos 0)
      × ((position_or_new target'.positions (frozen_key p)).net_qty
          ≡ add_i128
              (position_or_new target.positions (frozen_key p)).net_qty
              (position_or_new source.positions (frozen_key p)).net_qty)
      × (freeze_position_for_transfer later p source' ≡ (some proof, source'))
      × (accept_position_transfer later_registry later proof target' ≡ done true target')
unfolding accept_position_transfer freeze_position_for_transfer freeze_once
accept_position_transfer-freeze_position_for_transfer registry later_registry env env' later p
      source target {proof} {source'} {target'} fresh frozen new h =
    let first : freeze_position_for_transfer env p source
        ≡ freeze_now (lookup (frozen_key p) source.positions) env p source =
      rw fresh refl in
    let (position, held, issued, gone, kept) =
      freeze_now_lem (lookup (frozen_key p) source.positions) env p source (sym first ∙ frozen) in
    let id : proof.transfer_id ≡ p.transfer_id =
      ap (λ (q : PositionProof). q.transfer_id) (sym issued) in
    let opened : accept_position_transfer registry env' proof target
        ≡ accept_now registry env' proof target =
      rw (id, new) refl in
    let (moved, marked) =
      accept_now_lem registry env' (proof_of env p position) target
        (ap (λ (q : PositionProof). accept_now registry env' q target) issued ∙ sym opened ∙ h) in
    (rw gone refl, rw held moved, rw kept refl, rw (id, marked) refl)
