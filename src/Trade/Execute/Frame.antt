-- ===== src/Trade/Execute/Frame.antt =====
-- What an executed trade does to the two parties' positions and accounts, and to nobody else's.
use icdc_core.Prelude.{
  ◌≡◌, ◌≢◌, sym, ap, ◌∙◌, Bool, true, false, Option, arith, ◌==◌, Bool-cases, inl, inr,
}
use icdc_core.Prelude.Words.{add_i128, sub_i128}
use icdc_core.Prelude.Maps.{nat_key, lookup, contains_key}
use icdc_core.Prelude.Results.{ok}
use icdc_core.Shared.Series.{Series, SeriesId, OutcomeId}
use icdc_core.Margin.{
  User, PositionKey, position_key, AccountState, unwrap_or, new_account, get_cash_balance_usd,
  get_reserved_margin_usd,
}
use icdc_core.Payoffs.{get_required_margin}
use icdc_core.Trade.Execute.Updates.{
  update_position_self, update_position_ne, cash_of, reserved_of, update_party_cash,
  update_party_reserved, update_party_ne,
}
use icdc_core.Trade.Execute.Inversion.{trade_deltas-Computed}
use icdc_core.Clearing.Errors.{TradeError}
use icdc_core.Clearing.Orders.{ExecuteTradeParams}
use icdc_core.Clearing.State.{
  Clearing, Env, done, failed, proceed, proceed-eq-done, proceed-eq-failed, done-injective,
  failed-injective, failed-ne-done, done-ne-failed,
}
use icdc_core.Trade.Execute.{
  position_or_new, empty_position, buyer_key, seller_key, TradeDeltas, trade_deltas,
  change_reserved, validate_trade, update_party, update_position, commit_trade, execute_trade_impl,
}

-- An executed trade went through both computations, and left the state that the second one wrote.
pub execute_trade_impl-inversion :
    (env : Env) (s : Series) (p : ExecuteTradeParams) (st : Clearing) {b : Bool} {st' : Clearing}
    → contains_key p.trade_id st.executed_trades ≡ false
    → execute_trade_impl env s p st ≡ done b st'
    → (d : TradeDeltas) × (trade_deltas st s p ≡ ok d)
      × (validate_trade st s p d ≡ ok tt)
      × (st' ≡ commit_trade env s p d st)
      × (p.buyer ≢ p.seller)
unfolding execute_trade_impl
execute_trade_impl-inversion env s p st fresh h =
    let deltas = trade_deltas st s p in
    elim (Bool-cases (p.buyer == p.seller)) [
      | inl same ↦ absurd (failed-ne-done (rw (fresh, same) at h))
      | inr other ↦
          let (d, computed, checked) =
            proceed-eq-done deltas st
              (λ d.
                proceed (validate_trade st s p d) st (λ _. done true (commit_trade env s p d st)))
              (rw (fresh, other) at h) in
          let (_, valid, final) =
            proceed-eq-done (validate_trade st s p d) st
              (λ _. done true (commit_trade env s p d st)) checked in
          (d, computed, valid, sym (done-injective final).1, ground arith)
    ]

-- A trade that is refused changes nothing.
pub execute_trade_impl-atomic :
    (env : Env) (s : Series) (p : ExecuteTradeParams) (st : Clearing) {e : TradeError}
    {st' : Clearing}
    → execute_trade_impl env s p st ≡ failed e st'
    → st' ≡ st
unfolding execute_trade_impl
execute_trade_impl-atomic env s p st h =
    elim (Bool-cases (contains_key p.trade_id st.executed_trades)) [
      | inl old ↦ absurd (done-ne-failed (rw old at h))
      | inr fresh ↦ elim (Bool-cases (p.buyer == p.seller)) [
        | inl same ↦ sym (failed-injective (rw (fresh, same) at h)).1
        | inr other ↦
            elim (proceed-eq-failed (trade_deltas st s p) st
              (λ d.
                proceed (validate_trade st s p d) st (λ _. done true (commit_trade env s p d st)))
              (rw (fresh, other) at h)) [
                | inl (_, kept) ↦ kept
                | inr (d, _, later) ↦
                    elim (proceed-eq-failed (validate_trade st s p d) st
                      (λ _. done true (commit_trade env s p d st)) later) [
                        | inl (_, kept) ↦ kept
                        | inr (_, _, final) ↦ absurd (done-ne-failed final)
                      ]
              ]
      ]
    ]

-- The keys of two different users differ.
key-ne-key :
    (a b : User) (x : SeriesId × Option OutcomeId) → a ≢ b → ◌≢◌ {A = PositionKey} (a, x) (b, x)
key-ne-key a b x other e = other (ap (λ k. k.0) e)

module _ (env : Env) (s : Series) (p : ExecuteTradeParams) (d : TradeDeltas) (st : Clearing)
    (other : p.buyer ≢ p.seller) where
  commit_trade-positions :
      let before_b = position_or_new st.positions (buyer_key p) in
      let before_s = position_or_new st.positions (seller_key p) in
      let after = (commit_trade env s p d st).positions in
      ((position_or_new after (buyer_key p)).net_qty ≡ add_i128 before_b.net_qty p.qty)
      × ((position_or_new after (seller_key p)).net_qty ≡ sub_i128 before_s.net_qty p.qty)
      × ((position_or_new after (buyer_key p)).reserved_margin_usd ≡ d.new_buyer_margin_usd)
      × ((position_or_new after (seller_key p)).reserved_margin_usd ≡ d.new_seller_margin_usd)
      × ((k : PositionKey)
          → buyer_key p ≢ k
          → seller_key p ≢ k
          → lookup k after ≡ lookup k st.positions)
  unfolding commit_trade
  commit_trade-positions =
      let bk = buyer_key p in
      let sk = seller_key p in
      let bought = update_position bk (λ q. add_i128 q p.qty) d.new_buyer_margin_usd st.positions in
      let b = update_position_self bk (λ q. add_i128 q p.qty) d.new_buyer_margin_usd st.positions in
      let t = update_position_self sk (λ q. sub_i128 q p.qty) d.new_seller_margin_usd bought in
      let keep_b =
        update_position_ne sk (λ q. sub_i128 q p.qty) d.new_seller_margin_usd bought bk
          (key-ne-key p.seller p.buyer (p.series_id, p.outcome_id) (λ e. other (sym e))) in
      let keep_s =
        update_position_ne bk (λ q. add_i128 q p.qty) d.new_buyer_margin_usd st.positions sk
          (key-ne-key p.buyer p.seller (p.series_id, p.outcome_id) other) in
      (
        ap (λ o. (unwrap_or o (empty_position bk)).net_qty) keep_b ∙ b.0,
        t.0 ∙ ap (λ o. sub_i128 (unwrap_or o (empty_position sk)).net_qty p.qty) keep_s,
        ap (λ o. (unwrap_or o (empty_position bk)).reserved_margin_usd) keep_b ∙ b.1,
        t.1,
        λ k nb ns.
            update_position_ne sk (λ q. sub_i128 q p.qty) d.new_seller_margin_usd bought k ns
            ∙ update_position_ne bk (λ q. add_i128 q p.qty) d.new_buyer_margin_usd st.positions k
                nb,
      )

  pub commit_trade-accounts :
      let domain = s.balance_domain in
      let after = (commit_trade env s p d st).accounts in
      (cash_of after p.buyer domain
        ≡ sub_i128 (cash_of st.accounts p.buyer domain) d.buyer_cash_delta)
      × (cash_of after p.seller domain
          ≡ sub_i128 (cash_of st.accounts p.seller domain) d.seller_cash_delta)
      × (reserved_of after p.buyer domain
          ≡ change_reserved (reserved_of st.accounts p.buyer domain) d.buyer_reserved_delta)
      × (reserved_of after p.seller domain
          ≡ change_reserved (reserved_of st.accounts p.seller domain) d.seller_reserved_delta)
      × ((v : User) → p.buyer ≢ v → p.seller ≢ v → lookup v after ≡ lookup v st.accounts)
  unfolding commit_trade
  commit_trade-accounts =
      let domain = s.balance_domain in
      let paid =
        update_party domain p.buyer d.buyer_cash_delta d.buyer_reserved_delta st.accounts in
      let keep_b =
        update_party_ne domain p.seller d.seller_cash_delta d.seller_reserved_delta paid p.buyer
          (λ e. other (sym e)) in
      let keep_s =
        update_party_ne domain p.buyer d.buyer_cash_delta d.buyer_reserved_delta st.accounts
          p.seller other in
      let cash_in = λ (u : User) (o : Option AccountState).
        get_cash_balance_usd (unwrap_or o (new_account u)) domain in
      let reserved_in = λ (u : User) (o : Option AccountState).
        get_reserved_margin_usd (unwrap_or o (new_account u)) domain in
      (
        ap (cash_in p.buyer) keep_b
            ∙ update_party_cash domain p.buyer d.buyer_cash_delta d.buyer_reserved_delta
                st.accounts,
        update_party_cash domain p.seller d.seller_cash_delta d.seller_reserved_delta paid
            ∙ ap (λ o. sub_i128 (cash_in p.seller o) d.seller_cash_delta) keep_s,
        ap (reserved_in p.buyer) keep_b
            ∙ update_party_reserved domain p.buyer d.buyer_cash_delta d.buyer_reserved_delta
                st.accounts,
        update_party_reserved domain p.seller d.seller_cash_delta d.seller_reserved_delta paid
            ∙ ap (λ o. change_reserved (reserved_in p.seller o) d.seller_reserved_delta) keep_s,
        λ v nb ns.
            update_party_ne domain p.seller d.seller_cash_delta d.seller_reserved_delta paid v ns
            ∙ update_party_ne domain p.buyer d.buyer_cash_delta d.buyer_reserved_delta st.accounts v
                nb,
      )

module _ (env : Env) (s : Series) (p : ExecuteTradeParams) (st : Clearing) where
  -- A trade that is executed under a fresh trade id moves the quantity from the seller to the
  -- buyer, margins each of the two positions at the trade's price, and touches no other position.
  pub execute_trade_impl-positions :
      {b : Bool} {st' : Clearing}
      → contains_key p.trade_id st.executed_trades ≡ false
      → execute_trade_impl env s p st ≡ done b st'
      → let buyer = position_or_new st'.positions (buyer_key p) in
        let seller = position_or_new st'.positions (seller_key p) in
        (buyer.net_qty ≡ add_i128 (position_or_new st.positions (buyer_key p)).net_qty p.qty)
        × (seller.net_qty ≡ sub_i128 (position_or_new st.positions (seller_key p)).net_qty p.qty)
        × (get_required_margin s p.price buyer.net_qty p.outcome_id ≡ ok buyer.reserved_margin_usd)
        × (get_required_margin s p.price seller.net_qty p.outcome_id
            ≡ ok seller.reserved_margin_usd)
        × ((k : PositionKey)
            → buyer_key p ≢ k
            → seller_key p ≢ k
            → lookup k st'.positions ≡ lookup k st.positions)
  execute_trade_impl-positions fresh h =
      let (d, computed, _, e, other) = execute_trade_impl-inversion env s p st fresh h in
      let margins = trade_deltas-Computed st s p d computed in
      let (b, t, mb, mt, rest) = commit_trade-positions env s p d st other in
      rw e (b, t, rw (b, mb) margins.new_buyer, rw (t, mt) margins.new_seller, rest)
