-- ===== src/Trade/Execute/Solvency.antt =====
-- What an executed trade does to the accounts (src/clearing/src/trade/service.rs): who pays whom,
-- what is reserved, and that the second call with one trade id does nothing.
use icdc_core.Prelude.{
  ℕ, ◌<◌, ◌≡◌, ◌≢◌, refl, sym, ap, ◌∙◌, Bool, true, false, Bool-cases, inl, inr,
}
use icdc_core.Prelude.Int.{ℤ, pos, ◌≤ℤ◌}
use icdc_core.Prelude.Words.{i128_lim, sub_i128, cast_signed, cast_signed-eq}
use icdc_core.Prelude.Maps.{nat_key, lookup, contains_key, contains_key-insert, beq_refl}
use icdc_core.Prelude.Results.{ok}
use icdc_core.Shared.Domain.{social}
use icdc_core.Shared.Series.{Series}
use icdc_core.Margin.{User, position_key, calculate_raw_equity}
use icdc_core.Payoffs.{get_required_margin}
use icdc_core.Clearing.Errors.{TradeError}
use icdc_core.Clearing.Orders.{ExecuteTradeParams}
use icdc_core.Clearing.State.{Clearing, Env, done, done-injective}
use icdc_core.Trade.Index.{index_executed_trade}
use icdc_core.Trade.Execute.{
  position_or_new, account_or_new, buyer_key, seller_key, commit_trade, execute_trade_impl,
}
use icdc_core.Trade.Execute.Updates.{cash_of, reserved_of}
use icdc_core.Trade.Execute.Inversion.{
  trade_deltas-Computed, check_party-covers, validate_trade-covers,
}
use icdc_core.Trade.Execute.Frame.{execute_trade_impl-inversion, commit_trade-accounts}

module _ (env : Env) (s : Series) (p : ExecuteTradeParams) (st : Clearing) where
  -- A trade that is executed under a fresh trade id settles each party's old margin against the
  -- margin that its old quantity needs at the trade's price: the difference leaves the party's
  -- cash. It changes no third party's account.
  pub execute_trade_impl-accounts :
      {b : Bool} {st' : Clearing}
      → contains_key p.trade_id st.executed_trades ≡ false
      → execute_trade_impl env s p st ≡ done b st'
      → let old_b = position_or_new st.positions (buyer_key p) in
        let old_s = position_or_new st.positions (seller_key p) in
        (buyer_at : ℕ) × (seller_at : ℕ) × (get_required_margin s p.price old_b.net_qty p.outcome_id
          ≡ ok buyer_at)
        × (get_required_margin s p.price old_s.net_qty p.outcome_id ≡ ok seller_at)
        × (cash_of st'.accounts p.buyer s.balance_domain
            ≡ sub_i128
                (cash_of st.accounts p.buyer s.balance_domain)
                (sub_i128 (cast_signed old_b.reserved_margin_usd) (cast_signed buyer_at)))
        × (cash_of st'.accounts p.seller s.balance_domain
            ≡ sub_i128
                (cash_of st.accounts p.seller s.balance_domain)
                (sub_i128 (cast_signed old_s.reserved_margin_usd) (cast_signed seller_at)))
        × ((v : User) → p.buyer ≢ v → p.seller ≢ v → lookup v st'.accounts ≡ lookup v st.accounts)
  execute_trade_impl-accounts fresh h =
      let (d, computed, _, e, other) = execute_trade_impl-inversion env s p st fresh h in
      let c = trade_deltas-Computed st s p d computed in
      let (cb, cs, _, _, rest) = commit_trade-accounts env s p d st other in
      let before_b = cash_of st.accounts p.buyer s.balance_domain in
      let before_s = cash_of st.accounts p.seller s.balance_domain in
      (
        c.buyer_at,
        c.seller_at,
        c.old_buyer,
        c.old_seller,
        rw e (cb ∙ ap (sub_i128 before_b) c.buyer_cash),
        rw e (cs ∙ ap (sub_i128 before_s) c.seller_cash),
        rw e rest,
      )

  -- Outside the social domain, let a trade be executed under a fresh trade id and leave each party
  -- with a reserved margin below 2 ^ 127, the limit of an `i128`. Then the equity that each party
  -- had before the trade is at least its reserved margin after the trade.
  pub execute_trade_impl-covered :
      {b : Bool} {st' : Clearing}
      → s.balance_domain ≢ social
      → contains_key p.trade_id st.executed_trades ≡ false
      → execute_trade_impl env s p st ≡ done b st'
      → reserved_of st'.accounts p.buyer s.balance_domain < i128_lim
      → reserved_of st'.accounts p.seller s.balance_domain < i128_lim
      → (buyer_equity : ℤ) × (seller_equity : ℤ) × (calculate_raw_equity {E = TradeError}
            (account_or_new st.accounts p.buyer)
            s.balance_domain
            st.collateral_assets
            st.asset_metrics
          ≡ ok buyer_equity)
        × (calculate_raw_equity {E = TradeError}
              (account_or_new st.accounts p.seller)
              s.balance_domain
              st.collateral_assets
              st.asset_metrics
            ≡ ok seller_equity)
        × (pos (reserved_of st'.accounts p.buyer s.balance_domain) ≤ℤ buyer_equity)
        × (pos (reserved_of st'.accounts p.seller s.balance_domain) ≤ℤ seller_equity)
  execute_trade_impl-covered {b} {st'} real fresh h small_b small_s =
      let (d, _, valid, e, other) = execute_trade_impl-inversion env s p st fresh h in
      let (ok_b, ok_s) = validate_trade-covers st s p d real valid in
      let (eb, hb, lb) =
        check_party-covers st s p s.balance_domain p.buyer d.buyer_reserved_delta ok_b in
      let (es, hs, ls) =
        check_party-covers st s p s.balance_domain p.seller d.seller_reserved_delta ok_s in
      let (_, _, rb, rs, _) = commit_trade-accounts env s p d st other in
      let unsigned_b = cast_signed-eq (reserved_of st'.accounts p.buyer s.balance_domain) small_b in
      let unsigned_s =
        cast_signed-eq (reserved_of st'.accounts p.seller s.balance_domain) small_s in
      let below_b : cast_signed (reserved_of st'.accounts p.buyer s.balance_domain) ≤ℤ eb =
        rw (e, rb) lb in
      let below_s : cast_signed (reserved_of st'.accounts p.seller s.balance_domain) ≤ℤ es =
        rw (e, rs) ls in
      (eb, es, hb, hs, rw unsigned_b at below_b, rw unsigned_s at below_s)

  -- A trade id is booked once: a later call with the same trade id, whatever else it asks for,
  -- succeeds and leaves the state that the trade left as it is.
  pub execute_trade_impl-idempotent :
      {b : Bool} {st' : Clearing} (env' : Env) (s' : Series) (q : ExecuteTradeParams)
      → q.trade_id ≡ p.trade_id
      → execute_trade_impl env s p st ≡ done b st'
      → execute_trade_impl env' s' q st' ≡ done true st'
  unfolding execute_trade_impl commit_trade index_executed_trade
  execute_trade_impl-idempotent env' s' q same h =
      elim (Bool-cases (contains_key p.trade_id st.executed_trades)) [
        | inl old ↦ rw (sym (done-injective (rw old at h)).1, same, old) refl
        | inr fresh ↦
            let (d, _, _, e, _) = execute_trade_impl-inversion env s p st fresh h in
            rw
              (
                e,
                same,
                contains_key-insert p.trade_id p.trade_id st.next_event_id st.executed_trades,
                beq_refl p.trade_id,
              )
              refl
      ]
