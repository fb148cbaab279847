-- ===== src/Trade/Execute/Inversion.antt =====
-- What the two computations of `execute_trade_impl` have established when they return
-- (src/clearing/src/trade/service.rs).
use icdc_core.Prelude.{ℕ, ◌≡◌, ◌≢◌, sym, ◌∙◌, ap, false, arith, if◌then◌else◌}
use icdc_core.Prelude.Int.{ℤ, ltb_ℤ, ◌≤ℤ◌}
use icdc_core.Prelude.Words.{add_i128, sub_i128, cast_signed}
use icdc_core.Prelude.Results.{Res, ok, err, map_err, >>=-eq-ok, map_err-eq-ok, ok-injective}
use icdc_core.Shared.Domain.{BalanceDomain, social, domain_beq}
use icdc_core.Shared.Series.{Series}
use icdc_core.Payoffs.{PayoffError, get_required_margin}
use icdc_core.Margin.{User, get_reserved_margin_usd, calculate_raw_equity, calculate_equity_usd}
use icdc_core.Clearing.Errors.{TradeError, trade_payoff_error}
use icdc_core.Clearing.Orders.{ExecuteTradeParams}
use icdc_core.Clearing.State.{Clearing}
use icdc_core.Trade.Execute.{
  position_or_new, account_or_new, buyer_key, seller_key, TradeDeltas, trade_deltas,
  change_reserved, check_party, validate_trade,
}

passed :
    (x y : ℤ) (e : TradeError)
    → ◌≡◌ {A = Res TradeError (Unit {0})} (if ltb_ℤ x y then err e else ok tt) (ok tt)
    → y ≤ℤ x
passed x y e h = ground arith

module _ (st : Clearing) (s : Series) (p : ExecuteTradeParams) where
  abbrev margin_at : ℤ → Res PayoffError ℕ
  margin_at qty = get_required_margin s p.price qty p.outcome_id

  abbrev margin_of : ℤ → Res TradeError ℕ
  margin_of qty = map_err trade_payoff_error (margin_at qty)

  pub record Computed (d : TradeDeltas) : Type 0 where
    pub buyer_at : ℕ
    pub seller_at : ℕ
    pub new_buyer :
        get_required_margin s p.price
          (add_i128 (position_or_new st.positions (buyer_key p)).net_qty p.qty)
          p.outcome_id
        ≡ ok d.new_buyer_margin_usd
    pub new_seller :
        get_required_margin s p.price
          (sub_i128 (position_or_new st.positions (seller_key p)).net_qty p.qty)
          p.outcome_id
        ≡ ok d.new_seller_margin_usd
    pub old_buyer :
        get_required_margin s p.price
          (position_or_new st.positions (buyer_key p)).net_qty
          p.outcome_id
        ≡ ok buyer_at
    pub old_seller :
        get_required_margin s p.price
          (position_or_new st.positions (seller_key p)).net_qty
          p.outcome_id
        ≡ ok seller_at
    pub buyer_cash :
        d.buyer_cash_delta
        ≡ sub_i128
            (cast_signed (position_or_new st.positions (buyer_key p)).reserved_margin_usd)
            (cast_signed buyer_at)
    pub seller_cash :
        d.seller_cash_delta
        ≡ sub_i128
            (cast_signed (position_or_new st.positions (seller_key p)).reserved_margin_usd)
            (cast_signed seller_at)

  pub trade_deltas-Computed : (d : TradeDeltas) → trade_deltas st s p ≡ ok d → Computed d
  unfolding trade_deltas
  trade_deltas-Computed d h =
      let old_b = position_or_new st.positions (buyer_key p) in
      let old_s = position_or_new st.positions (seller_key p) in
      let (nb, enb, h1) = >>=-eq-ok (margin_of (add_i128 old_b.net_qty p.qty)) _ h in
      let (ns, ens, h2) = >>=-eq-ok (margin_of (sub_i128 old_s.net_qty p.qty)) _ h1 in
      let (ba, eba, h3) = >>=-eq-ok (margin_of old_b.net_qty) _ h2 in
      let (sa, esa, h4) = >>=-eq-ok (margin_of old_s.net_qty) _ h3 in
      let e = ok-injective h4 in
      record {
        buyer_at = ba;
        seller_at = sa;
        new_buyer = map_err-eq-ok trade_payoff_error _ enb ∙ ap (λ t. ok t.new_buyer_margin_usd) e;
        new_seller =
            map_err-eq-ok trade_payoff_error _ ens ∙ ap (λ t. ok t.new_seller_margin_usd) e;
        old_buyer = map_err-eq-ok trade_payoff_error _ eba;
        old_seller = map_err-eq-ok trade_payoff_error _ esa;
        buyer_cash = sym (ap (λ t. t.buyer_cash_delta) e);
        seller_cash = sym (ap (λ t. t.seller_cash_delta) e);
      }

  -- A party that passes has, before the trade, equity for its reserved margin after it.
  pub check_party-covers :
      (domain : BalanceDomain) (user : User) (delta : ℤ)
      → check_party st domain user delta ≡ ok tt
      → (equity : ℤ) × (calculate_raw_equity {E = TradeError}
            (account_or_new st.accounts user)
            domain
            st.collateral_assets
            st.asset_metrics
          ≡ ok equity)
        × (cast_signed (
              change_reserved
                (get_reserved_margin_usd (account_or_new st.accounts user) domain)
                delta)
            ≤ℤ equity)
  unfolding check_party
  check_party-covers domain user delta h =
      let account = account_or_new st.accounts user in
      let raw =
        calculate_raw_equity {E = TradeError} account domain st.collateral_assets
          st.asset_metrics in
      let clamped =
        calculate_equity_usd {E = TradeError} account domain st.collateral_assets
          st.asset_metrics in
      let (equity, e, h1) = >>=-eq-ok raw _ h in
      let (balance, _, h2) = >>=-eq-ok clamped _ h1 in (equity, e, passed equity _ _ h2)

  pub validate_trade-covers :
      (d : TradeDeltas)
      → s.balance_domain ≢ social
      → validate_trade st s p d ≡ ok tt
      → (check_party st s.balance_domain p.buyer d.buyer_reserved_delta ≡ ok tt)
        × (check_party st s.balance_domain p.seller d.seller_reserved_delta ≡ ok tt)
  unfolding validate_trade
  validate_trade-covers d real h =
      let off : domain_beq s.balance_domain social ≡ false = ground arith in
      let first = check_party st s.balance_domain p.buyer d.buyer_reserved_delta in
      let (_, e, h1) =
        >>=-eq-ok first (λ _. check_party st s.balance_domain p.seller d.seller_reserved_delta)
          (rw off at h) in
      (e, h1)
