-- ===== src/Trade/Execute/Conserved.antt =====
-- Marking a pair of opposite positions to the price of a trade between their holders moves cash
-- from one to the other (`execute_trade_impl` of src/clearing/src/trade/service.rs).
use icdc_core.Prelude.{ℕ, suc, ◌+◌, ◌-◌, ◌*◌, ◌≤◌, ◌<◌, ◌≡◌, ◌≢◌, sym, ◌∙◌, true, false, arith}
use icdc_core.Prelude.Int.{ℤ, pos, pos_part, neg_part, ◌+ℤ◌, ◌-ℤ◌, int_bounds}
use icdc_core.Prelude.Words.{i128_lim, sub_i128, sub_i128-eq, sub_i128-cast_signed, cast_signed}
use icdc_core.Prelude.Maps.{nat_key, contains_key}
use icdc_core.Prelude.Results.{ok, ok-injective}
use icdc_core.Shared.Domain.{social}
use icdc_core.Shared.Price.{usd_decimals, price_value, price_decimals}
use icdc_core.Shared.Series.{Series}
use icdc_core.Payoffs.{PayoffError, ceil, scale_price, get_required_margin}
use icdc_core.Payoffs.Solvency.{
  IsTwoSided, unit_usd, Direction, long, short, directed, share_total, required_margin_pair,
}
use icdc_core.Clearing.Orders.{ExecuteTradeParams}
use icdc_core.Clearing.State.{Clearing, Env, done}
use icdc_core.Trade.Execute.{position_or_new, buyer_key, seller_key, execute_trade_impl}
use icdc_core.Trade.Execute.Updates.{cash_of}
use icdc_core.Trade.Execute.Solvency.{execute_trade_impl-accounts}

abbrev pub opposite : Direction → Direction
opposite long = short
opposite short = long

-- An amount of cash that stays within an `i128` when it moves by the total.
abbrev pub Within : ℕ → ℤ → Type 0
Within total cash = pos_part cash + neg_part cash + total < i128_lim

sub_i128_exact :
    (cash : ℤ) (m a total : ℕ)
    → m ≤ total
    → a ≤ total
    → Within total cash
    → sub_i128 cash (sub_i128 (cast_signed m) (cast_signed a)) ≡ cash -ℤ (pos m -ℤ pos a)
sub_i128_exact cash m a total hm ha within =
    rw (sub_i128-cast_signed m a (omega (arith, hm, within)) (omega (arith, ha, within)))
      (sub_i128-eq cash (pos m -ℤ pos a) (omega (int_bounds, hm, ha, within)))

moves_cancel :
    (b s : ℤ) (mb ms ba sa : ℕ)
    → mb + ms ≡ ba + sa
    → (b -ℤ (pos mb -ℤ pos ba)) +ℤ (s -ℤ (pos ms -ℤ pos sa)) ≡ b +ℤ s
moves_cancel b s mb ms ba sa h = omega (int_bounds, h)

module _ (s : Series) (p : ExecuteTradeParams) (n : ℕ) where
  -- The margins of a pair at the price of the trade add up to one unit for each contract.
  pair_margins :
      (d : Direction) {u a b : ℕ} (qa qb : ℤ)
      → IsTwoSided s
      → s.balance_domain ≢ social
      → scale_price {E = PayoffError}
          (price_value p.price)
          usd_decimals
          (price_decimals p.price)
          ceil
        ≡ ok u
      → u ≤ unit_usd
      → suc n * unit_usd < i128_lim
      → qa ≡ directed d n
      → qb ≡ directed (opposite d) n
      → get_required_margin s p.price qa p.outcome_id ≡ ok a
      → get_required_margin s p.price qb p.outcome_id ≡ ok b
      → a + b ≡ suc n * unit_usd
  pair_margins long {u} {a} {b} qa qb two real scaled bound fits ea eb ha hb =
      let (l, r) =
        required_margin_pair s p.price p.outcome_id n two real scaled bound (omega (arith, fits)) in
      let la : a ≡ suc n * u = ok-injective (sym (rw ea at ha) ∙ l) in
      let rb : b ≡ suc n * (unit_usd - u) = ok-injective (sym (rw eb at hb) ∙ r) in
      rw (la, rb) (share_total (suc n) u bound)
  pair_margins short {u} {a} {b} qa qb two real scaled bound fits ea eb ha hb =
      let (l, r) =
        required_margin_pair s p.price p.outcome_id n two real scaled bound (omega (arith, fits)) in
      let ra : a ≡ suc n * (unit_usd - u) = ok-injective (sym (rw ea at ha) ∙ r) in
      let lb : b ≡ suc n * u = ok-injective (sym (rw eb at hb) ∙ l) in
      let total = share_total (suc n) u bound in omega (arith, ra, lb, total)

  -- Outside the social domain, let a trade on a binary or categorical series, at a price of at most
  -- one unit and under a fresh trade id, be executed between the two sides of a pair, which hold
  -- opposite positions of one size and together one unit of margin for each contract. Then the
  -- cash of the buyer and the seller together stays the same, where no amount leaves an `i128`.
  pub execute_trade_impl-conserves :
      (env : Env) (st : Clearing) (d : Direction) {u : ℕ} {st' : Clearing}
      → IsTwoSided s
      → s.balance_domain ≢ social
      → scale_price {E = PayoffError}
          (price_value p.price)
          usd_decimals
          (price_decimals p.price)
          ceil
        ≡ ok u
      → u ≤ unit_usd
      → suc n * unit_usd < i128_lim
      → (position_or_new st.positions (buyer_key p)).net_qty ≡ directed d n
      → (position_or_new st.positions (seller_key p)).net_qty ≡ directed (opposite d) n
      → (position_or_new st.positions (buyer_key p)).reserved_margin_usd
          + (position_or_new st.positions (seller_key p)).reserved_margin_usd
        ≡ suc n * unit_usd
      → Within (suc n * unit_usd) (cash_of st.accounts p.buyer s.balance_domain)
      → Within (suc n * unit_usd) (cash_of st.accounts p.seller s.balance_domain)
      → contains_key p.trade_id st.executed_trades ≡ false
      → execute_trade_impl env s p st ≡ done true st'
      → cash_of st'.accounts p.buyer s.balance_domain
          +ℤ cash_of st'.accounts p.seller s.balance_domain
        ≡ cash_of st.accounts p.buyer s.balance_domain
          +ℤ cash_of st.accounts p.seller s.balance_domain
  execute_trade_impl-conserves env st d {u} two real scaled bound fits hb hs funded wb ws fresh h =
      let old_b = position_or_new st.positions (buyer_key p) in
      let old_s = position_or_new st.positions (seller_key p) in
      let mb = old_b.reserved_margin_usd in
      let ms = old_s.reserved_margin_usd in
      let total = suc n * unit_usd in
      let before_b = cash_of st.accounts p.buyer s.balance_domain in
      let before_s = cash_of st.accounts p.seller s.balance_domain in
      let (ba, sa, eb, es, cb, cs, _) = execute_trade_impl-accounts env s p st fresh h in
      let pair =
        pair_margins d old_b.net_qty old_s.net_qty two real scaled bound fits hb hs eb es in
      rw
        (
          cb,
          cs,
          sub_i128_exact before_b mb ba total (omega (arith, funded)) (omega (arith, pair)) wb,
          sub_i128_exact before_s ms sa total (omega (arith, funded)) (omega (arith, pair)) ws,
        )
        (moves_cancel before_b before_s mb ms ba sa (omega (arith, funded, pair)))
