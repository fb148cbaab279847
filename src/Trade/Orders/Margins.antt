-- ===== src/Trade/Orders/Margins.antt =====
-- The margin that orders block (src/clearing/src/api/trade/api.rs): cancelling gives back what
-- placing took, and a partial fill always finds the margin it releases.
use native.Mathlib.Nat.{mul-le-mul_right, add-mul-mod_self_left, div-add-mod}
use icdc_core.Prelude.{
  ℕ, suc, ◌+◌, ◌-◌, ◌*◌, ◌/◌, ◌%◌, ◌≤◌, ◌<◌, ◌≡◌, refl, sym, ◌∙◌, Bool, true, false, none, some,
  arith, Bool-cases, inl, inr,
}
use icdc_core.Prelude.Int.{ltb_ℤ}
use icdc_core.Prelude.Words.{u128_mod, add_u128, add_u128-eq, mul_u128, mul_u128-eq, cast_signed}
use icdc_core.Prelude.Maps.{nat_key, lookup, insert, remove, lookup-insert, lookup-remove, beq_refl}
use icdc_core.Prelude.Results.{ok, ok-injective}
use icdc_core.Shared.Domain.{domain_key}
use icdc_core.Shared.Series.{Series}
use icdc_core.Payoffs.{get_required_margin}
use icdc_core.Payoffs.Solvency.{Direction, directed}
use icdc_core.Payoffs.Linear.{required_margin-IsLinear}
use icdc_core.Margin.{User, get_reserved_margin_usd, set_reserved_margin_usd, calculate_equity_usd}
use icdc_core.Margin.Accounts.{get_reserved-set_reserved}
use icdc_core.Clearing.Errors.{TradeError}
use icdc_core.Clearing.Orders.{LimitOrder}
use icdc_core.Clearing.State.{Clearing, done, proceed-eq-done, done-injective, failed-ne-done}
use icdc_core.Trade.Execute.{account_or_new}
use icdc_core.Trade.Execute.Updates.{reserved_of}
use icdc_core.Trade.Orders.{
  SubmitLimitOrderParams, order_margin, limit_order, put_account, place_limit_order, release_margin,
  cancel_found, cancel_limit_order, unblock,
}

module _ (caller : User) (series : Series) (p : SubmitLimitOrderParams) (st : Clearing) where
  abbrev pub target : ℕ → ℕ
  target required =
      add_u128 (get_reserved_margin_usd (account_or_new st.accounts caller) series.balance_domain)
        required

  abbrev pub placed : ℕ → Clearing
  placed required =
      record (put_account caller
        (set_reserved_margin_usd (account_or_new st.accounts caller) series.balance_domain
          (target required))
        st) {
          limit_orders =
              insert p.order_id (limit_order caller series.balance_domain p required)
                st.limit_orders;
        }

  -- An order that was placed has its margin blocked, and the account's equity covers it.
  place_limit_order-inversion :
      {b : Bool} {st' : Clearing}
      → place_limit_order caller series p st ≡ done b st'
      → (required : ℕ) × (equity : ℕ) × (order_margin series p.side p.qty p.price p.outcome_id
          ≡ ok required)
        × (calculate_equity_usd {E = TradeError}
              (account_or_new st.accounts caller)
              series.balance_domain
              st.collateral_assets
              st.asset_metrics
            ≡ ok equity)
        × (ltb_ℤ (cast_signed equity) (cast_signed (target required)) ≡ false)
        × (st' ≡ placed required)
  unfolding place_limit_order
  place_limit_order-inversion h =
      let margin = order_margin series p.side p.qty p.price p.outcome_id in
      let (required, margined, h1) = proceed-eq-done margin st _ h in
      let acc = account_or_new st.accounts caller in
      let worth =
        calculate_equity_usd {E = TradeError} acc series.balance_domain st.collateral_assets
          st.asset_metrics in
      let (equity, valued, h2) = proceed-eq-done worth (put_account caller acc st) _ h1 in
      let short = ltb_ℤ (cast_signed equity) (cast_signed (target required)) in
      elim (Bool-cases short) [
        | inl poor ↦ absurd (failed-ne-done (rw poor at h2))
        | inr rich ↦
            (required, equity, margined, valued, rich, sym (done-injective (rw rich at h2)).1)
      ]

  -- Cancelling an order right after it was placed gives back the margin that it took, where the
  -- sum of the two margins fits in 128 bits, and leaves no order under its id.
  pub cancel_limit_order-place_limit_order :
      {b : Bool} {st' : Clearing} {required : ℕ}
      → order_margin series p.side p.qty p.price p.outcome_id ≡ ok required
      → reserved_of st.accounts caller series.balance_domain + required < u128_mod
      → place_limit_order caller series p st ≡ done b st'
      → (st'' : Clearing) × (cancel_limit_order caller p.order_id st' ≡ done true st'')
        × (reserved_of st''.accounts caller series.balance_domain
            ≡ reserved_of st.accounts caller series.balance_domain)
        × (lookup p.order_id st''.limit_orders ≡ none)
  unfolding cancel_limit_order cancel_found release_margin
  cancel_limit_order-place_limit_order {required = required} priced fits h =
      let (taken, _, margined, _, _, e) = place_limit_order-inversion h in
      let same = ok-injective (sym margined ∙ priced) in
      let order = limit_order caller series.balance_domain p taken in
      let domain = series.balance_domain in
      let acc = account_or_new st.accounts caller in
      let held = set_reserved_margin_usd acc domain (target taken) in
      let back =
        set_reserved_margin_usd held domain (get_reserved_margin_usd held domain - taken) in
      let freed = record (put_account caller back (placed taken)) {
        limit_orders = remove p.order_id (placed taken).limit_orders;
      } in
      let found : lookup p.order_id (placed taken).limit_orders ≡ some order =
        rw (lookup-insert p.order_id p.order_id order st.limit_orders, beq_refl p.order_id) refl in
      let mine : lookup caller (placed taken).accounts ≡ some held =
        rw (lookup-insert caller caller held st.accounts, beq_refl caller) refl in
      let before = get_reserved_margin_usd acc domain in
      let read_held : get_reserved_margin_usd held domain ≡ target taken =
        rw (get_reserved-set_reserved acc domain domain (target taken), beq_refl domain) refl in
      let read_back : get_reserved_margin_usd back domain
          ≡ get_reserved_margin_usd held domain - taken =
        rw
          (
            get_reserved-set_reserved held domain domain
                (get_reserved_margin_usd held domain - taken),
            beq_refl domain,
          )
          refl in
      let sum : target taken ≡ before + taken =
        add_u128-eq before taken (omega (arith, same, fits)) in
      (
        freed,
        rw (e, found, beq_refl caller, mine) refl,
        rw (lookup-insert caller caller back (placed taken).accounts, beq_refl caller)
            (omega (arith, read_back, read_held, sum, same)),
        rw (lookup-remove p.order_id p.order_id (placed taken).limit_orders, beq_refl p.order_id)
            refl,
      )

mul-mod : (m k u : ℕ) → k * u % m ≡ k * (u % m) % m
mul-mod m k u =
    let e : k * u ≡ k * (u % m) + m * (k * (u / m)) = grind (arith, div-add-mod u m) in
    rw e (add-mul-mod_self_left (k * (u % m)) m (k * (u / m)))

mul_u128-unit : (k u : ℕ) → mul_u128 k u ≡ mul_u128 k (mul_u128 1 u)
unfolding mul_u128
mul_u128-unit k u = let e : 1 * u ≡ u = omega arith in rw e (mul-mod u128_mod k u)

-- The rest of an order on the same side never needs more margin than the order blocks, where the
-- order blocks the margin of its whole quantity and that fits in 128 bits: the fill releases the
-- difference.
unblock-total :
    (s : Series) (o : LimitOrder) (d : Direction) (n k : ℕ) {u whole rest : ℕ}
    → get_required_margin s o.price (directed d 0) o.outcome_id ≡ ok u
    → suc n * u < u128_mod
    → get_required_margin s o.price (directed d n) o.outcome_id ≡ ok whole
    → get_required_margin s o.price (directed d k) o.outcome_id ≡ ok rest
    → k ≤ n
    → o.blocked_margin_usd ≡ whole
    → unblock o rest ≡ ok (whole - rest)
unfolding unblock
unblock-total s o d n k {u} {whole} {rest} one fits priced left le blocked =
    let (v, each) = required_margin-IsLinear s o.price o.outcome_id d n priced in
    let unit : u ≡ mul_u128 1 v = ok-injective (sym one ∙ each 0) in
    let sizes : suc k ≤ suc n = omega (arith, le) in
    let below = mul-le-mul_right u sizes in
    let all : whole ≡ suc n * u =
      ok-injective (sym priced ∙ each n)
      ∙ mul_u128-unit (suc n) v
      ∙ rw (sym unit) (mul_u128-eq (suc n) u fits) in
    let part : rest ≡ suc k * u =
      ok-injective (sym left ∙ each k)
      ∙ mul_u128-unit (suc k) v
      ∙ rw (sym unit) (mul_u128-eq (suc k) u (omega (arith, below, fits))) in
    ground (arith, all, part, blocked, below)
