-- ===== src/Trade/Orders/Market.antt =====
-- What a market order does to the book (`submit_market_order_impl` of
-- src/clearing/src/api/trade/api.rs).
use icdc_core.Prelude.{
  ℕ, ◌+◌, ◌≡◌, refl, sym, Bool, false, Option, none, some, arith, if◌then◌else◌, Bool-cases, inl,
  inr,
}
use icdc_core.Prelude.Int.{ℤ, pos, beq_ℤ}
use icdc_core.Prelude.Words.{sub_i128}
use icdc_core.Prelude.Maps.{nat_key, lookup, contains_key, lookup-insert, lookup-remove, beq_refl}
use icdc_core.Prelude.Results.{ok}
use icdc_core.Shared.Series.{Series}
use icdc_core.Margin.{User}
use icdc_core.Clearing.Errors.{TradeError}
use icdc_core.Clearing.Orders.{TradeId, LimitOrder}
use icdc_core.Clearing.State.{
  Clearing, Env, Reply, done, failed, trapped, proceed, proceed-eq-done, proceed-eq-failed,
  done-injective, failed-injective, failed-ne-done, done-ne-failed,
}
use icdc_core.Trade.Execute.{execute_trade_impl}
use icdc_core.Trade.Execute.Frame.{execute_trade_impl-atomic}
use icdc_core.Trade.Orders.{
  same_order, fill_quantity, remaining_margin, unblock, market_trade, shrink_order, book_fill,
  fill_order, fill_current, not_positive, submit_market_order_impl,
}

book_fill-eq-failed :
    (order : LimitOrder) (remaining : ℤ) (blocked : ℕ) (r : Reply TradeError Bool) {e : TradeError}
    {st' : Clearing}
    → book_fill order remaining blocked r ≡ failed e st'
    → r ≡ failed e st'
unfolding book_fill
book_fill-eq-failed order remaining blocked (done b st) h = absurd (done-ne-failed h)
book_fill-eq-failed order remaining blocked (failed e st) h = h
book_fill-eq-failed order remaining blocked trapped h = h

book_fill-eq-done :
    (order : LimitOrder) (remaining : ℤ) (blocked : ℕ) (r : Reply TradeError Bool) {b : Bool}
    {st' : Clearing}
    → book_fill order remaining blocked r ≡ done b st'
    → (c : Bool) × (st : Clearing) × (r ≡ done c st)
      × (st' ≡ (record st { limit_orders = shrink_order order remaining blocked st.limit_orders }))
unfolding book_fill
book_fill-eq-done order remaining blocked (done c st) h = (c, st, refl, sym (done-injective h).1)
book_fill-eq-done order remaining blocked (failed e st) h = absurd (failed-ne-done h)
book_fill-eq-done order remaining blocked trapped h = absurd (ground arith)

unblock-splits :
    (order : LimitOrder) (blocked : ℕ) {released : ℕ}
    → unblock order blocked ≡ ok released
    → blocked + released ≡ order.blocked_margin_usd
unfolding unblock
unblock-splits order blocked h = ground arith

shrink_order-lookup :
    (order : LimitOrder) (remaining : ℤ) (blocked : ℕ) (st : Clearing)
    → lookup order.order_id (shrink_order order remaining blocked st.limit_orders) ≡ (
        if beq_ℤ remaining (pos 0)
        then none
        else some (record order { qty = remaining; blocked_margin_usd = blocked }))
unfolding shrink_order
shrink_order-lookup order remaining blocked st = elim (Bool-cases (beq_ℤ remaining (pos 0))) [
  | inl gone ↦
      rw
        (gone, lookup-remove order.order_id order.order_id st.limit_orders, beq_refl order.order_id)
        refl
  | inr left ↦
      rw
        (
          left,
          lookup-insert order.order_id order.order_id
              (record order { qty = remaining; blocked_margin_usd = blocked }) st.limit_orders,
          beq_refl order.order_id,
        )
        refl
]

module _ (env : Env) (taker : User) (trade_id : TradeId) (series : Series)
    (requested : Option ℤ) where
  -- What is left of an order.
  abbrev rest_of : LimitOrder → ℤ
  rest_of order = sub_i128 order.qty (fill_quantity requested order.qty)

  abbrev booked : LimitOrder → Clearing → ℕ → ℕ → Reply TradeError Bool
  booked order st blocked released = book_fill order (rest_of order) blocked (
      execute_trade_impl env series
        (market_trade taker order trade_id (fill_quantity requested order.qty) released) st)

  abbrev unblocked : LimitOrder → Clearing → ℕ → Reply TradeError Bool
  unblocked order st blocked = proceed (unblock order blocked) st (booked order st blocked)

  fill_order-atomic :
      (order : LimitOrder) (st : Clearing) {e : TradeError} {st' : Clearing}
      → fill_order env taker order trade_id series requested st ≡ failed e st'
      → st' ≡ st
  unfolding fill_order
  fill_order-atomic order st h =
      elim (proceed-eq-failed (remaining_margin series order (rest_of order)) st
        (unblocked order st) h) [
          | inl (_, kept) ↦ kept
          | inr (blocked, _, h1) ↦
              elim (proceed-eq-failed (unblock order blocked) st (booked order st blocked) h1) [
                | inl (_, kept) ↦ kept
                | inr (released, _, h2) ↦
                    execute_trade_impl-atomic env series
                      (market_trade taker order trade_id (fill_quantity requested order.qty)
                        released)
                      st (book_fill-eq-failed order (rest_of order) blocked _ h2)
              ]
        ]

  fill_current-atomic :
      (found : Option LimitOrder) (order : LimitOrder) (st : Clearing) {e : TradeError}
      {st' : Clearing}
      → fill_current found env taker order trade_id series requested st ≡ failed e st'
      → st' ≡ st
  unfolding fill_current
  fill_current-atomic none order st h = sym (failed-injective h).1
  fill_current-atomic (some current) order st h = elim (Bool-cases (same_order current order)) [
    | inl same ↦ fill_order-atomic current st (rw same at h)
    | inr other ↦ sym (failed-injective (rw other at h)).1
  ]

  -- A market order that is refused changes nothing: neither a position, nor an account, nor the
  -- book.
  pub submit_market_order_impl-atomic :
      (order : LimitOrder) (st : Clearing) {e : TradeError} {st' : Clearing}
      → submit_market_order_impl env taker order trade_id series requested st ≡ failed e st'
      → st' ≡ st
  unfolding submit_market_order_impl
  submit_market_order_impl-atomic order st h = elim (Bool-cases (not_positive requested)) [
    | inl bad ↦ sym (failed-injective (rw bad at h)).1
    | inr good ↦ elim (Bool-cases (contains_key trade_id st.executed_trades)) [
      | inl old ↦ absurd (done-ne-failed (rw (good, old) at h))
      | inr fresh ↦
          fill_current-atomic (lookup order.order_id st.limit_orders) order st
            (rw (good, fresh) at h)
    ]
  ]

  -- The outcome of a fill: the trade is executed, and the order keeps the quantity that is left
  -- with the margin that it needs, or leaves the book.
  pub record Filled (current : LimitOrder) (st after : Clearing) : Type 0 where
    pub blocked : ℕ
    pub released : ℕ
    pub traded : Clearing
    pub answer : Bool
    pub executed :
        execute_trade_impl env series
          (market_trade taker current trade_id (fill_quantity requested current.qty) released)
          st
        ≡ done answer traded
    pub margined : remaining_margin series current (rest_of current) ≡ ok blocked
    pub splits : blocked + released ≡ current.blocked_margin_usd
    pub in_book : lookup current.order_id after.limit_orders ≡ (
        if beq_ℤ (rest_of current) (pos 0)
        then none
        else some (record current { qty = rest_of current; blocked_margin_usd = blocked }))
    pub accounts : after.accounts ≡ traded.accounts
    pub positions : after.positions ≡ traded.positions

  fill_order-Filled :
      (order : LimitOrder) (st : Clearing) {b : Bool} {st' : Clearing}
      → fill_order env taker order trade_id series requested st ≡ done b st'
      → Filled order st st'
  unfolding fill_order
  fill_order-Filled order st h =
      let (blocked, margined, h1) =
        proceed-eq-done (remaining_margin series order (rest_of order)) st (unblocked order st) h in
      let (released, split, h2) =
        proceed-eq-done (unblock order blocked) st (booked order st blocked) h1 in
      let (c, traded, ran, e) = book_fill-eq-done order (rest_of order) blocked _ h2 in
      record {
        blocked = blocked;
        released = released;
        traded = traded;
        answer = c;
        executed = ran;
        margined = margined;
        splits = unblock-splits order blocked split;
        in_book = rw e (shrink_order-lookup order (rest_of order) blocked traded);
        accounts = rw e refl;
        positions = rw e refl;
      }

  fill_current-Filled :
      (found : Option LimitOrder) (order : LimitOrder) (st : Clearing) {b : Bool} {st' : Clearing}
      → fill_current found env taker order trade_id series requested st ≡ done b st'
      → (current : LimitOrder) × (found ≡ some current) × Filled current st st'
  unfolding fill_current
  fill_current-Filled none order st h = absurd (failed-ne-done h)
  fill_current-Filled (some current) order st h = elim (Bool-cases (same_order current order)) [
    | inl same ↦ (current, refl, fill_order-Filled current st (rw same at h))
    | inr other ↦ absurd (failed-ne-done (rw other at h))
  ]

  -- A market order that succeeds under a fresh trade id executes its trade against the order that
  -- is in the book now; the order keeps the quantity that is left with the margin that it needs,
  -- or leaves the book, and what stays blocked and what is released add up to what was blocked.
  pub submit_market_order_impl-Filled :
      (order : LimitOrder) (st : Clearing) {b : Bool} {st' : Clearing}
      → contains_key trade_id st.executed_trades ≡ false
      → submit_market_order_impl env taker order trade_id series requested st ≡ done b st'
      → (current : LimitOrder) × (lookup order.order_id st.limit_orders ≡ some current)
        × Filled current st st'
  unfolding submit_market_order_impl
  submit_market_order_impl-Filled order st fresh h = elim (Bool-cases (not_positive requested)) [
    | inl bad ↦ absurd (failed-ne-done (rw bad at h))
    | inr good ↦
        fill_current-Filled (lookup order.order_id st.limit_orders) order st (rw (good, fresh) at h)
  ]
