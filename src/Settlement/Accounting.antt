-- ===== src/Settlement/Accounting.antt =====
-- `apply_settlement_accounting_logic` (src/clearing/src/api/settlement/api.rs) and the index that
-- it feeds (`record_settled_pnl`, `index_settled_events` of src/clearing/src/memory.rs).
pub mod Chunks
pub mod Cash
use icdc_core.Prelude.{
  ℕ, suc, ◌+◌, ◌-◌, ◌%◌, Bool, true, false, not, ◌&&◌, Option, none, some, List, [], ◌∷◌, ◌++◌, ltb,
  ◌==◌, if◌then◌else◌, length, drop,
}
use icdc_core.Prelude.Int.{ℤ}
use icdc_core.Prelude.Words.{add_i128, u64_mod}
use icdc_core.Prelude.Maps.{Map, nat_key, lookup, insert}
use icdc_core.Shared.Domain.{BalanceDomain}
use icdc_core.Shared.Price.{Principal, Price, new_price}
use icdc_core.Shared.Series.{SeriesId, SettlementInput, price, outcome}
use icdc_core.Margin.{
  User, AccountState, unwrap_or, get_cash_balance_usd, set_cash_balance_usd,
  get_reserved_margin_usd, set_reserved_margin_usd,
}
use icdc_core.Events.{Event, EventType, settled}
use icdc_core.Leaderboard.{
  LeaderboardWindow, all_windows, period_id, PnlAggregate, empty_pnl, record_pnl,
}
use icdc_core.Clearing.Plans.{SettlementPosition, SettlementPlan}
use icdc_core.Clearing.State.{Clearing, Env, Leaderboard, period_key}

abbrev pub is_settled : EventType → Bool
is_settled settled = true
is_settled _ = false

-- One round of `record_settled_pnl`, for one window.
unfoldable pub record_window : User → ℤ → ℕ → LeaderboardWindow → Leaderboard → Leaderboard
record_window user cashflow_usd timestamp window idx =
    let period = period_id window timestamp in
    let users = unwrap_or (lookup (window, period) idx) [] in
    insert (window, period)
      (insert user (record_pnl (unwrap_or (lookup user users) empty_pnl) cashflow_usd) users) idx

record_windows : List LeaderboardWindow → User → ℤ → ℕ → Leaderboard → Leaderboard
unfolding record_window
record_windows [] user cashflow_usd timestamp idx = idx
record_windows (w ∷ ws) user cashflow_usd timestamp idx =
    record_windows ws user cashflow_usd timestamp (record_window user cashflow_usd timestamp w idx)

unfoldable pub record_settled_pnl : User → ℤ → ℕ → Leaderboard → Leaderboard
unfolding record_windows
record_settled_pnl = record_windows all_windows

unfoldable pub index_settled_events : List Event → Leaderboard → Leaderboard
index_settled_events [] idx = idx
index_settled_events (e ∷ es) idx =
    index_settled_events es
      (if is_settled e.event_type then record_settled_pnl e.user e.qty e.timestamp idx else idx)

-- What the accounting loop changes.
pub record Progress : Type 0 where
  pub accounts : Map User AccountState
  pub next_event_id : ℕ
  pub emitted : List Event
  pub accounting_cursor : ℕ

-- The price that a `Settled` event records.
abbrev pub settlement_price : SettlementInput → Price
settlement_price (price p) = p
settlement_price (outcome o) = new_price 1 0

-- The cash and the margin of a settled position, on its user's account.
unfoldable pub settle_account : BalanceDomain → SettlementPosition → AccountState → AccountState
settle_account domain pos account =
    let paid =
      set_cash_balance_usd account domain
        (add_i128 (get_cash_balance_usd account domain) pos.cashflow_usd) in
    set_reserved_margin_usd paid domain
      (get_reserved_margin_usd paid domain - pos.reserved_margin_usd)

-- The parts of the plan that the loop reads.
pub record Frozen : Type 0 where
  pub series_id : SeriesId
  pub settlement : SettlementInput
  pub balance_domain : BalanceDomain

abbrev pub settled_event : Env → Frozen → SettlementPosition → ℕ → Event
settled_event env plan pos event_id = record {
  event_id = event_id;
  clearing_id = env.canister;
  series_id = plan.series_id;
  user = pos.user;
  qty = pos.cashflow_usd;
  price = settlement_price plan.settlement;
  event_type = settled;
  timestamp = env.now;
}

-- The body of the loop, up to the check of the batch. A user without an account is passed over.
unfoldable pub settle_position : Env → Frozen → SettlementPosition → Progress → Progress
settle_position env plan pos g = elim (lookup pos.user g.accounts) [
  | none ↦ record g { accounting_cursor = g.accounting_cursor + 1 }
  | some account ↦ record {
    accounts = insert pos.user (settle_account plan.balance_domain pos account) g.accounts;
    next_event_id = (g.next_event_id + 1) % u64_mod;
    emitted = g.emitted ++ settled_event env plan pos g.next_event_id ∷ [];
    accounting_cursor = g.accounting_cursor + 1;
  }
]

-- The loop over the positions from the cursor on. `counter` is the instruction counter as a
-- function of the cursor; it is the system's.
unfoldable pub settle_loop : Env → (ℕ → ℕ) → Frozen → List SettlementPosition → Progress → Progress
settle_loop env counter plan [] g = g
settle_loop env counter plan (pos ∷ rest) g =
    let next = settle_position env plan pos g in
    let after = settle_loop env counter plan rest next in
    if (next.accounting_cursor % 100) == 0 && ltb 0 (counter next.accounting_cursor)
    then next
    else after

abbrev pub frozen : SettlementPlan → Frozen
frozen plan = record {
  series_id = plan.series_id;
  settlement = plan.settlement;
  balance_domain = plan.balance_domain;
}

abbrev pub start : SettlementPlan → Clearing → Progress
start plan st = record {
  accounts = st.accounts;
  next_event_id = st.next_event_id;
  emitted = [];
  accounting_cursor = plan.accounting_cursor;
}

-- Whether the plan was completed by this call, the plan, and the state.
unfoldable pub apply_settlement_accounting_logic :
    Env → (ℕ → ℕ) → SettlementPlan → Clearing → Bool × (SettlementPlan × Clearing)
apply_settlement_accounting_logic env counter plan st =
    let g =
      settle_loop env counter (frozen plan) (drop plan.accounting_cursor plan.positions)
        (start plan st) in
    let newly_applied =
      g.accounting_cursor == length plan.positions && not plan.accounting_applied in
    (
      newly_applied,
      (
        record plan {
          accounting_cursor = g.accounting_cursor;
          accounting_applied = if newly_applied then true else plan.accounting_applied;
        },
        record st {
          accounts = g.accounts;
          next_event_id = g.next_event_id;
          events = st.events ++ g.emitted;
          leaderboard = index_settled_events g.emitted st.leaderboard;
        },
      ),
    )
