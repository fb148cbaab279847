-- ===== src/Trade/Transfers.antt =====
-- Moving a position to another clearing canister: `freeze_position_for_transfer` and
-- `accept_position_transfer` (src/clearing/src/api/trade/api.rs).
pub mod Conserved
use icdc_core.Prelude.{ℕ, Bool, true, false, Option, none, some, [], ◌==◌, if◌then◌else◌}
use icdc_core.Prelude.Int.{ℤ}
use icdc_core.Prelude.Words.{cast_signed, add_i128, sub_i128}
use icdc_core.Prelude.Maps.{Map, nat_key, lookup, insert, remove, contains_key}
use icdc_core.Prelude.Results.{Res, ok, err, map_err, ok_or}
use icdc_core.Shared.Domain.{BalanceDomain}
use icdc_core.Shared.Price.{Price}
use icdc_core.Shared.Series.{Series, SeriesId, OutcomeId}
use icdc_core.Payoffs.{get_required_margin}
use icdc_core.Margin.{
  User, Position, PositionKey, position_key, AccountState, get_reserved_margin_usd,
  set_reserved_margin_usd,
}
use icdc_core.Clearing.Errors.{TradeError, internal, no_valuation_price, trade_payoff_error}
use icdc_core.Clearing.Orders.{TransferId, PositionProof}
use icdc_core.Clearing.State.{Clearing, Env, Reply, done, failed, trapped, proceed}
use icdc_core.Trade.Access.{acquire, revalidate, reduce_exposure}
use icdc_core.Trade.Execute.{position_or_new, account_or_new, change_reserved}
use icdc_core.Trade.Registered.{GetSeries, ensure_series_registered, continue}

pub record FreezePositionForTransferParams : Type 0 where
  pub transfer_id : TransferId
  pub user : User
  pub series_id : SeriesId
  pub outcome_id : Option OutcomeId
  pub valuation_price : Option Price

abbrev pub frozen_key : FreezePositionForTransferParams → PositionKey
frozen_key p = (p.user, (p.series_id, p.outcome_id))

abbrev pub proof_of : Env → FreezePositionForTransferParams → Position → PositionProof
proof_of env p position = record {
  transfer_id = p.transfer_id;
  user = p.user;
  series_id = p.series_id;
  outcome_id = p.outcome_id;
  qty = position.net_qty;
  clearing_id = env.canister;
  signature = [];
  valuation_price = p.valuation_price;
}

-- The position leaves the book and its proof is kept.
unfoldable pub freeze_now :
    Option Position
    → Env
    → FreezePositionForTransferParams
    → Clearing
    → Option PositionProof × Clearing
freeze_now none env p st = (none, st)
freeze_now (some position) env p st = (
  some (proof_of env p position),
  record st {
    positions = remove (frozen_key p) st.positions;
    frozen_transfers = insert p.transfer_id (proof_of env p position) st.frozen_transfers;
  },
)

-- A proof that was issued before is returned again.
unfoldable pub freeze_once :
    Option PositionProof
    → Env
    → FreezePositionForTransferParams
    → Clearing
    → Option PositionProof × Clearing
unfolding freeze_now
freeze_once (some existing) env p st = (some existing, st)
freeze_once none env p st = freeze_now (lookup (frozen_key p) st.positions) env p st

unfoldable pub freeze_position_for_transfer :
    Env → FreezePositionForTransferParams → Clearing → Option PositionProof × Clearing
unfolding freeze_once
freeze_position_for_transfer env p st =
    freeze_once (lookup p.transfer_id st.frozen_transfers) env p st

abbrev pub proof_key : PositionProof → PositionKey
proof_key p = (p.user, (p.series_id, p.outcome_id))

-- `proof.valuation_price.or_else(|| series.strike.clone())`.
abbrev pub or_strike : Option Price → Option Price → Option Price
or_strike none strike = strike
or_strike (some price) strike = some price

-- The position with the transferred quantity and a margin.
abbrev pub received : PositionProof → Position → ℕ → Position
received proof old margin = record old {
  net_qty = add_i128 old.net_qty proof.qty;
  reserved_margin_usd = margin;
}

-- The state in between: the quantity is written before the margin is computed.
abbrev pub with_quantity : PositionProof → Clearing → Clearing
with_quantity proof st =
    let old = position_or_new st.positions (proof_key proof) in
    record st {
      positions =
          insert (proof_key proof) (received proof old old.reserved_margin_usd) st.positions;
    }

abbrev pub with_transfer : PositionProof → Series → (margin : ℕ) → Clearing → Clearing
with_transfer proof series margin st =
    let old = position_or_new st.positions (proof_key proof) in
    let delta = sub_i128 (cast_signed margin) (cast_signed old.reserved_margin_usd) in
    let acc = account_or_new st.accounts proof.user in
    let domain = series.balance_domain in
    record st {
      positions = insert (proof_key proof) (received proof old margin) st.positions;
      accounts =
          insert proof.user
            (set_reserved_margin_usd acc domain
              (change_reserved (get_reserved_margin_usd acc domain) delta))
            st.accounts;
      accepted_transfers = insert proof.transfer_id true st.accepted_transfers;
    }

-- The margin of the position after the transfer.
abbrev pub transfer_margin : PositionProof → Series → Price → Clearing → Res TradeError ℕ
transfer_margin proof series price st = map_err trade_payoff_error (
    get_required_margin series price
      (add_i128 (position_or_new st.positions (proof_key proof)).net_qty proof.qty)
      proof.outcome_id)

unfoldable pub receive : PositionProof → Series → Price → Clearing → Reply TradeError Bool
receive proof series price st =
    proceed (transfer_margin proof series price st) (with_quantity proof st)
      λ margin. done true (with_transfer proof series margin st)

-- The call from the last `await` on.
unfoldable pub resume_accept :
    PositionProof → (generation : ℕ) → Series → Clearing → Reply TradeError Bool
unfolding receive
resume_accept proof generation series st = proceed (revalidate proof.user generation st) st λ _.
    proceed
      (ok_or (or_strike proof.valuation_price series.strike)
        (TradeError.common (internal no_valuation_price)))
      st λ price. receive proof series price st

-- The call for a transfer that was not accepted before.
unfoldable pub accept_now :
    Option GetSeries → Env → PositionProof → Clearing → Reply TradeError Bool
unfolding resume_accept
accept_now registry env proof st = proceed (acquire proof.user st) st λ generation.
    continue (ensure_series_registered registry env reduce_exposure proof.series_id st)
      λ series st'. resume_accept proof generation series st'

unfoldable pub accept_position_transfer :
    Option GetSeries → Env → PositionProof → Clearing → Reply TradeError Bool
unfolding accept_now
accept_position_transfer registry env proof st =
    if contains_key proof.transfer_id st.accepted_transfers
    then done true st
    else accept_now registry env proof st
