-- ===== src/Collateral/Icrc.antt =====
-- Transfers on an ICRC ledger (src/clearing/src/assets/icrc/handler.rs) and the cache of its fee
-- (src/clearing/src/memory.rs). The ledger, the hash behind a user's subaccount and the texts of
-- errors are parameters, and no other message runs between the two attempts of a transfer.
pub mod Healed
use icdc_core.Prelude.{ℕ, Option, none, some, List, ltb, if◌then◌else◌}
use icdc_core.Prelude.Words.{u128_mod}
use icdc_core.Prelude.Maps.{Map, nat_key, lookup, insert}
use icdc_core.Prelude.Results.{Res, ok, err, ◌>>=◌}
use icdc_core.Shared.Price.{Principal}
use icdc_core.Shared.Series.{Asset, icrc, native_evm, erc20}
use icdc_core.Shared.Collateral.{
  AssetId, AssetError, invalid_asset_for_handler, asset_math_overflow, transfer_error, AssetMetrics,
}
use icdc_core.Margin.{User}
use icdc_core.Clearing.State.{Clearing, Env, Reply, done, failed, proceed}
use icdc_core.Reassignment.Sweep.{cached_transfer_fee}
use icdc_core.Collateral.{
  AssetAccount, user_clearing, canister_main, external_principal, external_icrc, external_evm,
  AssetTransferParams, AssetTransferFromParams, to_u128,
}

-- An account of the ledger: its owner and its subaccount.
abbrev pub Account : Type 0
Account = Principal × Option (List ℕ)

-- The arguments of `icrc1_transfer` that the handler sets.
pub record TransferArg : Type 0 where
  pub from_subaccount : Option (List ℕ)
  pub to : Account
  pub amount : ℕ
  pub fee : Option ℕ
  pub created_at_time : Option ℕ

-- The ledger's errors, of which the handler reads two.
pub data TransferError : Type 0 where
  bad_fee : (expected_fee : ℕ) → TransferError
  duplicate : (duplicate_of : ℕ) → TransferError
  other_error : (message : ℕ) → TransferError

pub data SettledTransfer : Type 0 where
  block : ℕ → SettledTransfer
  drifted : (expected_fee : ℕ) → SettledTransfer

-- What a decoded call of the ledger gives: the failure of the call, or the ledger's own answer.
abbrev pub LedgerReply : Type 0
LedgerReply = Res AssetError (Res TransferError ℕ)

abbrev pub as_icrc : Asset → Res AssetError Principal
as_icrc (icrc ledger) = ok ledger
as_icrc (native_evm chain address) = err invalid_asset_for_handler
as_icrc (erc20 chain contract address) = err invalid_asset_for_handler

unfoldable pub settle_transfer : Res TransferError ℕ → Res AssetError SettledTransfer
settle_transfer (ok n) = do index ← to_u128 asset_math_overflow n; ok (block index)
settle_transfer (err (duplicate n)) = do index ← to_u128 asset_math_overflow n; ok (block index)
settle_transfer (err (bad_fee n)) = do fee ← to_u128 asset_math_overflow n; ok (drifted fee)
settle_transfer (err (other_error message)) = err (transfer_error message)
settle_transfer Res.trap = Res.trap

unfoldable pub update_fee_found :
    Option AssetMetrics → Env → AssetId → (fee : ℕ) → Clearing → Clearing
update_fee_found none env asset_id fee st = st
update_fee_found (some metrics) env asset_id fee st = record st {
  asset_metrics =
      insert asset_id
        (record metrics { latest_transfer_fee = some fee; last_updated_ns = some env.now })
        st.asset_metrics;
}

unfoldable pub update_cached_transfer_fee : Env → AssetId → (fee : ℕ) → Clearing → Clearing
unfolding update_fee_found
update_cached_transfer_fee env asset_id fee st =
    update_fee_found (lookup asset_id st.asset_metrics) env asset_id fee st

-- The answer to the second attempt.
unfoldable pub retried :
    (bad_fee_message : ℕ → ℕ) → Env → AssetId → SettledTransfer → Clearing → Reply AssetError ℕ
retried bad_fee_message env asset_id (block index) st = done index st
retried bad_fee_message env asset_id (drifted fee) st =
    failed (transfer_error (bad_fee_message fee)) (update_cached_transfer_fee env asset_id fee st)

-- The answer to the first attempt.
unfoldable pub attempted :
    (bad_fee_message : ℕ → ℕ)
    → Env
    → AssetId
    → (Option ℕ → TransferArg)
    → (TransferArg → Res AssetError SettledTransfer)
    → SettledTransfer
    → Clearing
    → Reply AssetError ℕ
unfolding retried
attempted bad_fee_message env asset_id build_args send (block index) st = done index st
attempted bad_fee_message env asset_id build_args send (drifted fee) st =
    let healed = update_cached_transfer_fee env asset_id fee st in
    proceed (send (build_args (some fee))) healed
      λ second. retried bad_fee_message env asset_id second healed

unfoldable pub run_cached_fee_transfer :
    (bad_fee_message : ℕ → ℕ)
    → Env
    → AssetId
    → Option ℕ
    → (Option ℕ → TransferArg)
    → (TransferArg → Res AssetError SettledTransfer)
    → Clearing
    → Reply AssetError ℕ
unfolding attempted
run_cached_fee_transfer bad_fee_message env asset_id cached_fee build_args send st =
    proceed (send (build_args cached_fee)) st
      λ first. attempted bad_fee_message env asset_id build_args send first st

-- `derive_user_subaccount` hashes the principals of the canister and of the user.
unfoldable pub resolve_account :
    (derive_user_subaccount : Principal → List ℕ) → Env → AssetAccount → Res AssetError Account
resolve_account derive_user_subaccount env (user_clearing user) =
    ok (env.canister, some (derive_user_subaccount user))
resolve_account derive_user_subaccount env canister_main = ok (env.canister, none)
resolve_account derive_user_subaccount env (external_principal owner) = ok (owner, none)
resolve_account derive_user_subaccount env (external_icrc owner subaccount) = ok (owner, subaccount)
resolve_account derive_user_subaccount env (external_evm address) = err invalid_asset_for_handler

abbrev pub transfer_arg : Account → Account → AssetTransferParams → Option ℕ → TransferArg
transfer_arg from to p fee = record {
  from_subaccount = from.1;
  to = to;
  amount = p.amount;
  fee = fee;
  created_at_time = p.created_at_time_ns;
}

-- One attempt at the ledger of the asset.
abbrev pub send_with : (TransferArg → LedgerReply) → TransferArg → Res AssetError SettledTransfer
send_with send_icrc1_transfer arg = do answer ← send_icrc1_transfer arg; settle_transfer answer

unfoldable pub transfer :
    (derive_user_subaccount : Principal → List ℕ)
    → (bad_fee_message : ℕ → ℕ) → (send_icrc1_transfer : Principal → TransferArg → LedgerReply)
    → Env
    → AssetTransferParams
    → Clearing
    → Reply AssetError ℕ
unfolding run_cached_fee_transfer resolve_account settle_transfer
transfer derive_user_subaccount bad_fee_message send_icrc1_transfer env p st =
    proceed (as_icrc p.asset) st λ ledger.
      proceed (resolve_account derive_user_subaccount env p.from) st λ from_account.
        proceed (resolve_account derive_user_subaccount env p.to) st λ to_account.
          run_cached_fee_transfer bad_fee_message env p.asset_id (cached_transfer_fee p.asset_id st)
            (transfer_arg from_account to_account p) (send_with (send_icrc1_transfer ledger)) st

-- The arguments of `icrc2_transfer_from` that the handler sets.
pub record TransferFromArgs : Type 0 where
  pub spender_subaccount : Option (List ℕ)
  pub from_account : Account
  pub to_account : Account
  pub from_amount : ℕ
  pub from_created_at_time : Option ℕ

-- The ledger's errors, of which the handler reads one.
pub data TransferFromError : Type 0 where
  from_duplicate : (duplicate_of : ℕ) → TransferFromError
  other_from_error : (message : ℕ) → TransferFromError

unfoldable pub settle_transfer_from : Res TransferFromError ℕ → Res AssetError ℕ
settle_transfer_from (ok n) = to_u128 asset_math_overflow n
settle_transfer_from (err (from_duplicate n)) = to_u128 asset_math_overflow n
settle_transfer_from (err (other_from_error message)) = err (transfer_error message)
settle_transfer_from Res.trap = Res.trap

unfoldable pub transfer_from :
    (derive_user_subaccount : Principal → List ℕ)
    → (send_icrc2_transfer_from : Principal
        → TransferFromArgs
        → Res AssetError (Res TransferFromError ℕ))
    → Env
    → AssetTransferFromParams
    → Res AssetError ℕ
unfolding resolve_account settle_transfer_from
transfer_from derive_user_subaccount send_icrc2_transfer_from env p = do
  ledger ← as_icrc p.asset
  spender ← resolve_account derive_user_subaccount env p.spender
  from ← resolve_account derive_user_subaccount env p.from
  to ← resolve_account derive_user_subaccount env p.to
  answer ← send_icrc2_transfer_from ledger (record {
    spender_subaccount = spender.1;
    from_account = from;
    to_account = to;
    from_amount = p.amount;
    from_created_at_time = p.created_at_time_ns;
  })
  settle_transfer_from answer
