-- ===== src/Tests/LedgerRuns.antt =====
-- A run of a transfer on a ledger whose fee has changed.
use icdc_core.Prelude.{ℕ, ◌≡◌, refl, none, some, Option, [], ◌∷◌, List, arith, ◌==◌, if◌then◌else◌}
use icdc_core.Prelude.Results.{ok, err}
use icdc_core.Shared.Price.{Principal}
use icdc_core.Shared.Series.{icrc}
use icdc_core.Clearing.State.{Clearing}
use icdc_core.Reassignment.Sweep.{cached_transfer_fee}
use icdc_core.Collateral.{AssetTransferParams, icrc_handler, user_clearing, external_principal}
use icdc_core.Collateral.Icrc.{
  TransferArg, LedgerReply, bad_fee, resolve_account, transfer_arg, transfer,
}
use icdc_core.Collateral.Icrc.Healed.{told, transfer-heals}
use icdc_core.Tests.Fixture.{env}
use icdc_core.Tests.CollateralRuns.{vault, gold_metrics}

-- The canister believes that the fee is four.
abbrev stale : Clearing
stale = record vault {
  asset_metrics = (3, record gold_metrics { latest_transfer_fee = some 4 }) ∷ [];
}

-- The ledger takes ten.
abbrev answer : Option ℕ → LedgerReply
answer none = ok (ok 1)
answer (some fee) = if fee == 10 then ok (ok 1) else ok (err (bad_fee 10))

abbrev ledger : Principal → TransferArg → LedgerReply
ledger principal arg = answer arg.fee

abbrev subaccount_of : Principal → List ℕ
subaccount_of principal = principal ∷ []

abbrev message_of : ℕ → ℕ
message_of fee = fee

abbrev payment : AssetTransferParams
payment = record {
  handler = icrc_handler;
  asset = icrc 77;
  asset_id = 3;
  from = user_clearing 1;
  to = external_principal 2;
  amount = 40;
  created_at_time_ns = some 100;
}

transfer-heals_example :
    (st' : Clearing) × (transfer subaccount_of message_of ledger env payment stale
      ≡ told (ledger 77 (transfer_arg (9, some (1 ∷ [])) (2, none) payment (some 10))) st')
    × (cached_transfer_fee 3 st' ≡ some 10)
    × (st' ≡ record stale { asset_metrics = st'.asset_metrics })
unfolding resolve_account cached_transfer_fee
transfer-heals_example =
    transfer-heals subaccount_of message_of ledger env payment stale 10 {cached = 4} refl refl refl
      refl (omega arith) refl (λ other. refl)
