-- ===== src/Tests/CollateralRuns.antt =====
-- Runs of the deposits of collateral, on a small market.
use icdc_core.Prelude.{◌≡◌, refl, true, none, [], ◌∷◌, arith}
use icdc_core.Prelude.Words.{add_u128}
use icdc_core.Prelude.Maps.{nat_key}
use icdc_core.Shared.Domain.{BalanceDomain, settlement}
use icdc_core.Shared.Series.{icrc}
use icdc_core.Shared.Collateral.{AssetId, CollateralAssetConfig, AssetMetrics}
use icdc_core.Margin.{User}
use icdc_core.Clearing.Plans.{user_key, deposit_get_or_create, executing, icrc_created_at_time_ns}
use icdc_core.Clearing.State.{Clearing, Env, done}
use icdc_core.Trade.Access.{acquire, mark_of}
use icdc_core.Reassignment.{validate_and_rekey}
use icdc_core.Clearing.Plans.{ReassignmentPlan}
use icdc_core.Reassignment.Blocked.{validate_and_rekey-begin_deposit}
use icdc_core.Collateral.{
  AssetTransferFromParams, settled, awaiting, replied, to_u128, allows, get_handler, handler_of,
}
use icdc_core.Collateral.Balances.{held, rebalanced}
use icdc_core.Collateral.Deposit.{
  DepositCollateralParams, PendingDeposit, deposit_request, deposit_config, deposit_gates,
  begin_deposit, open_deposit, continue_deposit, send_deposit, finish_deposit, resume_deposit,
  credit, put_deposit,
}
use icdc_core.Collateral.Deposit.Credit.{
  resume_deposit-credits, resume_deposit-credited, begin_deposit-once, credited,
}
use icdc_core.Collateral.Deposit.Retry.{resume_deposit-overlap}
use icdc_core.Tests.Fixture.{env, market}

-- An asset with eight decimals, at one dollar, for the settlement domain only.
abbrev pub gold : CollateralAssetConfig
gold = record {
  asset_id = 3;
  asset = icrc 77;
  symbol = 0;
  decimals = 8;
  is_enabled = true;
  oracle_id = none;
  allowed_balance_domains = settlement ∷ [];
}

abbrev pub gold_metrics : AssetMetrics
gold_metrics = record {
  price_usd = record { value = 1; decimals = 0 };
  haircut_bps = 0;
  latest_transfer_fee = none;
  insurance_fee_ratio = none;
  protocol_fee_ratio = none;
  last_updated_ns = none;
}

abbrev pub vault : Clearing
vault = record (market [] []) {
  collateral_assets = (3, gold) ∷ [];
  asset_metrics = (3, gold_metrics) ∷ [];
}

abbrev later : Env
later = record { now = 150; canister = 9 }

abbrev deposit : DepositCollateralParams
deposit = record { amount = 40; asset_id = 3; deposit_id = 5; domain = none }

abbrev waiting : PendingDeposit
waiting = record {
  user = 1;
  params = deposit;
  plan = record {
    deposit_id = 5;
    user = 1;
    asset_id = 3;
    amount = 40;
    status = executing;
    idempotency_ns = icrc_created_at_time_ns 100;
    receipt = none;
  };
}

abbrev request : AssetTransferFromParams
request = deposit_request (handler_of (icrc 77)) gold waiting 40

-- The state after the first part of that deposit.
abbrev asked : Clearing
asked = put_deposit (1, 5) waiting.plan vault

begins : begin_deposit env 1 deposit vault ≡ awaiting request waiting asked
unfolding begin_deposit open_deposit deposit_gates deposit_config acquire mark_of allows
    deposit_get_or_create continue_deposit send_deposit get_handler to_u128
begins = refl

resume_deposit-credits_example :
    (st' : Clearing) × (resume_deposit waiting (settled 8) asked ≡ done tt st')
    × (st' ≡ record asked { accounts = st'.accounts; deposit_plans = st'.deposit_plans })
    × ((v : User) (e : BalanceDomain) (k : AssetId)
        → held st'.accounts v e k
          ≡ rebalanced 1 settlement 3
              (add_u128 (held asked.accounts 1 settlement 3) 40)
              (held asked.accounts v e k)
              v
              e
              k)
resume_deposit-credits_example = resume_deposit-credits waiting 8 asked refl (omega arith)

begin_deposit-once_example :
    begin_deposit later 1 (record deposit { amount = 99 }) (credited waiting 8 asked)
    ≡ replied (done tt (credited waiting 8 asked))
unfolding deposit_gates deposit_config acquire mark_of allows resume_deposit finish_deposit to_u128
    credit
begin_deposit-once_example =
    begin_deposit-once waiting 8 later (record deposit { amount = 99 }) asked {config = gold} refl
      (omega arith) (resume_deposit-credited waiting 8 asked refl (omega arith)) refl refl refl

resume_deposit-overlap_example :
    (second : Clearing) × (once : Clearing) × (twice : Clearing) × (begin_deposit env 1 deposit
        asked
      ≡ awaiting request waiting second)
    × (resume_deposit waiting (settled 8) second ≡ done tt once)
    × (resume_deposit waiting (settled 8) once ≡ done tt twice)
    × (held twice.accounts 1 settlement 3
        ≡ add_u128 (add_u128 (held asked.accounts 1 settlement 3) 40) 40)
unfolding deposit_gates deposit_config acquire mark_of allows
resume_deposit-overlap_example = resume_deposit-overlap env 1 deposit vault 8 begins refl

validate_and_rekey-begin_deposit_example :
    ((plan : ReassignmentPlan) (end : Clearing)
      → ¬ (validate_and_rekey 1 6 later 2 asked ≡ done plan end))
    × ((plan : ReassignmentPlan) (end : Clearing)
        → ¬ (validate_and_rekey 6 1 later 2 asked ≡ done plan end))
validate_and_rekey-begin_deposit_example =
    validate_and_rekey-begin_deposit env later 1 6 deposit vault asked 2 begins refl
