-- ===== src/Tests/WithdrawRuns.antt =====
-- Runs of a withdrawal of collateral that the ledger refuses, on a small market.
use icdc_core.Prelude.{ℕ, ◌-◌, ◌≡◌, refl, none, some, [], ◌∷◌, arith}
use icdc_core.Prelude.Words.{
  mul_u128, pow10_u128, add_u128, cast_signed, cast_unsigned, wrap_i128, add_i128,
}
use icdc_core.Prelude.Int.{pos, ◌+ℤ◌}
use icdc_core.Prelude.Maps.{nat_key}
use icdc_core.Shared.Domain.{BalanceDomain, settlement}
use icdc_core.Shared.Collateral.{AssetId, unsupported_asset}
use icdc_core.Margin.{
  User, AccountState, get_balance, set_balance, drop_balance, get_cash_balance_usd,
  get_reserved_margin_usd, calculate_raw_equity, calculate_equity_usd, add_asset_values,
  add_asset_value, add_priced, asset_value_usd,
}
use icdc_core.Clearing.Plans.{
  user_key, withdrawal_get_or_create, executing, icrc_created_at_time_ns,
}
use icdc_core.Clearing.State.{Clearing, failed}
use icdc_core.Trade.Access.{acquire, mark_of}
use icdc_core.Trade.Execute.{account_or_new}
use icdc_core.Collateral.{
  AssetTransferParams, LedgerAnswer, refused, awaiting, to_u128, allows, get_handler, icrc_handler,
}
use icdc_core.Collateral.Balances.{held, rebalanced}
use icdc_core.Collateral.Withdraw.{
  WithdrawCollateralParams, PendingWithdrawal, withdraw_asset, withdrawal_request, withdraw_config,
  withdraw_gates, begin_withdrawal, open_withdrawal, reserve_once, send_withdrawal,
  request_transfer, approve, check_excess, debit_account, reserve, resume_withdrawal,
  withdraw_collateral,
}
use icdc_core.Collateral.Withdraw.Reserved.{IsCovered, begin_withdrawal-IsCovered}
use icdc_core.Collateral.Withdraw.Refused.{resume_withdrawal-refunds, withdraw_collateral-restores}
use icdc_core.Tests.Fixture.{env, account}
use icdc_core.Tests.CollateralRuns.{vault, gold}

-- User 1 with a balance of the asset.
abbrev rich : ℕ → AccountState
rich balance = record (account 1 (pos 100000)) { balances = (settlement, (3, balance) ∷ []) ∷ [] }

abbrev full : Clearing
full = record vault { accounts = (1, rich 90) ∷ [] }

abbrev withdrawal : WithdrawCollateralParams
withdrawal = record { amount = 40; asset_id = 3; withdrawal_id = 6; domain = none }

abbrev leaving : PendingWithdrawal
leaving = record {
  user = 1;
  params = withdrawal;
  plan = record {
    withdrawal_id = 6;
    user = 1;
    asset_id = 3;
    amount = 40;
    to_account = (1, none);
    status = executing;
    idempotency_ns = icrc_created_at_time_ns 100;
    receipt = none;
    reserved_amount = some 40;
    reserved_cash_usd = none;
  };
}

abbrev payment : AssetTransferParams
payment = withdrawal_request icrc_handler gold leaving 40

abbrev lowered : Clearing
lowered = record full {
  accounts = (1, rich 50) ∷ [];
  withdrawal_plans = ((1, 6), leaving.plan) ∷ [];
}

withdraws : begin_withdrawal env 1 withdrawal full ≡ awaiting payment leaving lowered
unfolding begin_withdrawal withdraw_gates withdraw_config acquire mark_of allows open_withdrawal
    withdrawal_get_or_create reserve_once approve to_u128 asset_value_usd check_excess debit_account
    calculate_equity_usd calculate_raw_equity add_asset_values add_asset_value add_priced
    get_balance set_balance drop_balance get_cash_balance_usd get_reserved_margin_usd reserve
    send_withdrawal request_transfer get_handler add_u128 mul_u128 pow10_u128 cast_signed
    cast_unsigned wrap_i128 add_i128 ◌+ℤ◌
withdraws = refl

abbrev closed : AssetTransferParams → LedgerAnswer
closed request = refused unsupported_asset

begin_withdrawal-IsCovered_example :
    (payment.amount ≡ withdrawal.amount)
    × IsCovered lowered settlement (account_or_new lowered.accounts 1)
    × ((v : User) (e : BalanceDomain) (k : AssetId)
        → held lowered.accounts v e k
          ≡ rebalanced 1 settlement 3
              (held full.accounts 1 settlement 3 - 40)
              (held full.accounts v e k)
              v
              e
              k)
begin_withdrawal-IsCovered_example = begin_withdrawal-IsCovered env 1 withdrawal full refl withdraws

-- Meanwhile user 1 has deposited five more.
abbrev meanwhile : Clearing
meanwhile = record lowered { accounts = (1, rich 55) ∷ [] }

resume_withdrawal-refunds_example :
    ((v : User) (b : BalanceDomain) (k : AssetId)
      → held lowered.accounts v b k
        ≡ rebalanced 1 settlement 3
            (held full.accounts 1 settlement 3 - 40)
            (held full.accounts v b k)
            v
            b
            k)
    × ((end : Clearing) × (resume_withdrawal leaving (refused unsupported_asset) meanwhile
          ≡ failed (withdraw_asset unsupported_asset) end)
        × ((v : User) (b : BalanceDomain) (k : AssetId)
            → held end.accounts v b k
              ≡ rebalanced 1 settlement 3
                  (add_u128 (held meanwhile.accounts 1 settlement 3) 40)
                  (held meanwhile.accounts v b k)
                  v
                  b
                  k)
        × (end ≡ record meanwhile {
          accounts = end.accounts;
          withdrawal_plans = end.withdrawal_plans;
        }))
resume_withdrawal-refunds_example =
    resume_withdrawal-refunds env 1 withdrawal full meanwhile unsupported_asset refl withdraws refl

withdraw_collateral-restores_example :
    (end : Clearing) × (withdraw_collateral closed env 1 withdrawal full
      ≡ failed (withdraw_asset unsupported_asset) end)
    × ((v : User) (b : BalanceDomain) (k : AssetId)
        → held end.accounts v b k ≡ held full.accounts v b k)
unfolding get_balance
withdraw_collateral-restores_example =
    withdraw_collateral-restores closed env 1 withdrawal full unsupported_asset refl withdraws refl
      (omega arith) (omega arith)
