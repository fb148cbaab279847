-- ===== src/Collateral.antt =====
-- Deposits and withdrawals of collateral (src/clearing/src/api/collateral/{api,errors,params}.rs,
-- src/clearing/src/assets/asset/{handler,params}.rs, src/clearing/src/types/account.rs).
-- An update call is cut at its `await`: the first part ends in a reply or in a request to the
-- ledger, and the second part resumes, with the ledger's answer, on the state of that later time.
pub mod Deposit
pub mod Withdraw
pub mod Balances
pub mod Icrc
use icdc_core.Prelude.{
  ℕ, ◌<◌, ◌≡◌, refl, arith, Bool, Option, none, some, List, map, ltb, any_by, if◌then◌else◌,
}
use icdc_core.Prelude.Words.{u128_mod}
use icdc_core.Prelude.Maps.{Map, nat_key, lookup, values}
use icdc_core.Prelude.Results.{Res, ok, err, trap}
use icdc_core.Shared.Domain.{BalanceDomain, domain_beq, settlement}
use icdc_core.Shared.Price.{Principal}
use icdc_core.Shared.Series.{Asset, icrc, native_evm, erc20}
use icdc_core.Shared.Collateral.{AssetId, AssetError, CollateralAssetConfig, AssetMetrics}
use icdc_core.Margin.{User, unwrap_or}
use icdc_core.Clearing.State.{Clearing, Reply, failed, trapped}

-- `ExternalAssetAccount` inside `AssetAccount`.
pub data AssetAccount : Type 0 where
  user_clearing : User → AssetAccount
  canister_main : AssetAccount
  external_principal : Principal → AssetAccount
  external_icrc : Principal → Option (List ℕ) → AssetAccount
  external_evm : ℕ → AssetAccount

pub data AssetHandler : Type 0 where
  icrc_handler evm_handler : AssetHandler

-- The EVM handler is built from the configuration and never fails to build.
abbrev pub handler_of : Asset → AssetHandler
handler_of (icrc ledger) = icrc_handler
handler_of (native_evm chain address) = evm_handler
handler_of (erc20 chain contract address) = evm_handler

unfoldable pub get_handler : Asset → Res AssetError AssetHandler
get_handler asset = ok (handler_of asset)

pub record AssetTransferParams : Type 0 where
  pub handler : AssetHandler
  pub asset : Asset
  pub asset_id : AssetId
  pub from : AssetAccount
  pub to : AssetAccount
  pub amount : ℕ
  pub created_at_time_ns : Option ℕ

pub record AssetTransferFromParams : Type 0 where
  pub handler : AssetHandler
  pub asset : Asset
  pub spender : AssetAccount
  pub from : AssetAccount
  pub to : AssetAccount
  pub amount : ℕ
  pub created_at_time_ns : Option ℕ

-- What the handler's `await` yields.
pub data LedgerAnswer : Type 0 where
  settled : (block : ℕ) → LedgerAnswer
  refused : AssetError → LedgerAnswer

-- A call up to its `await`.
pub data Begun {ℓ κ μ} (E : Type ℓ) (Q : Type κ) (P : Type μ) : Type (ℓ ⊔ κ ⊔ μ) where
  replied : Reply E (Unit {0}) → Begun E Q P
  awaiting : (request : Q) (pending : P) → Clearing → Begun E Q P

-- A computed result decides how the part before the `await` goes on.
abbrev pub begin_with {ℓ κ μ ν} :
    {E : Type ℓ} {A : Type κ} {Q : Type μ} {P : Type ν}
    → Res E A
    → Clearing
    → (A → Begun E Q P)
    → Begun E Q P
begin_with (ok a) st next = next a
begin_with (err e) st next = replied (failed e st)
begin_with trap st next = replied trapped

-- A call during whose `await` no other message runs.
abbrev pub conclude {ℓ κ μ} :
    {E : Type ℓ} {Q : Type κ} {P : Type μ}
    → Begun E Q P
    → (Q → LedgerAnswer)
    → (P → LedgerAnswer → Clearing → Reply E (Unit {0}))
    → Reply E (Unit {0})
conclude (replied reply) ledger resume = reply
conclude (awaiting request pending st) ledger resume = resume pending (ledger request) st

-- A call that reaches its `await` went through its first step.
pub begin_with-eq-awaiting {ℓ κ μ ν} :
    {E : Type ℓ} {A : Type κ} {Q : Type μ} {P : Type ν} (r : Res E A) (st : Clearing)
    (next : A → Begun E Q P) {request : Q} {pending : P} {st' : Clearing}
    → begin_with r st next ≡ awaiting request pending st'
    → (a : A) × (r ≡ ok a) × (next a ≡ awaiting request pending st')
begin_with-eq-awaiting (ok a) st next h = (a, refl, h)
begin_with-eq-awaiting (err e) st next h = absurd (ground arith)
begin_with-eq-awaiting trap st next h = absurd (ground arith)

pub awaiting-injective {ℓ κ μ} :
    {E : Type ℓ} {Q : Type κ} {P : Type μ} {q r : Q} {p o : P} {st st' : Clearing}
    → ◌≡◌ {A = Begun E Q P} (awaiting q p st) (awaiting r o st')
    → (q ≡ r) × (p ≡ o) × (st ≡ st')
awaiting-injective h = (cc, cc, cc)

pub replied-ne-awaiting {ℓ κ μ} :
    {E : Type ℓ} {Q : Type κ} {P : Type μ} {q : Q} {p : P} {r : Reply E (Unit {0})} {st : Clearing}
    → ¬ (◌≡◌ {A = Begun E Q P} (replied r) (awaiting q p st))
replied-ne-awaiting h = cc

-- `amount.0.try_into()` for a `u128`.
unfoldable pub to_u128 {ℓ} : {E : Type ℓ} → E → ℕ → Res E ℕ
to_u128 e n = if ltb n u128_mod then ok n else err e

pub to_u128-eq-ok {ℓ} :
    {E : Type ℓ} (e : E) (n : ℕ) {m : ℕ} → to_u128 e n ≡ ok m → (n < u128_mod) × (n ≡ m)
unfolding to_u128
to_u128-eq-ok e n h = ground arith

-- `allowed.contains(&domain)`.
unfoldable pub allows : List BalanceDomain → BalanceDomain → Bool
allows allowed domain = any_by (λ d. domain_beq d domain) allowed

abbrev pub or_settlement : Option BalanceDomain → BalanceDomain
or_settlement domain = unwrap_or domain settlement

pub record CollateralAssetInfo : Type 0 where
  pub config : CollateralAssetConfig
  pub metrics : Option AssetMetrics

-- `list_collateral_assets`.
unfoldable pub list_assets :
    Map AssetId CollateralAssetConfig → Map AssetId AssetMetrics → List CollateralAssetInfo
list_assets configs metrics =
    map
      (λ (e : AssetId × CollateralAssetConfig). record {
        config = e.1;
        metrics = lookup e.0 metrics;
      })
      configs

unfoldable pub list_collateral_assets : Clearing → List CollateralAssetInfo
unfolding list_assets
list_collateral_assets st = list_assets st.collateral_assets st.asset_metrics
