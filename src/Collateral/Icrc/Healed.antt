-- ===== src/Collateral/Icrc/Healed.antt =====
-- What a transfer does when the ledger's fee has changed (src/clearing/src/assets/icrc/handler.rs,
-- src/clearing/src/memory.rs).
use icdc_core.Prelude.{
  ℕ, ◌<◌, ◌≡◌, refl, ◌∙◌, ap, inl, inr, Bool, true, false, ltb, if◌then◌else◌, Option, none, some,
  List, arith, lt→ltb, ◌==◌, ==_iff, Bool-cases,
}
use icdc_core.Prelude.Words.{u128_mod}
use icdc_core.Prelude.Maps.{nat_key, lookup, lookup-insert, beq_refl}
use icdc_core.Prelude.Results.{Res, ok, err, ◌>>=◌}
use icdc_core.Shared.Price.{Principal}
use icdc_core.Shared.Collateral.{
  AssetId, AssetMetrics, AssetError, asset_math_overflow, transfer_error,
}
use icdc_core.Clearing.State.{Clearing, Env, Reply, done, failed, trapped, proceed}
use icdc_core.Reassignment.Sweep.{cached_transfer_fee, cached_fee_of}
use icdc_core.Collateral.{AssetTransferParams, to_u128}
use icdc_core.Collateral.Icrc.{
  Account, TransferArg, LedgerReply, SettledTransfer, bad_fee, duplicate, other_error, block,
  drifted, as_icrc, settle_transfer, update_fee_found, update_cached_transfer_fee, retried,
  attempted, run_cached_fee_transfer, resolve_account, transfer_arg, send_with, transfer,
}

-- Whether the ledger answers that it expects another fee.
abbrev pub is_bad_fee : LedgerReply → Bool
is_bad_fee (ok (err (bad_fee fee))) = true
is_bad_fee _ = false

abbrev pub index_of : ℕ → Clearing → Reply AssetError ℕ
index_of n st = if ltb n u128_mod then done n st else failed asset_math_overflow st

-- What a caller is told of a request: the index of its block, by this call or by an earlier one, or
-- the reason why the ledger or the call of the ledger failed.
abbrev pub told : LedgerReply → Clearing → Reply AssetError ℕ
told (ok (ok n)) st = index_of n st
told (ok (err (duplicate n))) st = index_of n st
told (ok (err (bad_fee fee))) st = trapped
told (ok (err (other_error message))) st = failed (transfer_error message) st
told (ok Res.trap) st = trapped
told (err e) st = failed e st
told Res.trap st = trapped

-- What the last attempt leads to, unless it meets another fee.
settled-told :
    (answer : LedgerReply) (st : Clearing) (next : SettledTransfer → Reply AssetError ℕ)
    → is_bad_fee answer ≡ false
    → ((n : ℕ) → next (block n) ≡ done n st)
    → proceed (answer >>= settle_transfer) st next ≡ told answer st
unfolding settle_transfer to_u128
settled-told (ok (ok n)) st next other final = elim (Bool-cases (ltb n u128_mod)) [
  | inl small ↦ rw small (final n)
  | inr large ↦ rw large refl
]
settled-told (ok (err (duplicate n))) st next other final = elim (Bool-cases (ltb n u128_mod)) [
  | inl small ↦ rw small (final n)
  | inr large ↦ rw large refl
]
settled-told (ok (err (bad_fee fee))) st next other final = absurd (ground (arith, other))
settled-told (ok (err (other_error message))) st next other final = refl
settled-told (ok Res.trap) st next other final = refl
settled-told (err e) st next other final = refl
settled-told Res.trap st next other final = refl

send_with-drifted :
    (send : TransferArg → LedgerReply) (arg : TransferArg) (fee : ℕ)
    → fee < u128_mod
    → send arg ≡ ok (err (bad_fee fee))
    → send_with send arg ≡ ok (drifted fee)
unfolding settle_transfer to_u128
send_with-drifted send arg fee fits h = rw (h, lt→ltb fee u128_mod fits) refl

update_fee_found-cached :
    (found : Option AssetMetrics) (env : Env) (asset_id : AssetId) (fee : ℕ) (st : Clearing)
    {cached : ℕ}
    → cached_fee_of found ≡ some cached
    → (cached_transfer_fee asset_id (update_fee_found found env asset_id fee st) ≡ some fee)
      × (update_fee_found found env asset_id fee st ≡ record st {
        asset_metrics = (update_fee_found found env asset_id fee st).asset_metrics;
      })
unfolding update_fee_found cached_transfer_fee
update_fee_found-cached none env asset_id fee st h = absurd (ground arith)
update_fee_found-cached (some metrics) env asset_id fee st h = (
  rw
      (
        lookup-insert asset_id asset_id
            (record metrics { latest_transfer_fee = some fee; last_updated_ns = some env.now })
            st.asset_metrics,
        beq_refl asset_id,
      )
      refl,
  refl,
)

cached_fee_of-known :
    (asset_id : AssetId) (st : Clearing) {cached : ℕ}
    → cached_transfer_fee asset_id st ≡ some cached
    → cached_fee_of (lookup asset_id st.asset_metrics) ≡ some cached
unfolding cached_transfer_fee
cached_fee_of-known asset_id st known = known

-- Let an asset be on an ICRC ledger, let both accounts of a transfer resolve to accounts there, and
-- let the canister have some fee cached for the asset. Suppose that the ledger's fee is a `u128`,
-- that the ledger does not reject the request under its own fee for the fee, and that it rejects the
-- request under the cached fee, where that differs, with its own fee as the expected one. Then, when
-- no other message runs between the attempts, the call ends as the ledger answers the request under
-- its own fee: with the index of the block, where it is a `u128`, for a transfer or a duplicate, and
-- with an error otherwise. The cache then holds that fee, and nothing but the metrics of the assets
-- is written.
pub transfer-heals :
    (derive_user_subaccount : Principal → List ℕ) (bad_fee_message : ℕ → ℕ)
    (send : Principal → TransferArg → LedgerReply) (env : Env) (p : AssetTransferParams)
    (st : Clearing) (fee : ℕ) {ledger : Principal} {from to : Account} {cached : ℕ}
    → as_icrc p.asset ≡ ok ledger
    → resolve_account derive_user_subaccount env p.from ≡ ok from
    → resolve_account derive_user_subaccount env p.to ≡ ok to
    → cached_transfer_fee p.asset_id st ≡ some cached
    → fee < u128_mod
    → is_bad_fee (send ledger (transfer_arg from to p (some fee))) ≡ false
    → ((cached == fee) ≡ false
        → send ledger (transfer_arg from to p (some cached)) ≡ ok (err (bad_fee fee)))
    → (st' : Clearing) × (transfer derive_user_subaccount bad_fee_message send env p st
        ≡ told (send ledger (transfer_arg from to p (some fee))) st')
      × (cached_transfer_fee p.asset_id st' ≡ some fee)
      × (st' ≡ record st { asset_metrics = st'.asset_metrics })
unfolding transfer run_cached_fee_transfer attempted retried update_cached_transfer_fee
transfer-heals derive_user_subaccount bad_fee_message send env p st fee {ledger} {from} {to}
      {cached} asset source target known fits accepted drifts =
    let arg = transfer_arg from to p in
    elim (Bool-cases (cached == fee)) [
      | inl same ↦
          let fresh : cached_transfer_fee p.asset_id st ≡ some fee =
            known ∙ ap (λ (g : ℕ). some g) ((==_iff cached fee).0 same) in
          (
            st,
            rw (asset, source, target, fresh)
                (settled-told (send ledger (arg (some fee))) st _ accepted (λ n. refl)),
            fresh,
            refl,
          )
      | inr other ↦
          let found = lookup p.asset_id st.asset_metrics in
          let refused : send_with (send ledger) (arg (some cached)) ≡ ok (drifted fee) =
            send_with-drifted (send ledger) (arg (some cached)) fee fits (drifts other) in
          let (healed, framed) =
            update_fee_found-cached found env p.asset_id fee st
              (cached_fee_of-known p.asset_id st known) in
          let after = update_fee_found found env p.asset_id fee st in
          (
            after,
            rw (asset, source, target, known, refused)
                (settled-told (send ledger (arg (some fee))) after _ accepted (λ n. refl)),
            healed,
            framed,
          )
    ]
