-- ===== src/Trade/Registered.antt =====
-- `ensure_series_registered` (src/clearing/src/utils/series.rs) and `check_trading_access`
-- (src/clearing/src/api/trade/api.rs). The registry's answers are parameters.
pub mod Gates
use icdc_core.Prelude.{ℕ, Bool, true, false, not, Option, none, some, any_by, if◌then◌else◌}
use icdc_core.Prelude.Maps.{nat_key, lookup, insert}
use icdc_core.Prelude.Results.{Res, ok, err, map_err, ok_or, ◌>>=◌}
use icdc_core.Shared.Price.{Principal}
use icdc_core.Shared.Series.{Series, SeriesId, TradingAccess, open_access, restricted}
use icdc_core.Clearing.Errors.{
  TradeError, registry_not_set, internal, unsupported_payout_unit, registry_error, series_not_found,
  not_authorized_to_trade,
}
use icdc_core.Clearing.State.{Clearing, Env, Reply, done, failed, proceed}
use icdc_core.Trade.Access.{SeriesAccess, check_window, assert_series_not_settled}

-- What the registry answers: a failed call, or the series it knows under the id, with whether its
-- payout unit is USD.
abbrev pub GetSeries : Type 0
GetSeries = SeriesId → Res ℕ (Option (Series × Bool))

-- The registry's canister, when it is set.
unfoldable pub fetch_series : Option GetSeries → SeriesId → Res TradeError Series
fetch_series none series_id = err (TradeError.common registry_not_set)
fetch_series (some get_series) series_id = do
  answer ← map_err registry_error (get_series series_id)
  found ← ok_or answer (series_not_found series_id)
  if not found.1 then err (TradeError.common (internal unsupported_payout_unit)) else ok found.0

-- The series in the cache, or the registry's, which is then cached.
unfoldable pub cached_or_fetched :
    Option Series → Option GetSeries → SeriesId → Clearing → Reply TradeError Series
unfolding fetch_series
cached_or_fetched (some series) registry series_id st = done series st
cached_or_fetched none registry series_id st =
    proceed (fetch_series registry series_id) st
      λ series. done series (record st { series = insert series.series_id series st.series })

-- A reply's value decides how the call goes on.
abbrev pub continue {ℓ κ μ} :
    {E : Type ℓ} {A : Type κ} {B : Type μ} → Reply E A → (A → Clearing → Reply E B) → Reply E B
continue (done a st) next = next a st
continue (failed e st) next = failed e st
continue Reply.trapped next = Reply.trapped

unfoldable pub ensure_series_registered :
    Option GetSeries → Env → SeriesAccess → SeriesId → Clearing → Reply TradeError Series
unfolding cached_or_fetched
ensure_series_registered registry env access series_id st =
    proceed (assert_series_not_settled series_id st) st λ _.
      continue (cached_or_fetched (lookup series_id st.series) registry series_id st)
        λ series st'. proceed (check_window access series env.now) st' λ _. done series st'

abbrev pub is_open : TradingAccess → Bool
is_open open_access = true
is_open (restricted groups) = false

-- Whether the registry, when it is set, lets the principal trade the series.
unfoldable pub check_trading_access :
    Option (Principal → SeriesId → Res ℕ Bool) → Series → Principal → Res TradeError (Unit {0})
check_trading_access registry series principal =
    if any_by is_open series.trading_access then ok tt else elim registry [
      | none ↦ err (TradeError.common registry_not_set)
      | some is_trading_authorized ↦ do
        authorized ← map_err registry_error (is_trading_authorized principal series.series_id)
        if authorized then ok tt else err not_authorized_to_trade
    ]
