-- ===== src/Trade/Registered/Gates.antt =====
-- Which cached series a call may open exposure on (src/clearing/src/utils/series.rs).
use icdc_core.Prelude.{◌≡◌, ◌↔◌, Bool, true, false, Option, some, arith, if◌then◌else◌}
use icdc_core.Prelude.Maps.{nat_key, lookup, contains_key}
use icdc_core.Prelude.Results.{Res, ok, err}
use icdc_core.Shared.Series.{Series, SeriesId, is_tradeable_at}
use icdc_core.Clearing.Errors.{TradeError, series_already_settled}
use icdc_core.Clearing.State.{Clearing, Env, done, proceed}
use icdc_core.Trade.Access.{
  open_exposure, assert_series_not_settled, check_window, check_window-tradeable,
}
use icdc_core.Trade.Registered.{GetSeries, cached_or_fetched, ensure_series_registered}

-- Two gates in a row are passed exactly where each is.
gates_passed :
    (shut : Bool) (window : Res TradeError (Unit {0})) (e : TradeError) (s : Series) (st : Clearing)
    → (proceed
          (if shut then err e else ok tt)
          st
          (λ (_ : Unit {0}). proceed window st λ _. done s st)
        ≡ done s st)
      ↔ ((shut ≡ false) × (window ≡ ok tt))
gates_passed true (ok u) e s st = ground arith
gates_passed true (err f) e s st = ground arith
gates_passed true Res.trap e s st = ground arith
gates_passed false (ok u) e s st = ground arith
gates_passed false (err f) e s st = ground arith
gates_passed false Res.trap e s st = ground arith

-- A call that opens exposure on a cached series gets the series, with nothing written, exactly
-- where the series has no settlement plan and its status is that of a tradeable series at the time.
pub ensure_series_registered-tradeable :
    (registry : Option GetSeries) (env : Env) (series_id : SeriesId) (s : Series) (st : Clearing)
    → lookup series_id st.series ≡ some s
    → (ensure_series_registered registry env open_exposure series_id st ≡ done s st)
      ↔ ((contains_key series_id st.settlement_plans ≡ false) × (is_tradeable_at s env.now ≡ true))
unfolding ensure_series_registered cached_or_fetched assert_series_not_settled
ensure_series_registered-tradeable registry env series_id s st cached =
    let window = check_window-tradeable s env.now in
    let gates =
      gates_passed (contains_key series_id st.settlement_plans)
        (check_window open_exposure s env.now) (series_already_settled series_id) s st in
    rw cached (
      λ h. let (unsettled, passed) = gates.0 h in (unsettled, window.0 passed),
      λ (unsettled, tradeable). gates.1 (unsettled, window.1 tradeable),
    )
