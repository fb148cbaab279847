-- ===== src/Trade/Index.antt =====
-- The per-series index of executed trades (`index_executed_trade`,
-- `rebuild_series_trade_history` of src/clearing/src/memory.rs).
use icdc_core.Prelude.{[], ◌∷◌, ◌++◌}
use icdc_core.Prelude.Maps.{nat_key, lookup, insert}
use icdc_core.Shared.Series.{SeriesId}
use icdc_core.Margin.{unwrap_or}
use icdc_core.Events.{SeriesTradePoint, empty_volume, record_volume, notional_usd_base}
use icdc_core.Clearing.State.{Clearing}

unfoldable pub index_executed_trade : SeriesId → SeriesTradePoint → Clearing → Clearing
index_executed_trade series_id point st = record st {
  series_traded_volume =
      insert series_id
        (record_volume (unwrap_or (lookup series_id st.series_traded_volume) empty_volume)
          (notional_usd_base point))
        st.series_traded_volume;
  series_trade_history =
      insert series_id (unwrap_or (lookup series_id st.series_trade_history) [] ++ point ∷ [])
        st.series_trade_history;
}
