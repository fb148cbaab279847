-- ===== src/Events.antt =====
-- Events and traded volume (src/clearing/src/types/event.rs) and the buckets of the price history
-- (src/clearing/src/types/price_history.rs).
pub mod Notional
use icdc_core.Prelude.{
  ℕ, zero, suc, ◌+◌, ◌-◌, ◌*◌, ◌/◌, ◌^◌, Bool, ltb, leb, ◌==◌, min, if◌then◌else◌,
}
use icdc_core.Prelude.Int.{ℤ, pos, negsuc, ◌+ℤ◌, pos_part, neg_part, leb_ℤ}
use icdc_core.Prelude.Words.{i128_lim, u64_mod}
use icdc_core.Shared.Price.{Principal, Price, usd_decimals, price_value, price_decimals}
use icdc_core.Shared.Series.{SeriesId}
use icdc_core.Margin.{User}

pub data EventType : Type 0 where
  order_placed executed settled liquidated : EventType

pub record Event : Type 0 where
  pub event_id : ℕ
  pub clearing_id : Principal
  pub series_id : SeriesId
  pub user : User
  pub qty : ℤ
  pub price : Price
  pub event_type : EventType
  pub timestamp : ℕ

pub record SeriesTradePoint : Type 0 where
  pub event_id : ℕ
  pub price : Price
  pub qty : ℤ
  pub timestamp : ℕ

-- The nearest `i128` to an integer.
unfoldable pub saturate_i128 : ℤ → ℤ
saturate_i128 (pos n) = if ltb n i128_lim then pos n else pos (i128_lim - 1)
saturate_i128 (negsuc n) = if ltb n i128_lim then negsuc n else negsuc (i128_lim - 1)

-- The product of an integer and a number that is not negative.
abbrev pub times : ℤ → ℕ → ℤ
times (pos n) k = pos (n * k)
times (negsuc n) zero = pos 0
times (negsuc n) (suc k) = negsuc (suc n * suc k - 1)

-- Division towards zero by a number that is not zero.
abbrev pub quotient : ℤ → ℕ → ℤ
quotient (pos n) k = pos (n / k)
quotient (negsuc n) k = if (suc n / k) == 0 then pos 0 else negsuc (suc n / k - 1)

-- `10_i128.saturating_pow(n)`.
unfoldable pub saturating_pow10 : ℕ → ℕ
saturating_pow10 n = min (10 ^ n) (i128_lim - 1)

-- `SeriesTradePoint::notional_usd_base`.
unfoldable pub notional_usd_base : SeriesTradePoint → ℤ
unfolding saturate_i128 saturating_pow10
notional_usd_base point =
    let value = min (price_value point.price) (i128_lim - 1) in
    let base = saturate_i128 (times point.qty value) in
    let decimals = price_decimals point.price in
    if leb decimals usd_decimals
    then saturate_i128 (times base (saturating_pow10 (usd_decimals - decimals)))
    else quotient base (saturating_pow10 (decimals - usd_decimals))

pub record SeriesVolumeAggregate : Type 0 where
  pub notional_usd : ℤ
  pub trade_count : ℕ

abbrev pub empty_volume : SeriesVolumeAggregate
empty_volume = record { notional_usd = pos 0; trade_count = 0 }

-- `SeriesVolumeAggregate::record`.
unfoldable pub record_volume : SeriesVolumeAggregate → ℤ → SeriesVolumeAggregate
unfolding saturate_i128
record_volume agg notional = record {
  notional_usd = saturate_i128 (agg.notional_usd +ℤ notional);
  trade_count = min (agg.trade_count + 1) (u64_mod - 1);
}

pub data PriceHistoryInterval : Type 0 where
  hour day : PriceHistoryInterval

abbrev pub nanos_per_hour : ℕ
nanos_per_hour = 3_600_000_000_000

abbrev pub nanos_per_day : ℕ
nanos_per_day = 86_400_000_000_000

abbrev pub bucket_ns : PriceHistoryInterval → ℕ
bucket_ns hour = nanos_per_hour
bucket_ns day = nanos_per_day

unfoldable pub bucket_start : PriceHistoryInterval → ℕ → ℕ
bucket_start interval ts_ns = ts_ns / bucket_ns interval * bucket_ns interval
