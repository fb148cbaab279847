-- ===== src/Events/Notional.antt =====
-- Bounds and bucket laws of src/clearing/src/types/event.rs and price_history.rs.
use icdc_core.Prelude.{ℕ, ◌+◌, ◌*◌, ◌≤◌, ◌<◌, ◌≡◌, ◌↔◌, arith}
use icdc_core.Prelude.Int.{ℤ, pos, negsuc, ◌+ℤ◌}
use icdc_core.Prelude.Words.{FitsI128, i128_lim, u64_mod}
use icdc_core.Shared.Price.{usd_decimals, price_value, price_decimals}
use icdc_core.Events.{
  SeriesTradePoint, SeriesVolumeAggregate, notional_usd_base, saturate_i128, record_volume,
  PriceHistoryInterval, hour, day, bucket_ns, bucket_start,
}

saturate-FitsI128 : (z : ℤ) → FitsI128 (saturate_i128 z)
unfolding saturate_i128
saturate-FitsI128 (pos n) = ground arith
saturate-FitsI128 (negsuc n) = ground arith

pub saturate-id : (z : ℤ) → FitsI128 z → saturate_i128 z ≡ z
unfolding saturate_i128
saturate-id (pos n) h = ground arith
saturate-id (negsuc n) h = ground arith

-- A trade of a quantity that is not negative, priced in the accounting decimals, counts for
-- exactly quantity times price, where that product and the price fit an `i128`.
notional_exact :
    (t : SeriesTradePoint) (q : ℕ)
    → t.qty ≡ pos q
    → price_decimals t.price ≡ usd_decimals
    → q * price_value t.price < i128_lim
    → price_value t.price < i128_lim
    → notional_usd_base t ≡ pos (q * price_value t.price)
unfolding notional_usd_base
notional_exact t q e d fits small =
    ground (arith, saturate-id (pos (q * price_value t.price)) (omega arith))

-- Whatever is recorded, the totals stay within their words, and a count that has not reached the
-- top grows by one.
record_volume_bounds :
    (agg : SeriesVolumeAggregate) (x : ℤ)
    → FitsI128 (record_volume agg x).notional_usd
      × ((record_volume agg x).trade_count < u64_mod)
      × (agg.trade_count + 1 < u64_mod → (record_volume agg x).trade_count ≡ agg.trade_count + 1)
unfolding record_volume
record_volume_bounds agg x = (saturate-FitsI128 (agg.notional_usd +ℤ x), omega arith, omega arith)

-- A timestamp lies in the bucket that it is given.
pub bucket_start_lem :
    (i : PriceHistoryInterval) (t : ℕ)
    → (bucket_start i t ≤ t) × (t < bucket_start i t + bucket_ns i)
unfolding bucket_start
bucket_start_lem hour t = omega arith
bucket_start_lem day t = omega arith

-- A timestamp is given the start of a bucket exactly when it lies in that bucket.
bucket_start_unique :
    (i : PriceHistoryInterval) (k t : ℕ)
    → (bucket_start i t ≡ k * bucket_ns i)
      ↔ ((k * bucket_ns i ≤ t) × (t < k * bucket_ns i + bucket_ns i))
unfolding bucket_start
bucket_start_unique hour k t = (omega arith, omega arith)
bucket_start_unique day k t = (omega arith, omega arith)
