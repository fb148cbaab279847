-- ===== src/Payoffs/Rounding.antt =====
-- What `scale_price` and `calculate_settlement_fee` return (src/clearing/src/payoffs/utils.rs,
-- fees.rs), and where the wrapping power makes the first one panic.
use native.Mathlib.Nat.{
  pow-suc, pow-le-pow_right, one-le-pow, mod-eq_of_lt, div-mul-le_self, lt-div-mul-add,
  mul-le-mul_left, div-add-mod,
}
use icdc_core.Prelude.{ℕ, zero, suc, ◌+◌, ◌-◌, ◌*◌, ◌%◌, ◌^◌, ◌≤◌, ◌<◌, ◌≡◌, refl, arith}
use icdc_core.Prelude.Words.{u128_mod, pow10_u128, mul_u128-eq}
use icdc_core.Prelude.Results.{ok, trap}
use icdc_core.Payoffs.{
  RoundingMode, floor, ceil, PayoffError, divide, scale_price, calculate_settlement_fee,
}

-- Up to 38 digits the power does not wrap around.
pub pow10_u128-eq : (n : ℕ) → n ≤ 38 → pow10_u128 n ≡ 10 ^ n
unfolding pow10_u128
pow10_u128-eq n h =
    mod-eq_of_lt (omega (arith, pow-le-pow_right {n = 10} (omega arith) {i = n} {j = 38} h))

pow10-wraps : (k : ℕ) → 10 ^ (k + 128) % u128_mod ≡ 0
pow10-wraps zero = refl
pow10-wraps (suc k) =
    let e : suc k + 128 ≡ suc (k + 128) = omega arith in
    rw e (rw pow-suc (omega (arith, pow10-wraps k)))

pow10_u128-wrapped : (n : ℕ) → 128 ≤ n → pow10_u128 n ≡ 0
unfolding pow10_u128
pow10_u128-wrapped n h = let e : n ≡ n - 128 + 128 = omega arith in rw e (pow10-wraps (n - 128))

divide-floor_bounds :
    (v f : ℕ) → 0 < f → (divide floor v f * f ≤ v) × (v < (divide floor v f + 1) * f)
divide-floor_bounds v f h = (div-mul-le_self v f, grind (arith, lt-div-mul-add {a = v} {b = f} h))

divide-ceil_bounds :
    (v f : ℕ)
    → 0 < f
    → (v ≤ divide ceil v f * f)
      × (divide floor v f ≤ divide ceil v f)
      × (divide ceil v f ≤ divide floor v f + 1)
divide-ceil_bounds v f h =
    grind (arith, div-mul-le_self v f, lt-div-mul-add {a = v} {b = f} h, div-add-mod v f)

-- Scaling down by at most 38 digits divides by the power of ten.
pub scale_price_down {ℓ} :
    {E : Type ℓ} (value target source : ℕ) (mode : RoundingMode)
    → target < source
    → source - target ≤ 38
    → scale_price {E = E} value target source mode ≡ ok (divide mode value (10 ^ (source - target)))
unfolding scale_price
scale_price_down value target source mode h k =
    rw (pow10_u128-eq (source - target) k)
      (ground (arith, one-le-pow (source - target) 10 (omega arith)))

-- Scaling down by at most 38 digits: the two modes round the exact quotient down and up, to the
-- same number or to neighbours.
pub scale_price_rounding :
    (value target source : ℕ)
    → target < source
    → source - target ≤ 38
    → let factor = 10 ^ (source - target) in
      (lo : ℕ) × (hi : ℕ) × (scale_price {E = PayoffError} value target source floor ≡ ok lo)
      × (scale_price {E = PayoffError} value target source ceil ≡ ok hi)
      × (lo * factor ≤ value)
      × (value < (lo + 1) * factor)
      × (value ≤ hi * factor)
      × (lo ≤ hi)
      × (hi ≤ lo + 1)
scale_price_rounding value target source h k =
    let factor = 10 ^ (source - target) in
    let positive : 0 < factor = one-le-pow (source - target) 10 (omega arith) in
    let (low, below) = divide-floor_bounds value factor positive in
    let (above, order, near) = divide-ceil_bounds value factor positive in
    (
      divide floor value factor,
      divide ceil value factor,
      scale_price_down value target source floor h k,
      scale_price_down value target source ceil h k,
      low,
      below,
      above,
      order,
      near,
    )

-- Scaling up by at most 38 digits is exact as long as the product fits in 128 bits.
scale_price_exact :
    (value target source : ℕ) (mode : RoundingMode)
    → source ≤ target
    → target - source ≤ 38
    → value * 10 ^ (target - source) < u128_mod
    → scale_price {E = PayoffError} value target source mode ≡ ok (value * 10 ^ (target - source))
unfolding scale_price
scale_price_exact value target source mode h k fits =
    ground
      (arith, pow10_u128-eq (target - source) k, mul_u128-eq value (10 ^ (target - source)) fits)

-- Scaling down by 128 digits or more panics.
scale_price_traps :
    (value target source : ℕ) (mode : RoundingMode)
    → target + 128 ≤ source
    → scale_price {E = PayoffError} value target source mode ≡ trap
unfolding scale_price
scale_price_traps value target source mode h = ground (arith, pow10_u128-wrapped (source - target))

-- A fee of at most 10,000 basis points takes at most the whole payoff, and at most its share,
-- where 10,000 times the payoff fits in 128 bits.
pub calculate_settlement_fee_bounds :
    (payoff_usd fee_ratio_bps : ℕ)
    → fee_ratio_bps ≤ 10000
    → payoff_usd * 10000 < u128_mod
    → (calculate_settlement_fee payoff_usd fee_ratio_bps ≤ payoff_usd)
      × (calculate_settlement_fee payoff_usd fee_ratio_bps * 10000 ≤ payoff_usd * fee_ratio_bps)
unfolding calculate_settlement_fee
calculate_settlement_fee_bounds p r h fits =
    let fits_product : p * r < u128_mod = grind (arith, mul-le-mul_left p h) in
    rw (mul_u128-eq p r fits_product)
      (grind (arith, mul-le-mul_left p h), div-mul-le_self (p * r) 10000)
