-- ===== src/Shared/Price.antt =====
-- Decimal values and prices (src/shared/src/types/decimal.rs, price.rs) and the constants of
-- src/shared/src/constants.rs.
use icdc_core.Prelude.{ℕ, ◌≡◌, ◌↔◌, Bool, true, Option, none, arith, ◌&&◌, ◌==◌}
use icdc_core.Prelude.Maps.{nat_key, option_beq, option_beq_iff}

-- Identifiers and principals are only compared, for equality and in the order of the maps that
-- they key; a number stands for each of them.
abbrev pub Principal : Type 0
Principal = ℕ

-- `Principal::anonymous()`.
abbrev pub anonymous : Principal
anonymous = 0

abbrev pub usd_decimals : ℕ
usd_decimals = 4

abbrev pub bps_base : ℕ
bps_base = 10000

pub record DecimalValue : Type 0 where
  -- u128
  pub value : ℕ
  -- u8
  pub decimals : ℕ

pub record Price : Type 0 where
  pub decimal : DecimalValue
  pub timestamp : Option ℕ
  pub oracle_id : Option ℕ

-- `Price::new`.
abbrev pub new_price : ℕ → ℕ → Price
new_price value decimals = record {
  decimal = record { value = value; decimals = decimals };
  timestamp = none;
  oracle_id = none;
}

-- `Price::value`.
abbrev pub price_value : Price → ℕ
price_value p = p.decimal.value

-- `Price::decimals`.
abbrev pub price_decimals : Price → ℕ
price_decimals p = p.decimal.decimals

-- The derived equality of prices.
abbrev pub price_beq : Price → Price → Bool
price_beq a b =
    price_value a == price_value b
    && price_decimals a == price_decimals b
    && option_beq nat_key a.timestamp b.timestamp
    && option_beq nat_key a.oracle_id b.oracle_id

pub price_beq_iff : (a b : Price) → (price_beq a b ≡ true) ↔ (a ≡ b)
price_beq_iff a b = ground (
  arith,
  option_beq_iff nat_key a.timestamp b.timestamp,
  option_beq_iff nat_key a.oracle_id b.oracle_id,
)
