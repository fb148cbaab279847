-- ===== src/Trade/Sets/Redeemed.antt =====
-- What redeeming a complete set takes and releases, and the round trip through a minted set
-- (src/clearing/src/api/trade/api.rs).
use icdc_core.Prelude.{◌-◌, ◌/◌, Option, none, some}
use icdc_core.Prelude.Int.{ℤ}
use icdc_core.Prelude.Words.{mul_u128, sub_i128, cast_unsigned}
use icdc_core.Prelude.Maps.{nat_key}
use icdc_core.Shared.Series.{Series}
use icdc_core.Margin.{Position}
use icdc_core.Clearing.State.{Clearing}

-- A position after a part of a set was redeemed.
abbrev pub redeemed : ℤ → Position → Position
redeemed qty held = record held {
  net_qty = sub_i128 held.net_qty qty;
  reserved_margin_usd =
      held.reserved_margin_usd
      - mul_u128 (held.reserved_margin_usd / cast_unsigned held.net_qty) (cast_unsigned qty);
}

abbrev pub redeem_found : ℤ → Option Position → Option Position
redeem_found qty none = none
redeem_found qty (some held) = some (redeemed qty held)
