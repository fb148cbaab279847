-- ===== src/Payoffs/Linear.antt =====
-- The margin of a position is linear in its size: the comment of `submit_market_order_impl`
-- (src/clearing/src/api/trade/api.rs) on `get_required_margin`.
use icdc_core.Prelude.{
  ℕ, suc, ◌-◌, ◌≡◌, refl, ap, inl, inr, true, Option, none, some, arith, Bool-cases,
}
use icdc_core.Prelude.Int.{pos, negsuc, ltb_ℤ}
use icdc_core.Prelude.Words.{mul_u128, mul_u128-eq, pow10_u128}
use icdc_core.Prelude.Results.{Res, ok, >>=-eq-ok}
use icdc_core.Shared.Domain.{social, domain_beq}
use icdc_core.Shared.Price.{Price, usd_decimals, price_value, price_decimals}
use icdc_core.Shared.Series.{Series, OutcomeId, PayoffType, binary, call, put, categorical}
use icdc_core.Payoffs.{
  PayoffError, ceil, scale_price, put_margin, margin_by_type, get_required_margin,
}
use icdc_core.Payoffs.Solvency.{Direction, long, short, directed}

-- The same unit margin serves every size.
abbrev IsLinear : (ℕ → Res PayoffError ℕ) → Type 0
IsLinear margin = (u : ℕ) × ((k : ℕ) → margin k ≡ ok (mul_u128 (suc k) u))

is_negative : (n : ℕ) → ltb_ℤ (negsuc n) (pos 0) ≡ true
is_negative n = ground arith

put_margin-IsLinear :
    (strike : Option Price) (sp n : ℕ) {m : ℕ}
    → put_margin strike (negsuc n) sp ≡ ok m
    → IsLinear (λ k. put_margin strike (negsuc k) sp)
unfolding put_margin
put_margin-IsLinear none sp n h = absurd (ground arith)
put_margin-IsLinear (some p) sp n h =
    let strike_usd = scale_price (price_value p) usd_decimals (price_decimals p) ceil in
    let (u, e, _) = >>=-eq-ok strike_usd (λ k. ok (mul_u128 (suc n) k)) (rw (is_negative n) at h) in
    (u, λ k. rw (is_negative k, e))

margin_by_type-IsLinear :
    (t : PayoffType) (strike : Option Price) (d : Direction) (sp n : ℕ) {m : ℕ}
    → margin_by_type t strike (directed d n) sp ≡ ok m
    → IsLinear (λ k. margin_by_type t strike (directed d k) sp)
unfolding margin_by_type
margin_by_type-IsLinear binary strike long sp n h = (sp, λ k. ground arith)
margin_by_type-IsLinear binary strike short sp n h =
    (pow10_u128 usd_decimals - sp, λ k. ground arith)
margin_by_type-IsLinear call strike long sp n h = (sp, λ k. refl)
margin_by_type-IsLinear call strike short sp n h = (sp, λ k. refl)
margin_by_type-IsLinear put strike long sp n h = (sp, λ k. ground arith)
margin_by_type-IsLinear put strike short sp n h = put_margin-IsLinear strike sp n h
margin_by_type-IsLinear categorical strike long sp n h = (sp, λ k. ground arith)
margin_by_type-IsLinear categorical strike short sp n h =
    (pow10_u128 usd_decimals - sp, λ k. ground arith)

-- Where a position of some size has a margin, one unit margin gives that of every size on the
-- same side.
pub required_margin-IsLinear :
    (s : Series) (p : Price) (o : Option OutcomeId) (d : Direction) (n : ℕ) {m : ℕ}
    → get_required_margin s p (directed d n) o ≡ ok m
    → (u : ℕ) × ((k : ℕ) → get_required_margin s p (directed d k) o ≡ ok (mul_u128 (suc k) u))
unfolding get_required_margin
required_margin-IsLinear s p o d n h = elim (Bool-cases (domain_beq s.balance_domain social)) [
  | inl soc ↦ (0, λ k. rw (soc, mul_u128-eq (suc k) 0 (omega arith)) (ap ok (omega arith)))
  | inr real ↦
      let priced = scale_price (price_value p) usd_decimals (price_decimals p) ceil in
      let (sp, e, taken) =
        >>=-eq-ok priced (margin_by_type s.payoff_type s.strike (directed d n)) (rw real at h) in
      let (u, each) = margin_by_type-IsLinear s.payoff_type s.strike d sp n taken in
      (u, λ k. rw (real, e) (each k))
]
