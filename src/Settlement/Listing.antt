-- ===== src/Settlement/Listing.antt =====
-- The pages of settled series (`list_settled_series` of src/clearing/src/api/settlement/api.rs).
pub mod Cursor
use icdc_core.Prelude.{
  ℕ, zero, suc, Bool, true, Option, none, some, List, [], ◌∷◌, ltb, ◌==◌, if◌then◌else◌, filter_by,
  take, drop, last?,
}
use icdc_core.Prelude.Maps.{Map, keys}
use icdc_core.Shared.Domain.{BalanceDomain, domain_beq}
use icdc_core.Shared.Series.{SeriesId}
use icdc_core.Clearing.Plans.{SettlementPlan}
use icdc_core.Clearing.State.{Clearing}

pub record SettledSeriesPage : Type 0 where
  pub items : List SeriesId
  pub next_cursor : Option SeriesId

-- `Bound::Excluded(start_after)`, or no bound.
abbrev pub is_after : Option SeriesId → SeriesId → Bool
is_after none id = true
is_after (some start) id = ltb start id

-- `balance_domain.is_none_or(|d| plan.balance_domain == d)`.
abbrev pub in_domain : Option BalanceDomain → SettlementPlan → Bool
in_domain none plan = true
in_domain (some d) plan = domain_beq plan.balance_domain d

-- What the iterator yields.
unfoldable pub settled_ids :
    Option BalanceDomain → Option SeriesId → Map SeriesId SettlementPlan → List SeriesId
settled_ids domain start [] = []
settled_ids domain start ((id, plan) ∷ rest) =
    let others = settled_ids domain start rest in
    if is_after start id then (if in_domain domain plan then id ∷ others else others) else others

-- The largest `usize` of the canister, a 32-bit word.
abbrev pub usize_max : ℕ
usize_max = 0xFFFF_FFFF

-- The limit, which is at least 1 and defaults to all that is left.
abbrev pub page_limit : Option ℕ → ℕ
page_limit none = usize_max
page_limit (some n) = if n == 0 then 1 else if ltb usize_max n then usize_max else n

-- The cursor after a full page: the last id, where one more id exists.
abbrev pub cursor_of : List SeriesId → List SeriesId → Option SeriesId
cursor_of items [] = none
cursor_of items (more ∷ rest) = last? items

unfoldable pub list_settled_series :
    Option BalanceDomain → Option SeriesId → Option ℕ → Clearing → SettledSeriesPage
list_settled_series domain start limit st =
    let ids = settled_ids domain start st.settlement_plans in
    let items = take (page_limit limit) ids in
    record { items = items; next_cursor = cursor_of items (drop (page_limit limit) ids) }
