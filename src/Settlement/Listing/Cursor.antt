-- ===== src/Settlement/Listing/Cursor.antt =====
-- Following the cursor loses no settled series and repeats none
-- (`list_settled_series` of src/clearing/src/api/settlement/api.rs).
use icdc_core.Prelude.{
  ℕ, zero, suc, ◌<◌, ◌≡◌, ◌≢◌, ◌⊎◌, refl, sym, ap, ◌∙◌, true, false, Option, none, some, List, [],
  ◌∷◌, ◌++◌, arith, ltb, take, drop, last?, All, Bool-cases, inl, inr,
}
use mathlib.Core.Path.{subst}
use icdc_core.Prelude.Maps.{Map}
use icdc_core.Shared.Domain.{BalanceDomain}
use icdc_core.Shared.Series.{SeriesId}
use icdc_core.Clearing.Plans.{SettlementPlan}
use icdc_core.Clearing.State.{Clearing}
use icdc_core.Settlement.Listing.{
  is_after, in_domain, settled_ids, page_limit, cursor_of, list_settled_series,
}

-- The ids of the plans ascend, as the keys of a `BTreeMap` do.
abbrev pub Ordered : Map SeriesId SettlementPlan → Type 0
Ordered [] = Unit
Ordered ((id, plan) ∷ rest) = All (λ e. id < e.0) rest × Ordered rest

-- Every id that is listed is above a bound of the map.
settled_ids-All :
    (domain : Option BalanceDomain) (start : Option SeriesId) (low : SeriesId)
    (m : Map SeriesId SettlementPlan)
    → All (λ e. low < e.0) m
    → All (λ id. low < id) (settled_ids domain start m)
unfolding settled_ids
settled_ids-All domain start low [] a = tt
settled_ids-All domain start low ((id, plan) ∷ rest) a =
    ground (arith, settled_ids-All domain start low rest a.1, a.0)

last-above :
    (low : SeriesId) (n : ℕ) (ids : List SeriesId) {c : SeriesId}
    → All (λ id. low < id) ids
    → last? (take n ids) ≡ some c
    → low < c
last-above low zero ids a h = absurd (ground arith)
last-above low (suc n) [] a h = absurd (ground arith)
last-above low (suc zero) (x ∷ xs) a h = ground (arith, a.0)
last-above low (suc (suc n)) (x ∷ []) a h = ground (arith, a.0)
last-above low (suc (suc n)) (x ∷ y ∷ ys) {c} a h = last-above low (suc n) (y ∷ ys) a.1 h

-- A bound below every id does not restrict the listing.
settled_ids_above :
    (domain : Option BalanceDomain) (start : Option SeriesId) (low : SeriesId)
    (m : Map SeriesId SettlementPlan)
    → All (λ e. is_after start e.0 ≡ true) m
    → All (λ e. low < e.0) m
    → settled_ids domain (some low) m ≡ settled_ids domain start m
unfolding settled_ids
settled_ids_above domain start low [] s a = refl
settled_ids_above domain start low ((id, plan) ∷ rest) s a =
    ground (arith, settled_ids_above domain start low rest s.1 a.1, s.0, a.0)

later_entries :
    (start : Option SeriesId) (id : SeriesId) (m : Map SeriesId SettlementPlan)
    → is_after start id ≡ true
    → All (λ e. id < e.0) m
    → All (λ e. is_after start e.0 ≡ true) m
later_entries start id [] h a = tt
later_entries none id (e ∷ m) h a = (refl, later_entries none id m h a.1)
later_entries (some s) id (e ∷ m) h a = (ground (arith, h, a.0), later_entries (some s) id m h a.1)

skip_first :
    (domain : Option BalanceDomain) (c id : SeriesId) (plan : SettlementPlan)
    (rest : Map SeriesId SettlementPlan)
    → ltb c id ≡ false
    → settled_ids domain (some c) ((id, plan) ∷ rest) ≡ settled_ids domain (some c) rest
unfolding settled_ids
skip_first domain c id plan rest h = rw h refl

last_nil :
    (domain : Option BalanceDomain) (start : Option SeriesId) (n : ℕ) {c : SeriesId}
    → last? (take n (settled_ids domain start [])) ≢ some c
unfolding settled_ids
last_nil domain start zero h = absurd (ground arith)
last_nil domain start (suc n) h = absurd (ground arith)

cursor_of-some :
    (items rest : List SeriesId) {c : SeriesId}
    → cursor_of items rest ≡ some c
    → last? items ≡ some c
cursor_of-some items [] h = absurd (ground arith)
cursor_of-some items (r ∷ rs) h = h

-- What an entry adds to the listing.
settled_ids_cons :
    (domain : Option BalanceDomain) (start : Option SeriesId) (id : SeriesId)
    (plan : SettlementPlan) (rest : Map SeriesId SettlementPlan)
    → (settled_ids domain start ((id, plan) ∷ rest) ≡ settled_ids domain start rest)
      ⊎ ((is_after start id ≡ true)
          × (in_domain domain plan ≡ true)
          × (settled_ids domain start ((id, plan) ∷ rest) ≡ id ∷ settled_ids domain start rest))
unfolding settled_ids
settled_ids_cons domain start id plan rest = elim (Bool-cases (is_after start id)) [
  | inl here ↦ elim (Bool-cases (in_domain domain plan)) [
    | inl listed ↦ inr (here, listed, rw (here, listed) refl)
    | inr other ↦ inl (rw (here, other) refl)
  ]
  | inr before ↦ inl (rw before refl)
]

-- Past an entry that is listed.
drop_listed :
    (domain : Option BalanceDomain) (start : Option SeriesId) (n : ℕ) (id : SeriesId)
    (plan : SettlementPlan) (rest : Map SeriesId SettlementPlan) (ids : List SeriesId)
    {c : SeriesId}
    → is_after start id ≡ true
    → Ordered ((id, plan) ∷ rest)
    → settled_ids domain start rest ≡ ids
    → ((k : ℕ) → last? (take k ids) ≡ some c → settled_ids domain (some c) rest ≡ drop k ids)
    → last? (take n (id ∷ ids)) ≡ some c
    → settled_ids domain (some c) ((id, plan) ∷ rest) ≡ drop n (id ∷ ids)
drop_listed domain start zero id plan rest ids here o e ih h = absurd (ground arith)
drop_listed domain start (suc zero) id plan rest ids {c} here o e ih h =
    let same : id ≡ c = ground (arith, h) in
    skip_first domain c id plan rest (ground (arith, same))
    ∙ settled_ids_above domain start c rest (later_entries start id rest here o.0)
        (rw (sym same) o.0)
    ∙ e
drop_listed domain start (suc (suc n)) id plan rest [] {c} here o e ih h =
    let same : id ≡ c = ground (arith, h) in
    skip_first domain c id plan rest (ground (arith, same))
    ∙ settled_ids_above domain start c rest (later_entries start id rest here o.0)
        (rw (sym same) o.0)
    ∙ e
drop_listed domain start (suc (suc n)) id plan rest (y ∷ ys) {c} here o e ih h =
    let above : id < c =
      last-above id (suc n) (y ∷ ys)
        (subst (λ (l : List SeriesId). All (λ k. id < k) l) e
          (settled_ids-All domain start id rest o.0))
        h in
    skip_first domain c id plan rest (ground (arith, above)) ∙ ih (suc n) h

-- The listing after the last id of a page is the rest of the listing.
settled_ids-drop :
    (domain : Option BalanceDomain) (start : Option SeriesId) (n : ℕ)
    (m : Map SeriesId SettlementPlan) {c : SeriesId}
    → Ordered m
    → last? (take n (settled_ids domain start m)) ≡ some c
    → settled_ids domain (some c) m ≡ drop n (settled_ids domain start m)
settled_ids-drop domain start n [] o h = absurd (last_nil domain start n h)
settled_ids-drop domain start n ((id, plan) ∷ rest) {c} o h =
    elim (settled_ids_cons domain start id plan rest) [
      | inl same ↦
          let h' = rw same at h in
          let above : id < c =
            last-above id n (settled_ids domain start rest)
              (settled_ids-All domain start id rest o.0) h' in
          rw same (
            skip_first domain c id plan rest (ground (arith, above))
            ∙ settled_ids-drop domain start n rest o.1 h')
      | inr (here, _, e) ↦ rw e (
          drop_listed domain start n id plan rest (settled_ids domain start rest) here o refl
            (λ k h'. settled_ids-drop domain start k rest o.1 h') (rw e at h))
    ]

take-drop : (n : ℕ) (ids : List SeriesId) → take n ids ++ drop n ids ≡ ids
take-drop zero ids = refl
take-drop (suc n) [] = refl
take-drop (suc n) (x ∷ xs) = ap (λ t. x ∷ t) (take-drop n xs)

-- Where the plans are in the order of their ids: a page with a cursor and the listing that starts
-- after the cursor are together the whole listing, in order.
pub list_settled_series-resumes :
    (domain : Option BalanceDomain) (start : Option SeriesId) (limit : Option ℕ) (st : Clearing)
    {c : SeriesId}
    → Ordered st.settlement_plans
    → (list_settled_series domain start limit st).next_cursor ≡ some c
    → (list_settled_series domain start limit st).items
        ++ settled_ids domain (some c) st.settlement_plans
      ≡ settled_ids domain start st.settlement_plans
unfolding list_settled_series
list_settled_series-resumes domain start limit st {c} o h =
    let ids = settled_ids domain start st.settlement_plans in
    let n = page_limit limit in
    let last = cursor_of-some (take n ids) (drop n ids) h in
    rw (settled_ids-drop domain start n st.settlement_plans o last) (take-drop n ids)
