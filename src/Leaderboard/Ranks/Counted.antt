-- ===== src/Leaderboard/Ranks/Counted.antt =====
-- What a competition rank counts (src/clearing/src/api/leaderboard/api.rs).
use icdc_core.Prelude.{
  ℕ, ◌+◌, ◌≡◌, refl, ◌∙◌, sym, ap, Bool, true, false, Option, none, some, List, [], ◌∷◌, map, arith,
  if◌then◌else◌, Bool-cases, inl, inr,
}
use mathlib.Core.Path.{ap₂}
use icdc_core.Prelude.Int.{ℤ, ltb_ℤ, beq_ℤ, eq_of_parts}
use icdc_core.Leaderboard.Ranks.{Standing, same_pnl, ranks_from, competition_ranks}

-- The number of rows with a strictly higher PnL.
abbrev pub higher : ℤ → List Standing → ℕ
higher pnl [] = 0
higher pnl (row ∷ rows) = (if ltb_ℤ pnl row.1.realized_pnl then 1 else 0) + higher pnl rows

-- Whether a PnL does not exceed the one before it, if any.
abbrev pub Below : Option ℤ → ℤ → Type 0
Below none pnl = Unit
Below (some last) pnl = ltb_ℤ last pnl ≡ false

-- The rows are in descending order of their PnL.
abbrev pub Descending : Option ℤ → List Standing → Type 0
Descending last [] = Unit
Descending last (row ∷ rows) =
    Below last row.1.realized_pnl × Descending (some row.1.realized_pnl) rows

higher-Descending :
    (pnl last : ℤ) (rows : List Standing)
    → Descending (some last) rows
    → ltb_ℤ pnl last ≡ false
    → higher pnl rows ≡ 0
higher-Descending pnl last [] sorted least = refl
higher-Descending pnl last (row ∷ rows) (below, sorted) least =
    let small : ltb_ℤ pnl row.1.realized_pnl ≡ false = ground (arith, below, least) in
    rw (small, higher-Descending pnl row.1.realized_pnl rows sorted small) refl

-- A PnL below a row is below what the row was below, and differs from it.
strictly_lower :
    (last : Option ℤ) (pnl z : ℤ)
    → Below last pnl
    → ltb_ℤ z pnl ≡ true
    → Below last z × (same_pnl last z ≡ false)
strictly_lower none pnl z below less = (tt, refl)
strictly_lower (some last) pnl z below less =
    (ground (arith, below, less), ground (arith, below, less))

drop_none :
    {b : Bool} {after : ℕ} (n : ℕ) → b ≡ false → after ≡ 0 → n + ((if b then 1 else 0) + after) ≡ n
drop_none n h empty = rw (h, empty) (omega arith)

unit_right : (n : ℕ) → n + 0 + 1 ≡ n + 1
unit_right n = omega arith

add_assoc : (a b c : ℕ) → a + (b + c) ≡ a + b + c
add_assoc a b c = omega arith

beq_same : (x z : ℤ) → beq_ℤ x z ≡ true → x ≡ z
beq_same x z h = eq_of_parts x z (ground (arith, h))

beq_self : (x : ℤ) → beq_ℤ x x ≡ true
beq_self x = ground arith

strictly : (x z : ℤ) → ltb_ℤ x z ≡ false → beq_ℤ x z ≡ false → ltb_ℤ z x ≡ true
strictly x z h other = ground (arith, h, other)

ranks_from-counts :
    (last : Option ℤ) (last_rank position : ℕ) (rows : List Standing) (total seen : ℤ → ℕ)
    → Descending last rows
    → ((z : ℤ) → total z ≡ seen z + higher z rows)
    → ((z : ℤ) → Below last z → seen z + 1 ≡ (if same_pnl last z then last_rank else position + 1))
    → ranks_from last last_rank position rows
      ≡ map (λ (row : Standing). total row.1.realized_pnl + 1) rows
unfolding ranks_from
ranks_from-counts last last_rank position [] total seen sorted all known = refl
ranks_from-counts last last_rank position (row ∷ rows) total seen (below, sorted) all known =
    let x : ℤ = row.1.realized_pnl in
    let rank : ℕ = if same_pnl last x then last_rank else position + 1 in
    let counted : ℤ → ℕ = λ (z : ℤ). seen z + (if ltb_ℤ z x then 1 else 0) in
    let here : seen x + 1 ≡ rank = known x below in
    let irrefl : ltb_ℤ x x ≡ false = ground arith in
    let none_after : higher x rows ≡ 0 = higher-Descending x x rows sorted irrefl in
    let first : rank ≡ total x + 1 =
      sym (ap (λ (n : ℕ). n + 1) (all x ∙ drop_none (seen x) irrefl none_after) ∙ here) in
    let later : (z : ℤ)
        → ltb_ℤ x z ≡ false
        → counted z + 1 ≡ (if beq_ℤ x z then rank else (position + 1) + 1) =
      λ z h. elim (Bool-cases (beq_ℤ x z)) [
        | inl same ↦ rw (← beq_same x z same) (rw (irrefl, beq_self x) (unit_right (seen x) ∙ here))
        | inr other ↦
            let less : ltb_ℤ z x ≡ true = strictly x z h other in
            let (under, differs) = strictly_lower last x z below less in
            rw (less, other) (ap (λ (n : ℕ). n + 1) (known z under ∙ rw differs refl))
      ] in
    ap₂ (λ (n : ℕ) (ns : List ℕ). n ∷ ns) first
      (ranks_from-counts (some x) rank (position + 1) rows total counted sorted
        (λ z. all z ∙ add_assoc (seen z) (if ltb_ℤ z x then 1 else 0) (higher z rows)) later)

-- In a list that is sorted by descending PnL, the rank of each row is one more than the number of
-- rows of the list with a strictly higher PnL.
pub competition_ranks-counts :
    (sorted : List Standing)
    → Descending none sorted
    → competition_ranks sorted
      ≡ map (λ (row : Standing). higher row.1.realized_pnl sorted + 1) sorted
unfolding competition_ranks
competition_ranks-counts sorted descending =
    ranks_from-counts none 0 0 sorted (λ z. higher z sorted) (λ z. 0) descending (λ z. omega arith)
      (λ z below. refl)
