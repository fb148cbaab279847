-- ===== src/Leaderboard/Ranks.antt =====
-- The ranks of a leaderboard (src/clearing/src/api/leaderboard/api.rs).
pub mod Counted
use icdc_core.Prelude.{ℕ, ◌+◌, Bool, false, Option, none, some, List, [], ◌∷◌, if◌then◌else◌}
use icdc_core.Prelude.Int.{ℤ, beq_ℤ}
use icdc_core.Shared.Price.{Principal}
use icdc_core.Leaderboard.{PnlAggregate}

-- A row of the sorted slice.
abbrev pub Standing : Type 0
Standing = Principal × PnlAggregate

-- `last_pnl == Some(pnl)`.
abbrev pub same_pnl : Option ℤ → ℤ → Bool
same_pnl none pnl = false
same_pnl (some last) pnl = beq_ℤ last pnl

-- The loop over the rows from a position on.
unfoldable pub ranks_from : (last_pnl : Option ℤ) (last_rank position : ℕ) → List Standing → List ℕ
ranks_from last_pnl last_rank position [] = []
ranks_from last_pnl last_rank position (row ∷ rows) =
    let rank = if same_pnl last_pnl row.1.realized_pnl then last_rank else position + 1 in
    rank ∷ ranks_from (some row.1.realized_pnl) rank (position + 1) rows

unfoldable pub competition_ranks : List Standing → List ℕ
unfolding ranks_from
competition_ranks sorted = ranks_from none 0 0 sorted
