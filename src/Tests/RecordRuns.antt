-- ===== src/Tests/RecordRuns.antt =====
-- Runs of the gates, the reassignment guard and the ranks of a leaderboard.
use icdc_core.Prelude.Int.{pos}
use icdc_core.Leaderboard.Ranks.{Standing, competition_ranks, ranks_from}
use icdc_core.Leaderboard.Ranks.Counted.{higher, competition_ranks-counts}
use icdc_core.Prelude.{ℕ, ◌+◌, ◌≡◌, ◌↔◌, refl, inl, true, List, [], ◌∷◌, map, arith}
use icdc_core.Prelude.Results.{err}
use icdc_core.Shared.Series.{is_tradeable_at}
use icdc_core.Clearing.Errors.{account_under_reassignment}
use icdc_core.Clearing.State.{Clearing, done}
use icdc_core.Trade.Access.{
  open_exposure, mark_of, acquire, revalidate, lock_for_reassignment, unlock_after_reassignment,
}
use icdc_core.Trade.Registered.{ensure_series_registered}
use icdc_core.Trade.Registered.Gates.{ensure_series_registered-tradeable}
use icdc_core.Prelude.Maps.{nat_key, contains_key}
use icdc_core.Prelude.{none, false}
use icdc_core.Trade.Access.Reassigned.{revalidate-lock_for_reassignment}
use icdc_core.Tests.Fixture.{env, binary_series, empty_market}

ensure_series_registered-tradeable_example :
    (ensure_series_registered none env open_exposure 1 empty_market
      ≡ done binary_series empty_market)
    ↔ ((contains_key 1 empty_market.settlement_plans ≡ false)
        × (is_tradeable_at binary_series 100 ≡ true))
ensure_series_registered-tradeable_example =
    ensure_series_registered-tradeable none env 1 binary_series empty_market refl

abbrev moving : Clearing
moving = lock_for_reassignment 1 2 empty_market

revalidate-lock_for_reassignment_example :
    (revalidate 1 0 moving ≡ err (account_under_reassignment 1))
    × (revalidate 1 0 (unlock_after_reassignment 1 2 moving) ≡ err (account_under_reassignment 1))
unfolding acquire mark_of
revalidate-lock_for_reassignment_example =
    revalidate-lock_for_reassignment 1 2 empty_market 1 (omega arith) (inl refl) (omega arith) refl

-- Four standings, two of them equal.
abbrev standing : ℕ → Standing
standing pnl = (pnl, record { realized_pnl = pos pnl; settled_count = 1; win_count = 1 })

abbrev standings : List Standing
standings = standing 100 ∷ standing 50 ∷ standing 50 ∷ standing 10 ∷ []

ranked : competition_ranks standings ≡ 1 ∷ 2 ∷ 2 ∷ 4 ∷ []
unfolding competition_ranks ranks_from
ranked = refl

competition_ranks-counts_example :
    competition_ranks standings
    ≡ map (λ (row : Standing). higher row.1.realized_pnl standings + 1) standings
competition_ranks-counts_example =
    competition_ranks-counts standings (tt, (refl, (refl, (refl, tt))))
