-- ===== src/Leaderboard.antt =====
-- Leaderboard windows and aggregates (src/clearing/src/types/leaderboard.rs).
pub mod Calendar
pub mod Ranks
use icdc_core.Prelude.{
  ℕ, ◌+◌, ◌-◌, ◌*◌, ◌/◌, ◌%◌, Bool, Option, none, some, List, [], ◌∷◌, ltb, leb, ◌==◌,
  if◌then◌else◌,
}
use icdc_core.Prelude.Int.{ℤ, pos, ltb_ℤ}
use icdc_core.Prelude.Words.{add_i128, u64_mod}
use icdc_core.Prelude.Maps.{Key}
use icdc_core.Prelude.{◌≡◌, ◌↔◌, arith, true}
use icdc_core.Events.{nanos_per_day}

pub data LeaderboardWindow : Type 0 where
  week month all_time : LeaderboardWindow

-- `LeaderboardWindow::ALL`.
abbrev pub all_windows : List LeaderboardWindow
all_windows = week ∷ month ∷ all_time ∷ []

abbrev pub window_rank : LeaderboardWindow → ℕ
window_rank week = 0
window_rank month = 1
window_rank all_time = 2

abbrev pub window_beq : LeaderboardWindow → LeaderboardWindow → Bool
window_beq a b = window_rank a == window_rank b

pub window_beq_iff : (a b : LeaderboardWindow) → (window_beq a b ≡ true) ↔ (a ≡ b)
window_beq_iff a b = ground arith

instance abbrev pub window_key : Key LeaderboardWindow
window_key = record {
  beq = window_beq;
  before = λ a b. ltb (window_rank a) (window_rank b);
  beq_iff = window_beq_iff;
}

-- The shifted year and month of a day in the 400-year era, with March as month 0.
abbrev pub year_of_era : ℕ → ℕ
year_of_era doe = (doe - doe / 1460 + doe / 36524 - doe / 146096) / 365

abbrev pub day_of_year : ℕ → ℕ
day_of_year doe = let yoe = year_of_era doe in doe - (365 * yoe + yoe / 4 - yoe / 100)

abbrev pub shifted_month : ℕ → ℕ
shifted_month doe = (5 * day_of_year doe + 2) / 153

-- A calendar month is 1 to 12; January and February belong to the next year.
unfoldable pub civil_from_days : ℕ → ℕ × ℕ
civil_from_days days =
    let z = days + 719468 in
    let era = z / 146097 in
    let doe = z - era * 146097 in
    let year = year_of_era doe + era * 400 in
    let mp = shifted_month doe in
    let m = if ltb mp 10 then mp + 3 else mp - 9 in (if leb m 2 then year + 1 else year, m)

unfoldable pub period_id : LeaderboardWindow → ℕ → ℕ
period_id week ts_ns = (ts_ns / nanos_per_day + 3) / 7
period_id month ts_ns =
    let (year, m) = civil_from_days (ts_ns / nanos_per_day) in year * 12 + (m - 1)
period_id all_time ts_ns = 0

-- `checked_sub(1)`.
abbrev checked_pred : ℕ → Option ℕ
checked_pred n = if n == 0 then none else some (n - 1)

unfoldable pub prior_period_id : LeaderboardWindow → ℕ → Option ℕ
prior_period_id all_time ts_ns = none
prior_period_id week ts_ns = checked_pred (period_id week ts_ns)
prior_period_id month ts_ns = checked_pred (period_id month ts_ns)

pub record PnlAggregate : Type 0 where
  pub realized_pnl : ℤ
  pub settled_count : ℕ
  pub win_count : ℕ

abbrev pub empty_pnl : PnlAggregate
empty_pnl = record { realized_pnl = pos 0; settled_count = 0; win_count = 0 }

-- `PnlAggregate::record`; the counters are `u64` and wrap.
unfoldable pub record_pnl : PnlAggregate → ℤ → PnlAggregate
record_pnl agg cashflow_usd = record {
  realized_pnl = add_i128 agg.realized_pnl cashflow_usd;
  settled_count = (agg.settled_count + 1) % u64_mod;
  win_count = if ltb_ℤ (pos 0) cashflow_usd then (agg.win_count + 1) % u64_mod else agg.win_count;
}
