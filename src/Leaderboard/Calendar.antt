-- ===== src/Leaderboard/Calendar.antt =====
-- The calendar periods of src/clearing/src/types/leaderboard.rs.
use native.Mathlib.Decide.{dec_lt}
use native.Mathlib.Nat.{le_trans, le-add_right}
use icdc_core.Events.{nanos_per_day}
use icdc_core.Prelude.{
  ℕ, zero, suc, inl, inr, sym, ap, ◌∙◌, ◌%◌, ◌+◌, ◌-◌, ◌*◌, ◌/◌, ◌≤◌, ◌<◌, ◌≡◌, refl, ◌⊎◌, arith,
}
use icdc_core.Leaderboard.{
  year_of_era, day_of_year, shifted_month, civil_from_days, period_id, LeaderboardWindow, week,
  month, all_time,
}

-- The day of an era lies in a year of the era and in a month of that year.
era_bounds :
    (doe : ℕ)
    → doe < 146097
    → (year_of_era doe < 400) × (day_of_year doe < 366) × (shifted_month doe < 12)
era_bounds doe h = omega arith

-- The month index of a day, counted from the shifted era.
abbrev month_index : ℕ → ℕ
month_index doe = year_of_era doe * 12 + shifted_month doe

-- Within an era the next day lies in the same month or in the next one.
month_index_step :
    (doe : ℕ)
    → suc doe < 146097
    → (month_index (suc doe) ≡ month_index doe) ⊎ (month_index (suc doe) ≡ month_index doe + 1)
month_index_step doe h = omega arith

civil_from_days-month :
    (days : ℕ) → (1 ≤ (civil_from_days days).1) × ((civil_from_days days).1 ≤ 12)
unfolding civil_from_days
civil_from_days-month days =
    let doe = days + 719468 - (days + 719468) / 146097 * 146097 in
    let bounds = era_bounds doe (omega arith) in ground arith

-- A day's month, counted through the eras.
abbrev month_of_day : ℕ → ℕ
month_of_day days =
    (days + 719468) / 146097 * 4800
    + month_index (days + 719468 - (days + 719468) / 146097 * 146097)
    + 2

month_of_day_lem :
    (days : ℕ) → (civil_from_days days).0 * 12 + ((civil_from_days days).1 - 1) ≡ month_of_day days
unfolding civil_from_days
month_of_day_lem days =
    let doe = days + 719468 - (days + 719468) / 146097 * 146097 in
    let bounds = era_bounds doe (omega arith) in ground arith

month_of_day_at :
    (days era doe : ℕ)
    → days + 719468 ≡ era * 146097 + doe
    → doe < 146097
    → month_of_day days ≡ era * 4800 + month_index doe + 2
month_of_day_at days era doe e h =
    let q : (days + 719468) / 146097 ≡ era = omega arith in
    let r : days + 719468 - (days + 719468) / 146097 * 146097 ≡ doe = omega arith in
    λ i. q i * 4800 + month_index (r i) + 2

month_of_day_step :
    (days : ℕ)
    → (month_of_day (suc days) ≡ month_of_day days)
      ⊎ (month_of_day (suc days) ≡ month_of_day days + 1)
month_of_day_step days =
    let era = (days + 719468) / 146097 in
    let doe = (days + 719468) % 146097 in
    let here = month_of_day_at days era doe (omega arith) (omega arith) in
    elim (dec_lt (suc doe) 146097) [
      | yes inside ↦
          let next = month_of_day_at (suc days) era (suc doe) (omega arith) inside in
          elim (month_index_step doe inside) [
            | inl e ↦ inl (next ∙ ap (λ t. era * 4800 + t + 2) e ∙ sym here)
            | inr e ↦ inr (rw (next, here, e) (omega arith))
          ]
      | no last ↦
          let e : doe ≡ 146096 = omega arith in
          let next = month_of_day_at (suc days) (era + 1) 0 (omega arith) (omega arith) in
          inr (rw (next, here, e) (omega arith))
    ]

month_of_day_mono : (days k : ℕ) → month_of_day days ≤ month_of_day (k + days)
month_of_day_mono days zero = let e : 0 + days ≡ days = omega arith in rw e (omega arith)
month_of_day_mono days (suc k) =
    let e : suc k + days ≡ suc (k + days) = omega arith in
    rw e (elim (month_of_day_step (k + days)) [
      | inl same ↦ rw same (month_of_day_mono days k)
      | inr more ↦ rw more (le_trans (month_of_day_mono days k) (le-add_right _ 1))
    ])

period_id-month : (ts : ℕ) → period_id month ts ≡ month_of_day (ts / nanos_per_day)
unfolding period_id
period_id-month ts = month_of_day_lem (ts / nanos_per_day)

-- One day later the period is the same or the next one, in every window.
period_id_step :
    (w : LeaderboardWindow) (ts : ℕ)
    → (period_id w (ts + nanos_per_day) ≡ period_id w ts)
      ⊎ (period_id w (ts + nanos_per_day) ≡ period_id w ts + 1)
period_id_step week ts = unfold period_id in omega arith
period_id_step month ts =
    let e : (ts + nanos_per_day) / nanos_per_day ≡ suc (ts / nanos_per_day) = omega arith in
    rw (period_id-month (ts + nanos_per_day), period_id-month ts, e)
      (month_of_day_step (ts / nanos_per_day))
period_id_step all_time ts = inl (unfold period_id in refl)

-- A later timestamp never lies in an earlier period.
period_id_mono :
    (w : LeaderboardWindow) (ts later : ℕ) → ts ≤ later → period_id w ts ≤ period_id w later
period_id_mono week ts later h = unfold period_id in omega arith
period_id_mono month ts later h =
    let d = ts / nanos_per_day in
    let e : later / nanos_per_day ≡ later / nanos_per_day - d + d = omega arith in
    rw (period_id-month ts, period_id-month later, e)
      (month_of_day_mono d (later / nanos_per_day - d))
period_id_mono all_time ts later h = unfold period_id in omega arith
