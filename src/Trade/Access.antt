-- ===== src/Trade/Access.antt =====
-- The gates of the trading paths (src/clearing/src/utils/series.rs) and the guard against a
-- reassignment of the account (src/clearing/src/account/reassignment.rs).
pub mod Reassigned
use icdc_core.Prelude.{
  ℕ, ◌≡◌, ◌↔◌, ◌+◌, ◌%◌, refl, Bool, true, false, not, ◌||◌, Option, none, some, arith, ltb, leb,
  ◌==◌, if◌then◌else◌,
}
use icdc_core.Prelude.Words.{u64_mod}
use icdc_core.Prelude.Maps.{Map, nat_key, lookup, contains_key, insert}
use icdc_core.Prelude.Results.{Res, ok, err, ◌>>=◌}
use icdc_core.Shared.Series.{
  Series, SeriesId, SeriesStatus, live, status, starts_after, is_tradeable_at,
}
use icdc_core.Margin.{User, unwrap_or}
use icdc_core.Clearing.Errors.{
  TradeError, series_already_settled, series_not_started, series_expired,
  account_under_reassignment,
}
use icdc_core.Clearing.Orders.{ReassignmentMark, default_mark}
use icdc_core.Clearing.State.{Clearing}

pub data SeriesAccess : Type 0 where
  open_exposure reduce_exposure : SeriesAccess

unfoldable pub assert_series_started : Series → ℕ → Res TradeError (Unit {0})
assert_series_started series now = elim series.start_ns [
  | none ↦ ok tt
  | some start_ns ↦
      if ltb now start_ns then err (series_not_started series.series_id start_ns) else ok tt
]

unfoldable pub assert_series_not_expired : Series → ℕ → Res TradeError (Unit {0})
assert_series_not_expired series now =
    if leb series.expiry_ns now
    then err (series_expired series.series_id series.expiry_ns)
    else ok tt

unfoldable pub assert_series_not_settled : SeriesId → Clearing → Res TradeError (Unit {0})
assert_series_not_settled series_id st =
    if contains_key series_id st.settlement_plans
    then err (series_already_settled series_id)
    else ok tt

-- The gates on the exit of `ensure_series_registered`, for a series in hand.
unfoldable pub check_window : SeriesAccess → Series → ℕ → Res TradeError (Unit {0})
check_window open_exposure series now = do
  started ← assert_series_started series now
  assert_series_not_expired series now
check_window reduce_exposure series now = assert_series_started series now

-- The window lets new exposure through exactly while the status of the series is tradeable.
pub check_window-tradeable :
    (s : Series) (now : ℕ)
    → (check_window open_exposure s now ≡ ok tt) ↔ (is_tradeable_at s now ≡ true)
unfolding check_window assert_series_started assert_series_not_expired is_tradeable_at status
check_window-tradeable s now = ground arith

-- `mark_of`.
unfoldable pub mark_of : User → Clearing → ReassignmentMark
mark_of user st = unwrap_or (lookup user st.reassignment_marks) default_mark

-- The generation that `ReassignmentGuard::acquire` takes down.
unfoldable pub acquire : User → Clearing → Res TradeError ℕ
acquire user st =
    let mark = mark_of user st in
    if mark.locked then err (account_under_reassignment user) else ok mark.generation

-- `ReassignmentGuard::revalidate`.
unfoldable pub revalidate : User → ℕ → Clearing → Res TradeError (Unit {0})
revalidate user generation st =
    let mark = mark_of user st in
    if mark.locked || not (mark.generation == generation)
    then err (account_under_reassignment user)
    else ok tt

-- One round of `lock_for_reassignment`; the generation is a `u64` and wraps.
unfoldable pub lock_user : User → Clearing → Clearing
lock_user user st =
    let mark = mark_of user st in
    record st {
      reassignment_marks =
          insert user (record { generation = (mark.generation + 1) % u64_mod; locked = true })
            st.reassignment_marks;
    }

unfoldable pub unlock_user : User → Clearing → Clearing
unlock_user user st = record st {
  reassignment_marks =
      insert user (record (mark_of user st) { locked = false }) st.reassignment_marks;
}

unfoldable pub lock_for_reassignment : User → User → Clearing → Clearing
lock_for_reassignment old_owner new_owner st = lock_user new_owner (lock_user old_owner st)

unfoldable pub unlock_after_reassignment : User → User → Clearing → Clearing
unlock_after_reassignment old_owner new_owner st = unlock_user new_owner (unlock_user old_owner st)
