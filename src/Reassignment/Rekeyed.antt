-- ===== src/Reassignment/Rekeyed.antt =====
-- The state after an account moved to another principal (src/clearing/src/account/reassignment.rs).
use icdc_core.Prelude.{
  ℕ, ◌≡◌, refl, ◌∙◌, sym, ap, true, false, not, ◌||◌, Option, none, some, [], ◌∷◌, arith, ◌==◌,
  if◌then◌else◌, Bool-cases, ◌⊎◌, inl, inr,
}
use icdc_core.Prelude.Maps.{
  Map, nat_key, lookup, contains_key, remove, lookup-insert, lookup-remove, beq_refl,
}
use icdc_core.Margin.{User, position_key, Position, PositionsMap, AccountState}
use icdc_core.Prelude.Results.{ok, >>=-eq-ok, guard-eq-ok}
use icdc_core.Clearing.Plans.{ReassignmentPlan, executing, reassignment_get_or_create}
use icdc_core.Clearing.Orders.{ReassignmentMark}
use icdc_core.Trade.Access.Reassigned.{mark_of-lock_user}
use icdc_core.Clearing.State.{Clearing, Env, done, proceed-eq-done, done-injective}
use icdc_core.Trade.Access.{mark_of, lock_for_reassignment, lock_user}
use icdc_core.Reassignment.{
  has_orders, has_frozen, check_rekey, target_has_clearing_state, custody_assets,
  validate_and_rekey, rekey, is_locked, check_no_inflight_plans_for_reassignment, persist, Holding,
  holding_key, rekey_account, rekey_positions, holdings, has_positions,
}
use icdc_core.Reassignment.Positions.{
  of_owner, account_of_owner, or_else, among, moved, absent-moved, lookup-rekey_positions,
  among-holdings,
}

has_positions-lookup :
    (user : User) (h : Holding) (ps : PositionsMap)
    → has_positions user ps ≡ false
    → lookup (user, h) ps ≡ none
unfolding has_positions
has_positions-lookup user h [] e = refl
has_positions-lookup user h ((k, position) ∷ ps) e = ground (arith, has_positions-lookup user h ps)

lookup-present :
    (user : User) (accounts : Map User AccountState)
    → contains_key user accounts ≡ true
    → (a : AccountState) × (lookup user accounts ≡ some a)
lookup-present user [] h = absurd (ground arith)
lookup-present user ((v, a) ∷ accounts) h = elim (Bool-cases (v == user)) [
  | inl same ↦ (a, rw same refl)
  | inr other ↦
      let (b, there) = lookup-present user accounts (sym (rw other refl) ∙ h) in (b, rw other there)
]

-- Where the guard rails let a reassignment through, the old owner has an account and the new owner
-- no position.
check_rekey_lem :
    (old_owner new_owner : User) (st : Clearing)
    → check_rekey old_owner new_owner st ≡ ok tt
    → (contains_key old_owner st.accounts ≡ true) × (has_positions new_owner st.positions ≡ false)
unfolding check_rekey target_has_clearing_state
check_rekey_lem old_owner new_owner st h =
    let (free, h1) = guard-eq-ok (is_locked old_owner st || is_locked new_owner st) _ _ h in
    let (there, h2) = guard-eq-ok (not (contains_key old_owner st.accounts)) _ _ h1 in
    let (orders, h3) = guard-eq-ok (has_orders old_owner st) _ _ h2 in
    let (frozen, h4) = guard-eq-ok (has_frozen old_owner st) _ _ h3 in
    let (idle_old, _, h5) =
      >>=-eq-ok (check_no_inflight_plans_for_reassignment old_owner st) _ h4 in
    let (idle_new, _, h6) =
      >>=-eq-ok (check_no_inflight_plans_for_reassignment new_owner st) _ h5 in
    let (vacant, _) = guard-eq-ok (target_has_clearing_state new_owner st) _ _ h6 in
    (ground (arith, there), ground (arith, vacant))

or_else-none :
    (user : User) (o : Option Position) → or_else (of_owner user o) none ≡ of_owner user o
or_else-none user none = refl
or_else-none user (some position) = refl

module _ (old_owner new_owner : User) (other : (old_owner == new_owner) ≡ false) where
  rekeyed_positions :
      (user : User) (h : Holding) (ps : PositionsMap)
      → has_positions new_owner ps ≡ false
      → lookup (user, h) (rekey_positions old_owner new_owner (holdings old_owner ps) ps) ≡ (
          if user == old_owner
          then none
          else if user == new_owner
          then of_owner new_owner (lookup (old_owner, h) ps)
          else lookup (user, h) ps)
  rekeyed_positions user h ps vacant =
      lookup-rekey_positions old_owner new_owner other (holdings old_owner ps) user h ps
      ∙ all_moved (Bool-cases (among (holdings old_owner ps) h))
      ∙ rw
          (
            has_positions-lookup new_owner h ps vacant,
            or_else-none new_owner (lookup (old_owner, h) ps),
          )
          refl
    where
      all_moved :
          (among (holdings old_owner ps) h ≡ true) ⊎ (among (holdings old_owner ps) h ≡ false)
          → moved old_owner new_owner other user h (among (holdings old_owner ps) h) ps
            ≡ moved old_owner new_owner other user h true ps
      all_moved (inl listed) = rw listed refl
      all_moved (inr unlisted) = rw unlisted (
          absent-moved old_owner new_owner other h user ps
            (among-holdings old_owner new_owner other h ps unlisted))

  rekeyed_accounts :
      (user : User) (found : Option AccountState) (accounts : Map User AccountState)
      {a : AccountState}
      → found ≡ some a
      → lookup user (rekey_account old_owner new_owner found accounts) ≡ (
          if user == old_owner
          then none
          else if user == new_owner
          then account_of_owner new_owner found
          else lookup user accounts)
  unfolding rekey_account
  rekeyed_accounts user none accounts present = absurd (ground (arith, present))
  rekeyed_accounts user (some a) accounts present =
      rw
        (
          lookup-insert new_owner user (record a { user = new_owner }) (remove old_owner accounts),
          lookup-remove old_owner user accounts,
        )
        (ground (arith, other))

  rekeyed_locks :
      (st : Clearing)
      → (is_locked old_owner (rekey old_owner new_owner st) ≡ true)
        × (is_locked new_owner (rekey old_owner new_owner st) ≡ true)
  unfolding rekey is_locked mark_of lock_for_reassignment
  rekeyed_locks st =
      let between = lock_user old_owner st in
      let apart : (new_owner == old_owner) ≡ false = ground (arith, other) in
      (
        ap (λ (m : ReassignmentMark). m.locked) (mark_of-lock_user new_owner old_owner between)
            ∙ rw (apart, mark_of-lock_user old_owner old_owner st, beq_refl old_owner) refl,
        ap (λ (m : ReassignmentMark). m.locked) (mark_of-lock_user new_owner new_owner between)
            ∙ rw (beq_refl new_owner) refl,
      )

-- A reassignment between two different principals that passes its checks gives the new owner every
-- position of the old owner, and its account, both under the new owner's name, and leaves the old
-- owner with neither. No position and no account of a third principal changes, and the accounts of
-- both owners are locked.
pub validate_and_rekey-moves :
    (old_owner new_owner : User) (env : Env) (reassignment_id : ℕ) (st : Clearing)
    {plan : ReassignmentPlan} {st' : Clearing}
    → (old_owner == new_owner) ≡ false
    → validate_and_rekey old_owner new_owner env reassignment_id st ≡ done plan st'
    → ((user : User) (h : Holding)
        → lookup (user, h) st'.positions ≡ (
            if user == old_owner
            then none
            else if user == new_owner
            then of_owner new_owner (lookup (old_owner, h) st.positions)
            else lookup (user, h) st.positions))
      × ((user : User)
          → lookup user st'.accounts ≡ (
              if user == old_owner
              then none
              else if user == new_owner
              then account_of_owner new_owner (lookup old_owner st.accounts)
              else lookup user st.accounts))
      × (is_locked old_owner st' ≡ true)
      × (is_locked new_owner st' ≡ true)
unfolding validate_and_rekey rekey persist lock_for_reassignment lock_user
validate_and_rekey-moves old_owner new_owner env reassignment_id st {plan} {st'} other h =
    let (checked, passed, h1) = proceed-eq-done (check_rekey old_owner new_owner st) st _ h in
    let (asset_ids, _, h2) = proceed-eq-done (custody_assets old_owner st) st _ h1 in
    let (present, vacant) = check_rekey_lem old_owner new_owner st passed in
    let (a, there) = lookup-present old_owner st.accounts present in
    let opened =
      reassignment_get_or_create reassignment_id old_owner new_owner asset_ids env.now
        st.reassignment_plans in
    let saved =
      persist (record opened.0 { status = executing })
        (record st { reassignment_plans = opened.1 }) in
    let ended : rekey old_owner new_owner saved ≡ st' = (done-injective h2).1 in
    let locks = rekeyed_locks old_owner new_owner other saved in
    (
      λ user h.
          rw (← ended) (rekeyed_positions old_owner new_owner other user h st.positions vacant),
      λ user. rw (← ended) (
          rekeyed_accounts old_owner new_owner other user (lookup old_owner st.accounts) st.accounts
            there),
      rw (← ended) locks.0,
      rw (← ended) locks.1,
    )
