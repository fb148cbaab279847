-- ===== src/Trade/Access/Reassigned.antt =====
-- A call that is suspended across the reassignment of its user's account is rejected when it
-- resumes (src/clearing/src/account/reassignment.rs).
use icdc_core.Prelude.{
  ℕ, ◌+◌, ◌%◌, ◌<◌, ◌≡◌, ◌≢◌, ◌⊎◌, inl, inr, refl, ◌∙◌, sym, true, false, arith, ◌==◌,
  if◌then◌else◌,
}
use icdc_core.Prelude.Words.{u64_mod}
use icdc_core.Prelude.Maps.{nat_key, lookup-insert, beq_refl, beq_of_ne}
use icdc_core.Prelude.Results.{ok, err}
use icdc_core.Margin.{User}
use icdc_core.Clearing.Errors.{account_under_reassignment}
use icdc_core.Clearing.State.{Clearing}
use icdc_core.Trade.Access.{
  mark_of, acquire, revalidate, lock_user, unlock_user, lock_for_reassignment,
  unlock_after_reassignment,
}

pub mark_of-lock_user :
    (user v : User) (st : Clearing)
    → mark_of v (lock_user user st) ≡ (
        if user == v
        then record { generation = ((mark_of user st).generation + 1) % u64_mod; locked = true }
        else mark_of v st)
unfolding mark_of lock_user
mark_of-lock_user user v st = ground (
  arith,
  lookup-insert user v
      (record { generation = ((mark_of user st).generation + 1) % u64_mod; locked = true })
      st.reassignment_marks,
)

mark_of-unlock_user :
    (user v : User) (st : Clearing)
    → (mark_of v (unlock_user user st)).generation ≡ (mark_of v st).generation
unfolding mark_of unlock_user
mark_of-unlock_user user v st = ground (
  arith,
  lookup-insert user v (record (mark_of user st) { locked = false }) st.reassignment_marks,
)

module _ (old_owner new_owner : User) (st : Clearing) where
  locked-generation :
      (user : User)
      → old_owner ≢ new_owner
      → (user ≡ old_owner) ⊎ (user ≡ new_owner)
      → (mark_of user (lock_for_reassignment old_owner new_owner st)).generation
        ≡ ((mark_of user st).generation + 1) % u64_mod
  unfolding lock_for_reassignment
  locked-generation user other (inl e) =
      rw
        (
          mark_of-lock_user new_owner user (lock_user old_owner st),
          mark_of-lock_user old_owner user st,
          e,
          beq_refl old_owner,
          beq_of_ne new_owner old_owner (λ h. other (sym h)),
        )
        refl
  locked-generation user other (inr e) =
      rw
        (
          mark_of-lock_user new_owner user (lock_user old_owner st),
          e,
          beq_refl new_owner,
          mark_of-lock_user old_owner new_owner st,
          beq_of_ne old_owner new_owner other,
        )
        refl

  -- A guard that either of two different owners acquired before a reassignment is refused after
  -- the reassignment locked the two accounts, and also after it unlocked them, where the
  -- generation is a 64-bit number.
  pub revalidate-lock_for_reassignment :
      (user : User) {generation : ℕ}
      → old_owner ≢ new_owner
      → (user ≡ old_owner) ⊎ (user ≡ new_owner)
      → (mark_of user st).generation < u64_mod
      → acquire user st ≡ ok generation
      → let during = lock_for_reassignment old_owner new_owner st in
        let after = unlock_after_reassignment old_owner new_owner during in
        (revalidate user generation during ≡ err (account_under_reassignment user))
        × (revalidate user generation after ≡ err (account_under_reassignment user))
  unfolding acquire revalidate unlock_after_reassignment
  revalidate-lock_for_reassignment user {generation} other mine small acquired =
      let during = lock_for_reassignment old_owner new_owner st in
      let bumped = locked-generation user other mine in
      let kept : (mark_of user (unlock_user new_owner (unlock_user old_owner during))).generation
          ≡ (mark_of user during).generation =
        mark_of-unlock_user new_owner user (unlock_user old_owner during)
        ∙ mark_of-unlock_user old_owner user during in
      let taken : (mark_of user st).generation ≡ generation = ground (arith, acquired) in
      (ground (arith, bumped, small, taken), ground (arith, kept, bumped, small, taken))
