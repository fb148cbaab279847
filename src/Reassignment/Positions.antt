-- ===== src/Reassignment/Positions.antt =====
-- What the re-keying of an account makes of the positions
-- (src/clearing/src/account/reassignment.rs).
use icdc_core.Prelude.{
  ◌≡◌, refl, ◌∙◌, sym, ap, Bool, true, false, Option, none, some, List, [], ◌∷◌, any_by, arith,
  ◌==◌, ==_iff, if◌then◌else◌, Bool-cases, inl, inr,
}
use icdc_core.Prelude.Maps.{nat_key, lookup, remove, lookup-insert, lookup-remove}
use icdc_core.Margin.{User, position_key, Position, PositionsMap, AccountState}
use icdc_core.Reassignment.{Holding, holding_key, rekey_found, rekey_positions, holdings}

-- A position and an account under another owner.
abbrev pub of_owner : User → Option Position → Option Position
of_owner user none = none
of_owner user (some position) = some (record position { user = user })

abbrev pub account_of_owner : User → Option AccountState → Option AccountState
account_of_owner user none = none
account_of_owner user (some state) = some (record state { user = user })

-- The first of two that is there.
abbrev pub or_else {ℓ} : {A : Type ℓ} → Option A → Option A → Option A
or_else none y = y
or_else (some x) y = some x

abbrev pub among : List Holding → Holding → Bool
among hs h = any_by (λ (j : Holding). holding_key.beq j h) hs

module _ (old_owner new_owner : User) (other : old_owner == new_owner ≡ false) where
  -- What the position of an owner in a holding becomes, given those of the two owners.
  abbrev pub moved : User → Holding → Bool → PositionsMap → Option Position
  moved user h listed ps =
      if listed
      then (if user == old_owner
          then none
          else if user == new_owner
          then or_else (of_owner new_owner (lookup (old_owner, h) ps)) (lookup (new_owner, h) ps)
          else lookup (user, h) ps)
      else lookup (user, h) ps

  pub absent-moved :
      (h : Holding) (user : User) (ps : PositionsMap)
      → lookup (old_owner, h) ps ≡ none
      → lookup (user, h) ps ≡ moved user h true ps
  absent-moved h user ps gone =
      cases (user == old_owner) (user == new_owner) (==_iff user old_owner).0
        (==_iff user new_owner).0
    where
      cases :
          (b c : Bool)
          → (b ≡ true → user ≡ old_owner)
          → (c ≡ true → user ≡ new_owner)
          → lookup (user, h) ps ≡ (
              if b
              then none
              else if c
              then or_else
                  (of_owner new_owner (lookup (old_owner, h) ps))
                  (lookup (new_owner, h) ps)
              else lookup (user, h) ps)
      cases true c is_old is_new = ap (λ (u : User). lookup (u, h) ps) (is_old refl) ∙ gone
      cases false true is_old is_new = rw gone (ap (λ (u : User). lookup (u, h) ps) (is_new refl))
      cases false false is_old is_new = refl

  lookup-rekey_found :
      (found : Option Position) (j h : Holding) (user : User) (ps : PositionsMap)
      → lookup (old_owner, j) ps ≡ found
      → lookup (user, h) (rekey_found old_owner new_owner found j ps)
        ≡ moved user h (holding_key.beq j h) ps
  unfolding rekey_found
  lookup-rekey_found none j h user ps absent = elim (Bool-cases (holding_key.beq j h)) [
    | inl same ↦
        let gone : lookup (old_owner, h) ps ≡ none =
          ap (λ (i : Holding). lookup (old_owner, i) ps) (sym ((holding_key.beq_iff j h).0 same))
          ∙ absent in
        rw same (absent-moved h user ps gone)
    | inr apart ↦ rw apart refl
  ]
  lookup-rekey_found (some position) j h user ps there = elim (Bool-cases (holding_key.beq j h)) [
    | inl same ↦
        let held : lookup (old_owner, h) ps ≡ some position =
          ap (λ (i : Holding). lookup (old_owner, i) ps) (sym ((holding_key.beq_iff j h).0 same))
          ∙ there in
        rw
          (
            lookup-insert (new_owner, j) (user, h) (record position { user = new_owner })
                (remove (old_owner, j) ps),
            lookup-remove (old_owner, j) (user, h) ps,
            same,
            held,
          )
          (ground (arith, other))
    | inr apart ↦
        rw
          (
            lookup-insert (new_owner, j) (user, h) (record position { user = new_owner })
                (remove (old_owner, j) ps),
            lookup-remove (old_owner, j) (user, h) ps,
            apart,
          )
          (ground arith)
  ]

  pub lookup-rekey_positions :
      (hs : List Holding) (user : User) (h : Holding) (ps : PositionsMap)
      → lookup (user, h) (rekey_positions old_owner new_owner hs ps) ≡ moved user h (among hs h) ps
  unfolding rekey_positions
  lookup-rekey_positions [] user h ps = refl
  lookup-rekey_positions (j ∷ hs) user h ps =
      let next = rekey_found old_owner new_owner (lookup (old_owner, j) ps) j ps in
      let step = λ (v : User). lookup-rekey_found (lookup (old_owner, j) ps) j h v ps refl in
      ground (
        arith,
        other,
        step user,
        step old_owner,
        step new_owner,
        lookup-rekey_positions hs user h next,
      )

  pub among-holdings :
      (h : Holding) (ps : PositionsMap)
      → among (holdings old_owner ps) h ≡ false
      → lookup (old_owner, h) ps ≡ none
  unfolding holdings
  among-holdings h [] e = refl
  among-holdings h ((k, position) ∷ ps) e = ground (arith, among-holdings h ps)
