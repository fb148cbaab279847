-- ===== src/Prelude/Maps.antt =====
-- `BTreeMap`: an association list that `insert` keeps in the order of the keys.
use Prim.Native.Nat.{ℕ}
use mathlib.Core.Path.{◌≡◌, refl, ap}
use mathlib.Core.Logic.{◌↔◌, ◌≢◌, inl, inr}
use mathlib.Core.Bool.{Bool, true, false, ◌&&◌, ◌||◌}
use mathlib.Core.List.{List, [], ◌∷◌, map}
use mathlib.Core.Option.{Option, none, some}
use native.Mathlib.Omega.{arith}
use icdc_core.Prelude.Tests.{ltb, ◌==◌, ==_iff, if◌then◌else◌, Bool-cases}

-- Keys with an equality test and a test for the strict order.
pub record Key {ℓ} (K : Type ℓ) : Type ℓ where
  pub beq : K → K → Bool
  pub before : K → K → Bool
  pub beq_iff : (a b : K) → (beq a b ≡ true) ↔ (a ≡ b)

instance abbrev pub nat_key : Key ℕ
nat_key = record { beq = ◌==◌; before = ltb; beq_iff = ==_iff }

module _ {ℓ κ} {A : Type ℓ} {B : Type κ} (a : Key A) (b : Key B) where
  abbrev pub pair_beq : A × B → A × B → Bool
  pair_beq x y = a.beq x.0 y.0 && b.beq x.1 y.1

  pub pair_beq_iff : (x y : A × B) → (pair_beq x y ≡ true) ↔ (x ≡ y)
  pair_beq_iff x y = ground (arith, a.beq_iff x.0 y.0, b.beq_iff x.1 y.1)

  -- Pairs in lexicographic order.
  abbrev pub pair_key : Key (A × B)
  pair_key = record {
    beq = pair_beq;
    before = λ x y. a.before x.0 y.0 || (a.beq x.0 y.0 && b.before x.1 y.1);
    beq_iff = pair_beq_iff;
  }

module _ {ℓ} {A : Type ℓ} (a : Key A) where
  abbrev pub option_beq : Option A → Option A → Bool
  option_beq none none = true
  option_beq none (some y) = false
  option_beq (some x) none = false
  option_beq (some x) (some y) = a.beq x y

  -- `None` comes first.
  abbrev pub option_before : Option A → Option A → Bool
  option_before none none = false
  option_before none (some y) = true
  option_before (some x) none = false
  option_before (some x) (some y) = a.before x y

  pub option_beq_iff : (x y : Option A) → (option_beq x y ≡ true) ↔ (x ≡ y)
  option_beq_iff none none = ground arith
  option_beq_iff none (some y) = ground arith
  option_beq_iff (some x) none = ground arith
  option_beq_iff (some x) (some y) = ground (arith, a.beq_iff x y)

  abbrev pub option_key : Key (Option A)
  option_key = record { beq = option_beq; before = option_before; beq_iff = option_beq_iff }

module _ {ℓ} {K : Type ℓ} ⦃e : Key K⦄ where
  pub beq_refl : (k : K) → e.beq k k ≡ true
  beq_refl k = (e.beq_iff k k).1 refl

  pub beq_of_ne : (k j : K) → k ≢ j → e.beq k j ≡ false
  beq_of_ne k j h = ground (arith, e.beq_iff k j)

abbrev pub Map {ℓ κ} : Type ℓ → Type κ → Type (ℓ ⊔ κ)
Map K V = List (K × V)

module _ {ℓ κ} {K : Type ℓ} {V : Type κ} where
  abbrev pub values : Map K V → List V
  values = map λ e. e.1

  abbrev pub keys : Map K V → List K
  keys = map λ e. e.0

module _ {ℓ κ} {K : Type ℓ} {V : Type κ} ⦃e : Key K⦄ where
  abbrev pub lookup : K → Map K V → Option V
  lookup k [] = none
  lookup k ((j, v) ∷ m) = if e.beq j k then some v else lookup k m

  abbrev pub contains_key : K → Map K V → Bool
  contains_key k [] = false
  contains_key k ((j, v) ∷ m) = if e.beq j k then true else contains_key k m

  abbrev pub insert : K → V → Map K V → Map K V
  insert k v [] = (k, v) ∷ []
  insert k v ((j, w) ∷ m) =
      if e.beq j k
      then (k, v) ∷ m
      else if e.before k j
      then (k, v) ∷ (j, w) ∷ m
      else (j, w) ∷ insert k v m

  abbrev pub remove : K → Map K V → Map K V
  remove k [] = []
  remove k ((j, w) ∷ m) = if e.beq j k then remove k m else (j, w) ∷ remove k m

  pub lookup-insert :
      (k j : K) (v : V) (m : Map K V)
      → lookup j (insert k v m) ≡ (if e.beq k j then some v else lookup j m)
  lookup-insert k j v [] = refl
  lookup-insert k j v ((i, w) ∷ m) =
      ground (arith, e.beq_iff k j, e.beq_iff i k, e.beq_iff i j, lookup-insert k j v m)

  pub lookup-remove :
      (k j : K) (m : Map K V) → lookup j (remove k m) ≡ (if e.beq k j then none else lookup j m)
  lookup-remove k j [] = ground arith
  lookup-remove k j ((i, w) ∷ m) =
      ground (arith, e.beq_iff k j, e.beq_iff i k, e.beq_iff i j, lookup-remove k j m)

  pub contains_key-insert :
      (k j : K) (v : V) (m : Map K V)
      → contains_key j (insert k v m) ≡ (if e.beq k j then true else contains_key j m)
  contains_key-insert k j v [] = refl
  contains_key-insert k j v ((i, w) ∷ m) =
      ground (arith, e.beq_iff k j, e.beq_iff i k, e.beq_iff i j, contains_key-insert k j v m)

  -- The second of two insertions under a key replaces the first.
  pub insert-insert : (k : K) (v w : V) (m : Map K V) → insert k v (insert k w m) ≡ insert k v m
  insert-insert k v w [] = ground (arith, beq_refl k)
  insert-insert k v w ((i, u) ∷ m) = elim (Bool-cases (e.beq i k)) [
    | inl same ↦ rw same (rw (beq_refl k) refl)
    | inr other ↦ elim (Bool-cases (e.before k i)) [
      | inl first ↦ rw (other, first) (rw (beq_refl k) refl)
      | inr later ↦
          rw (other, later)
            (rw (other, later) (ap (λ (r : Map K V). (i, u) ∷ r) (insert-insert k v w m)))
    ]
  ]

  pub lookup-absent : (k : K) (m : Map K V) → contains_key k m ≡ false → lookup k m ≡ none
  lookup-absent k [] h = refl
  lookup-absent k ((j, v) ∷ m) h = ground (arith, lookup-absent k m)
