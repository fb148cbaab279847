-- ===== src/Prelude/Results.antt =====
-- Results of fallible code. `trap` is a panic: a division by zero, or `unreachable!`.
use mathlib.Core.Path.{◌≡◌, refl}
use mathlib.Core.Bool.{Bool, true, false}
use icdc_core.Prelude.Tests.{if◌then◌else◌}
use mathlib.Core.Option.{Option, none, some}
use native.Mathlib.Omega.{arith}

pub data Res {ℓ κ} (E : Type ℓ) (A : Type κ) : Type (ℓ ⊔ κ) where
  ok : A → Res E A
  err : E → Res E A
  trap : Res E A

-- What follows a `?`: an error or a panic ends the chain.
infixl 5 ◌>>=◌
abbrev pub ◌>>=◌ {ℓ κ μ} :
    {E : Type ℓ} {A : Type κ} {B : Type μ} → Res E A → (A → Res E B) → Res E B
trap >>= next = trap
err failure >>= next = err failure
ok value >>= next = next value

-- `.map_err(f)`.
abbrev pub map_err {ℓ κ μ} : {E : Type ℓ} {F : Type κ} {A : Type μ} → (E → F) → Res E A → Res F A
map_err f (ok a) = ok a
map_err f (err e) = err (f e)
map_err f trap = trap

-- `.ok_or(e)`.
abbrev pub ok_or {ℓ κ} : {E : Type ℓ} {A : Type κ} → Option A → E → Res E A
ok_or none e = err e
ok_or (some a) e = ok a

-- A chain that returns a value has gone through its first step.
pub >>=-eq-ok {ℓ κ μ} :
    {E : Type ℓ} {A : Type κ} {B : Type μ} {final : B} (first : Res E A) (next : A → Res E B)
    → (first >>= next) ≡ ok final
    → (value : A) × (first ≡ ok value) × (next value ≡ ok final)
>>=-eq-ok trap next h = cc
>>=-eq-ok (err failure) next h = cc
>>=-eq-ok (ok value) next h = (value, refl, h)

pub map_err-eq-ok {ℓ κ μ} :
    {E : Type ℓ} {F : Type κ} {A : Type μ} (f : E → F) (r : Res E A) {a : A}
    → map_err f r ≡ ok a
    → r ≡ ok a
map_err-eq-ok f (ok a) h = cc
map_err-eq-ok f (err e) h = absurd (ground arith)
map_err-eq-ok f trap h = absurd (ground arith)

pub ok-injective {ℓ κ} :
    {E : Type ℓ} {A : Type κ} {a b : A} → ◌≡◌ {A = Res E A} (ok a) (ok b) → a ≡ b
ok-injective h = cc

pub ok_or-eq-ok {ℓ κ} :
    {E : Type ℓ} {A : Type κ} (o : Option A) (e : E) {a : A} → ok_or o e ≡ ok a → o ≡ some a
ok_or-eq-ok none e h = absurd (ground arith)
ok_or-eq-ok (some b) e h = cc

-- A guard that is passed did not hold.
pub guard-eq-ok {ℓ κ} :
    {E : Type ℓ} {A : Type κ} (b : Bool) (e : E) (r : Res E A) {c : A}
    → (if b then err e else r) ≡ ok c
    → (b ≡ false) × (r ≡ ok c)
guard-eq-ok true e r h = absurd (ground arith)
guard-eq-ok false e r h = (refl, h)

-- A computation that returns did not divide by zero.
pub untrapped-eq-ok {ℓ κ} :
    {E : Type ℓ} {A : Type κ} (b : Bool) (a : A) {c : A}
    → ◌≡◌ {A = Res E A} (if b then trap else ok a) (ok c)
    → (b ≡ false) × (a ≡ c)
untrapped-eq-ok true a h = absurd (ground arith)
untrapped-eq-ok false a h = (refl, cc)
