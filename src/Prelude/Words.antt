-- ===== src/Prelude/Words.antt =====
-- Rust's `u128` and `i128` in the release profile, where `+ - *` and `pow` wrap around.
-- A `u128` is a number below 2 ^ 128, an `i128` an integer in [-2 ^ 127, 2 ^ 127).
use Prim.Native.Nat.{ℕ, suc, ◌+◌, ◌-◌, ◌*◌, ◌%◌, ◌^◌, ◌≤◌, ◌<◌}
use mathlib.Core.Path.{◌≡◌}
use native.Mathlib.Omega.{arith}
use native.Mathlib.Nat.{mod-eq_of_lt}
use icdc_core.Prelude.Tests.{ltb, if◌then◌else◌}
use icdc_core.Prelude.Int.{ℤ, pos, negsuc, pos_part, neg_part, ◌+ℤ◌, ◌-ℤ◌, int_bounds}

abbrev pub u64_mod : ℕ
u64_mod = 0x1_0000_0000_0000_0000

abbrev pub u128_mod : ℕ
u128_mod = 0x1_0000_0000_0000_0000_0000_0000_0000_0000

abbrev pub i128_lim : ℕ
i128_lim = 0x8000_0000_0000_0000_0000_0000_0000_0000

unfoldable pub add_u128 : ℕ → ℕ → ℕ
add_u128 a b = (a + b) % u128_mod

unfoldable pub mul_u128 : ℕ → ℕ → ℕ
mul_u128 a b = a * b % u128_mod

-- `10_u128.pow(n)`.
unfoldable pub pow10_u128 : ℕ → ℕ
pow10_u128 n = 10 ^ n % u128_mod

-- The bit pattern of an integer, modulo 2 ^ 128.
unfoldable pub cast_unsigned : ℤ → ℕ
cast_unsigned (pos n) = n % u128_mod
cast_unsigned (negsuc n) = u128_mod - 1 - n % u128_mod

unfoldable pub cast_signed : ℕ → ℤ
cast_signed n = if ltb n i128_lim then pos n else negsuc (u128_mod - n - 1)

unfoldable pub wrap_i128 : ℤ → ℤ
wrap_i128 z = cast_signed (cast_unsigned z)

unfoldable pub add_i128 : ℤ → ℤ → ℤ
add_i128 a b = wrap_i128 (a +ℤ b)

unfoldable pub sub_i128 : ℤ → ℤ → ℤ
sub_i128 a b = wrap_i128 (a -ℤ b)

unfoldable pub neg_i128 : ℤ → ℤ
neg_i128 a = wrap_i128 (pos 0 -ℤ a)

abbrev pub unsigned_abs : ℤ → ℕ
unsigned_abs (pos n) = n
unsigned_abs (negsuc n) = suc n

-- An integer that an `i128` holds.
abbrev pub FitsI128 : ℤ → Type 0
FitsI128 z = (pos_part z < i128_lim) × (neg_part z ≤ i128_lim)

pub add_u128-eq : (a b : ℕ) → a + b < u128_mod → add_u128 a b ≡ a + b
unfolding add_u128
add_u128-eq a b h = omega arith

pub mul_u128-eq : (a b : ℕ) → a * b < u128_mod → mul_u128 a b ≡ a * b
unfolding mul_u128
mul_u128-eq a b h = mod-eq_of_lt h

pub cast_signed-eq : (n : ℕ) → n < i128_lim → cast_signed n ≡ pos n
unfolding cast_signed
cast_signed-eq n h = ground arith

pub cast_unsigned-eq : (n : ℕ) → n < u128_mod → cast_unsigned (pos n) ≡ n
unfolding cast_unsigned
cast_unsigned-eq n h = omega arith

pub wrap_i128-eq : (z : ℤ) → FitsI128 z → wrap_i128 z ≡ z
unfolding wrap_i128 cast_signed cast_unsigned
wrap_i128-eq (pos n) h = ground arith
wrap_i128-eq (negsuc n) h = ground arith

pub add_i128-eq : (a b : ℤ) → FitsI128 (a +ℤ b) → add_i128 a b ≡ a +ℤ b
unfolding add_i128
add_i128-eq a b h = wrap_i128-eq (a +ℤ b) h

pub sub_i128-eq : (a b : ℤ) → FitsI128 (a -ℤ b) → sub_i128 a b ≡ a -ℤ b
unfolding sub_i128
sub_i128-eq a b h = wrap_i128-eq (a -ℤ b) h

-- The difference of two amounts below 2 ^ 127.
pub sub_i128-cast_signed :
    (a b : ℕ)
    → a < i128_lim
    → b < i128_lim
    → sub_i128 (cast_signed a) (cast_signed b) ≡ pos a -ℤ pos b
sub_i128-cast_signed a b h k =
    rw (cast_signed-eq a h, cast_signed-eq b k) (sub_i128-eq (pos a) (pos b) (omega int_bounds))
