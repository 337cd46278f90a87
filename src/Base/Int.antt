-- ===== src/Base/Int.antt =====
-- C's signed numbers: integers over the native numbers, `int` as a 32-bit pattern, `long` clamped as
-- `strtol` clamps it.
use Prim.Native.Nat.{ℕ, zero, suc, ◌-◌, ◌%◌, ◌^◌, ◌<◌}
use mathlib.Core.Path.{◌≡◌, refl}
use mathlib.Core.Logic.{◌↔◌, ◌⊎◌, inl, inr}
use mathlib.Core.Bool.{Bool, true, false}
use native.Mathlib.Omega.{arith}
use nfs_system.Base.Tests.{ltb, ◌==◌, if◌then◌else◌}

-- `negsuc n` is -(n + 1).
pub data ℤ : Type 0 where
  pos : ℕ → ℤ
  negsuc : ℕ → ℤ

pub ℤ-cases : (z : ℤ) → ((n : ℕ) × (z ≡ negsuc n)) ⊎ ((n : ℕ) × (z ≡ pos n))
ℤ-cases (pos n) = inr (n, refl)
ℤ-cases (negsuc n) = inl (n, refl)

abbrev pub int_eq : ℤ → ℤ → Bool
int_eq (pos a) (pos b) = a == b
int_eq (negsuc a) (negsuc b) = a == b
int_eq _ _ = false

pub int_eq_iff : (a b : ℤ) → (int_eq a b ≡ true) ↔ (a ≡ b)
int_eq_iff (pos a) (pos b) = ground arith
int_eq_iff (pos a) (negsuc b) = ground arith
int_eq_iff (negsuc a) (pos b) = ground arith
int_eq_iff (negsuc a) (negsuc b) = ground arith

-- `x > 0`
abbrev pub is_positive : ℤ → Bool
is_positive (pos zero) = false
is_positive (pos (suc n)) = true
is_positive (negsuc n) = false

abbrev pub is_negative : ℤ → Bool
is_negative (pos n) = false
is_negative (negsuc n) = true

-- The `int` whose bit pattern is `n`, for `n < 2 ^ 32`.
abbrev pub of_bits : ℕ → ℤ
of_bits n = if ltb n (2 ^ 31) then pos n else negsuc (2 ^ 32 - n - 1)

-- The conversion of a `long` to `int`.
unfoldable pub to_int : ℤ → ℤ
to_int (pos n) = of_bits (n % 2 ^ 32)
to_int (negsuc n) = of_bits (2 ^ 32 - 1 - n % 2 ^ 32)

-- The `long` of a sign and a magnitude: out of range it is LONG_MAX or LONG_MIN.
unfoldable pub to_long : Bool → ℕ → ℤ
to_long true zero = pos 0
to_long true (suc n) = if ltb n (2 ^ 63) then negsuc n else negsuc (2 ^ 63 - 1)
to_long false n = if ltb n (2 ^ 63) then pos n else pos (2 ^ 63 - 1)

pub to_int_small : (n : ℕ) → n < 2 ^ 31 → to_int (pos n) ≡ pos n
unfolding to_int
to_int_small n h = ground arith

pub to_long_small : (n : ℕ) → n < 2 ^ 63 → to_long false n ≡ pos n
unfolding to_long
to_long_small n h = ground arith

-- An `int` is at most 2 ^ 31 - 1.
pub to_int_max : (z : ℤ) (n : ℕ) → to_int z ≡ pos n → n < 2 ^ 31
unfolding to_int
to_int_max (pos m) n h = ground arith
to_int_max (negsuc m) n h = ground arith
