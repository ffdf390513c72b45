-- ===== src/Prelude/Int.antt =====
-- Signed integers, and Go's conversions between uint64 and int64.
use Prim.Native.Nat.{ℕ, ◌-◌, ◌<◌, ◌^◌}
use mathlib.Core.Path.{◌≡◌}
use mathlib.Core.Bool.{Bool, true, false}
use native.Mathlib.Omega.{arith}
use pi_bully.Prelude.Tests.{ltb, ◌==◌, if◌then◌else◌, u64_mod}

-- `negsuc n` is -(n + 1).
pub data ℤ : Type 0 where
  pos : ℕ → ℤ
  negsuc : ℕ → ℤ

abbrev pub int_eq : ℤ → ℤ → Bool
int_eq (pos a) (pos b) = a == b
int_eq (negsuc a) (negsuc b) = a == b
int_eq _ _ = false

-- `int64(x)` of a uint64, by two's complement.
abbrev pub to_int64 : ℕ → ℤ
to_int64 x = if ltb x (2 ^ 63) then pos x else negsuc (u64_mod - 1 - x)

-- `uint64(x)` of an int64.
abbrev pub of_int64 : ℤ → ℕ
of_int64 (pos n) = n
of_int64 (negsuc n) = u64_mod - 1 - n

pub of_int64-to_int64 : (x : ℕ) → x < u64_mod → of_int64 (to_int64 x) ≡ x
of_int64-to_int64 x h = ground arith

pub int_eq_refl : (a : ℤ) → int_eq a a ≡ true
int_eq_refl (pos a) = ground arith
int_eq_refl (negsuc a) = ground arith

pub int_eq_sound : (a b : ℤ) → int_eq a b ≡ true → a ≡ b
int_eq_sound a b h = ground arith
