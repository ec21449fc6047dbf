-- ===== src/Prelude/Int.antt =====
-- C integers: the 32-bit `int` as an integer, and its conversions to and from the 64-bit `size_t`.
use Prim.Native.Nat.{ℕ, ◌+◌, ◌-◌, ◌%◌, ◌^◌, ◌<◌}
use mathlib.Core.Path.{◌≡◌}
use native.Mathlib.Omega.{arith}
use mathlib.Core.Bool.{Bool, true, false}
use mathlib.Core.Logic.{◌↔◌}
use hodgepodge.Prelude.Tests.{ltb, ◌==◌, if◌then◌else◌}

-- `negsuc n` is -(n + 1).
pub data ℤ : Type 0 where
  pos : ℕ → ℤ
  negsuc : ℕ → ℤ

-- The conversion of an `int` to `size_t`: a negative number wraps around.
abbrev pub size_of_int : ℤ → ℕ
size_of_int (pos n) = n
size_of_int (negsuc n) = 2 ^ 64 - (n + 1)

-- The conversion of a `size_t` to `int`: the low 32 bits, read as two's complement.
abbrev pub int_of_size : ℕ → ℤ
int_of_size n =
    if ltb (n % 2 ^ 32) (2 ^ 31) then pos (n % 2 ^ 32) else negsuc (2 ^ 32 - n % 2 ^ 32 - 1)

pub int_of_size-small : (n : ℕ) → n < 2 ^ 31 → int_of_size n ≡ pos n
int_of_size-small n h = ground arith

abbrev pub eq_int : ℤ → ℤ → Bool
eq_int (pos m) (pos n) = m == n
eq_int (pos m) (negsuc n) = false
eq_int (negsuc m) (pos n) = false
eq_int (negsuc m) (negsuc n) = m == n

pub eq_int_iff : (a b : ℤ) → (eq_int a b ≡ true) ↔ (a ≡ b)
eq_int_iff (pos m) (pos n) = ground arith
eq_int_iff (pos m) (negsuc n) = ground arith
eq_int_iff (negsuc m) (pos n) = ground arith
eq_int_iff (negsuc m) (negsuc n) = ground arith

-- The values of a 32-bit `int`.
abbrev pub IsInt : ℤ → Type 0
IsInt (pos n) = n < 2 ^ 31
IsInt (negsuc n) = n < 2 ^ 31

-- Two handles are equal exactly when they are equal as `unsigned long`.
pub size_of_int-eq : (a b : ℤ) → IsInt a → IsInt b → (size_of_int a == size_of_int b) ≡ eq_int a b
size_of_int-eq (pos m) (pos n) h k = ground arith
size_of_int-eq (pos m) (negsuc n) h k = ground arith
size_of_int-eq (negsuc m) (pos n) h k = ground arith
size_of_int-eq (negsuc m) (negsuc n) h k = ground arith
