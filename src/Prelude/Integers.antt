-- ===== src/Prelude/Integers.antt =====
-- Go's signed integers over the native numbers.
use Prim.Native.Nat.{ℕ}
use mathlib.Core.Path.{◌≡◌, ap}
use mathlib.Core.Bool.{Bool, true, false}
use mosona_manager.Prelude.Tests.{◌==◌, ltb}
use native.Mathlib.Omega.{arith}

-- `negsuc n` is -(n + 1)
pub data ℤ : Type 0 where
  pos : ℕ → ℤ
  negsuc : ℕ → ℤ

abbrev pub same_int : ℤ → ℤ → Bool
same_int (pos m) (pos n) = m == n
same_int (negsuc m) (negsuc n) = m == n
same_int _ _ = false

abbrev pub is_positive : ℤ → Bool
is_positive (pos n) = ltb 0 n
is_positive (negsuc n) = false

pub same_int-true : (a b : ℤ) → same_int a b ≡ true → a ≡ b
same_int-true (pos m) (pos n) e = ap pos (ground arith)
same_int-true (negsuc m) (negsuc n) e = ap negsuc (ground arith)
same_int-true (pos m) (negsuc n) e = absurd (cc e)
same_int-true (negsuc m) (pos n) e = absurd (cc e)

pub same_int_self : (a : ℤ) → same_int a a ≡ true
same_int_self (pos n) = ground arith
same_int_self (negsuc n) = ground arith
