-- ===== src/Prelude/Powers.antt =====
-- Powers of two on the native numbers.
use native.Mathlib.Nat.{two-pow-succ}
use Prim.Native.Nat.{ℕ, zero, suc, ◌*◌, ◌^◌, ◌≤◌}
use mathlib.Core.Path.{◌≡◌}
use native.Mathlib.Omega.{arith}

pub pow-suc : (a n : ℕ) → a * 2 ^ suc n ≡ a * 2 ^ n * 2
pow-suc a n = rw (two-pow-succ n) (omega arith)

pub pow-grows : (a n : ℕ) → a ≤ a * 2 ^ n
pow-grows a zero = omega arith
pow-grows a (suc n) = omega (arith, pow-grows a n, pow-suc a n)

pub pow-double : (a n : ℕ) → a * 2 * 2 ^ n ≡ a * 2 ^ suc n
pow-double a n = rw (two-pow-succ n) (omega arith)
