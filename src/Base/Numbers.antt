-- ===== src/Base/Numbers.antt =====
-- Facts on numbers.
use Prim.Native.Nat.{ℕ, zero, suc, ◌^◌, ◌≤◌}
use native.Mathlib.Nat.{pow-suc}
use native.Mathlib.Omega.{arith}

pub pow2-pos : (n : ℕ) → 1 ≤ 2 ^ n
pow2-pos zero = omega arith
pow2-pos (suc n) = omega (arith, pow-suc 2 n, pow2-pos n)
