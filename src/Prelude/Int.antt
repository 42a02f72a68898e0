-- ===== src/Prelude/Int.antt =====
-- The integers of C, as far as the program uses them: sign, remainder, equality.
use Prim.Native.Nat.{ℕ, suc, ◌-◌, ◌%◌}
use native.Mathlib.Decide.{ℕ_discrete}
use sp.Prelude.Tests.{◌==◌, if◌then◌else◌}

-- `negsuc n` is -(n + 1).
pub data ℤ : Type 0 where
  pos : ℕ → ℤ
  negsuc : ℕ → ℤ

unfoldable pub ℤ_discrete : Discrete ℤ
unfolding ℕ_discrete
ℤ_discrete = hlevel ℕ_discrete

-- `a % n` of C for a positive `n`: the remainder has the sign of `a`.
unfoldable pub rem : ℤ → ℕ → ℤ
rem (pos a) n = pos (a % n)
rem (negsuc a) n = let r = suc a % n in if r == 0 then pos 0 else negsuc (r - 1)
