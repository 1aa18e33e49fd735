-- ===== src/Base/Count.antt =====
-- How often a number stands in a list.
use Prim.Native.Nat.{ℕ, ◌+◌}
use mathlib.Core.Path.{◌≡◌}
use mathlib.Core.List.{List, [], ◌∷◌, ◌++◌}
use native.Mathlib.Omega.{arith}
use alexos.Base.Tests.{◌==◌, if◌then◌else◌}

abbrev pub is_at : ℕ → ℕ → ℕ
is_at x t = if x == t then 1 else 0

unfoldable pub times : ℕ → List ℕ → ℕ
times t [] = 0
times t (x ∷ xs) = is_at x t + times t xs

pub times-append : (t : ℕ) (xs ys : List ℕ) → times t (xs ++ ys) ≡ times t xs + times t ys
unfolding times
times-append t [] ys = omega arith
times-append t (x ∷ xs) ys = omega (arith, times-append t xs ys)
