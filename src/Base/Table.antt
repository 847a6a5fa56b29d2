-- ===== src/Base/Table.antt =====
-- A test of every number of a small range, by evaluation.
use Prim.Native.Nat.{ℕ, zero, suc, ◌<◌}
use mathlib.Core.Path.{◌≡◌}
use mathlib.Core.Bool.{Bool, true, ◌&&◌}
use native.Mathlib.Omega.{arith}

module _ (test : ℕ → Bool) where
  unfoldable pub passes_below : ℕ → Bool
  passes_below zero = true
  passes_below (suc bound) = passes_below bound && test bound

  pub passed : (bound : ℕ) → passes_below bound ≡ true → (k : ℕ) → k < bound → test k ≡ true
  unfolding passes_below
  passed zero all k below = absurd (omega arith)
  passed (suc bound) all k below = ground (arith, passed bound _ k)
