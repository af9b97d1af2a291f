-- ===== src/Base/Table.antt =====
-- A test that holds on a table of all small values holds at each.
use Prim.Native.Nat.{ℕ, zero, suc, ◌<◌}
use mathlib.Core.Path.{◌≡◌}
use mathlib.Core.Logic.{inl, inr}
use mathlib.Core.Bool.{Bool, true, false}
use native.Mathlib.Omega.{arith}
use oceanbase.Base.Tests.{◌==◌, if◌then◌else◌, Bool-cases}

-- The test `p` passes at every number under the bound.
unfoldable pub passes_under : (ℕ → Bool) → ℕ → Bool
passes_under p zero = true
passes_under p (suc bound) = if p bound then passes_under p bound else false

pub passes_under-at :
    (p : ℕ → Bool) (bound x : ℕ) → passes_under p bound ≡ true → x < bound → p x ≡ true
unfolding passes_under
passes_under-at p zero x all below = absurd (omega arith)
passes_under-at p (suc bound) x all below = elim (Bool-cases (x == bound)) [
  | inl last ↦ ground arith
  | inr earlier ↦ ground (arith, passes_under-at p bound x)
]
