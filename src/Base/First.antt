-- ===== src/Base/First.antt =====
-- The first place at which a test passes: the loop `for (i = start; i < end; i++)` with an early
-- exit, and what it finds.
use Prim.Native.Nat.{ℕ, zero, suc, ◌+◌, ◌≤◌, ◌<◌}
use mathlib.Core.Path.{◌≡◌}
use mathlib.Core.Logic.{inl, inr}
use mathlib.Core.Bool.{Bool, true, false}
use mathlib.Core.Option.{Option, none, some}
use native.Mathlib.Omega.{arith}
use oceanbase.Base.Tests.{◌==◌, if◌then◌else◌, Bool-cases}

-- `rounds` is the number of rounds left.
unfoldable pub first_from : (ℕ → Bool) → ℕ → ℕ → Option ℕ
first_from p zero i = none
first_from p (suc rounds) i = let rest = first_from p rounds (i + 1) in if p i then some i else rest

-- The first place from `start` on and below `size` at which `p` holds, or none.
abbrev pub IsFirst : (ℕ → Bool) → ℕ → ℕ → Option ℕ → Type 0
IsFirst p start size none = (j : ℕ) → start ≤ j → j < size → p j ≡ false
IsFirst p start size (some i) =
    (start ≤ i) × (i < size) × (p i ≡ true) × ((j : ℕ) → start ≤ j → j < i → p j ≡ false)

-- One more place in front, where `p` fails.
pub IsFirst-before :
    (p : ℕ → Bool) (i size : ℕ) (r : Option ℕ)
    → p i ≡ false
    → IsFirst p (i + 1) size r
    → IsFirst p i size r
IsFirst-before p i size none e h = λ j le lt. elim (Bool-cases (i == j)) [
  | inl same ↦ ground arith
  | inr other ↦ h j (ground arith) lt
]
IsFirst-before p i size (some k) e h = (
  omega arith,
  h.1,
  h.2,
  λ j le lt. elim (Bool-cases (i == j)) [
    | inl same ↦ ground arith
    | inr other ↦ h.3 j (ground arith) lt
  ],
)

pub first_from-IsFirst : (p : ℕ → Bool) (n i m : ℕ) → i + n ≡ m → IsFirst p i m (first_from p n i)
unfolding first_from
first_from-IsFirst p zero i m e = λ j le lt. absurd (omega arith)
first_from-IsFirst p (suc n) i m e = elim (Bool-cases (p i)) [
  | inl hit ↦ rw hit (omega arith, omega arith, hit, λ j le lt. absurd (omega arith))
  | inr miss ↦ rw miss (
      IsFirst-before p i m (first_from p n (i + 1)) miss
        (first_from-IsFirst p n (i + 1) m (omega arith)))
]
