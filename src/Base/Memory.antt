-- ===== src/Base/Memory.antt =====
-- A memory: the byte at each address. A block of memory that the code reaches through a pointer is
-- the function from the offset to the byte there.
use oceanbase.Base.Tests.{◌==◌, if◌then◌else◌}
use Prim.Native.Nat.{ℕ, zero, suc, ◌+◌, ◌≤◌, ◌<◌}
use mathlib.Core.Path.{◌≡◌, refl, ap, ap₂, ◌∙◌}
use mathlib.Core.Logic.{◌⊎◌}
use mathlib.Core.List.{List, [], ◌∷◌}
use native.Mathlib.Omega.{arith}

abbrev pub Memory : Type 0
Memory = ℕ → ℕ

-- Every cell holds a byte.
abbrev pub IsBytes : Memory → Type 0
IsBytes m = (a : ℕ) → m a < 256

abbrev pub poke : Memory → ℕ → ℕ → Memory
poke m a v b = if a == b then v else m b

-- memcpy(m + a, src, n)
unfoldable pub memcpy : Memory → ℕ → Memory → ℕ → Memory
memcpy m a src zero = m
memcpy m a src (suc n) = poke (memcpy m a src n) (a + n) (src n)

-- memset(m + a, v, n)
unfoldable pub memset : Memory → ℕ → ℕ → ℕ → Memory
memset m a v n = memcpy m a (λ _. v) n

-- The `n` bytes at `a`.
pub load : Memory → ℕ → ℕ → List ℕ
load m a zero = []
load m a (suc n) = m a ∷ load m (a + 1) n

-- Inside the copied stretch stand the source's bytes, outside it nothing changes.
pub memcpy_inside :
    (m : Memory) (a : ℕ) (src : Memory) (n k : ℕ) → k < n → memcpy m a src n (a + k) ≡ src k
unfolding memcpy
memcpy_inside m a src zero k h = absurd (omega arith)
memcpy_inside m a src (suc n) k h = ground (arith, memcpy_inside m a src n k)

pub memcpy_front : (m src : Memory) (n k : ℕ) → k < n → memcpy m 0 src n k ≡ src k
memcpy_front m src n k h =
    let e : k ≡ 0 + k = omega arith in ap (memcpy m 0 src n) e ∙ memcpy_inside m 0 src n k h

pub memcpy_outside :
    (m : Memory) (a : ℕ) (src : Memory) (n b : ℕ) → (b < a) ⊎ (a + n ≤ b) → memcpy m a src n b ≡ m b
unfolding memcpy
memcpy_outside m a src zero b h = refl
memcpy_outside m a src (suc n) b h = ground (arith, memcpy_outside m a src n b)

pub memcpy-IsBytes :
    (m : Memory) (a : ℕ) (src : Memory) (n : ℕ)
    → IsBytes m
    → IsBytes src
    → IsBytes (memcpy m a src n)
unfolding memcpy
memcpy-IsBytes m a src zero hm hs b = hm b
memcpy-IsBytes m a src (suc n) hm hs b = ground (arith, memcpy-IsBytes m a src n hm hs b, hs n)

-- Memories that agree on a stretch load alike.
pub load-ext :
    (m m' : Memory) (a b n : ℕ)
    → ((k : ℕ) → k < n → m (a + k) ≡ m' (b + k))
    → load m a n ≡ load m' b n
unfolding load
load-ext m m' a b zero h = refl
load-ext m m' a b (suc n) h =
    ap₂ ◌∷◌ (ap m (omega arith) ∙ h 0 (omega arith) ∙ ap m' (omega arith)) (
      load-ext m m' (a + 1) (b + 1) n
        (λ k lt. (ap m (omega arith) ∙ h (suc k) (omega arith) ∙ ap m' (omega arith))))
