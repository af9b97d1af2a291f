-- ===== src/Bplus/Arrays.antt =====
-- What the loops over the arrays of a node do: each entry of the result.
use oceanbase.Base.{
  ℕ, zero, suc, ◌+◌, ◌-◌, ◌≡◌, ◌≤◌, ◌<◌, ◌⊎◌, inl, inr, refl, ◌∙◌, Bool, true, false, ◌&&◌, Option,
  none, some, ltb, leb, if◌then◌else◌, arith,
}
use oceanbase.Base.First.{IsFirst, first_from-IsFirst}
use oceanbase.Pages.{update}
use oceanbase.Bplus.{shift_up, shift_down, copy, position}

pub shift_up_at :
    {A : Type 0} (rounds i : ℕ) (a : ℕ → A) (j : ℕ)
    → rounds ≤ i
    → shift_up rounds i a j ≡ (if ltb (i - rounds) j && leb j i then a (j - 1) else a j)
unfolding shift_up
shift_up_at zero i a j h = ground arith
shift_up_at (suc rounds) i a j h =
    shift_up_at rounds (i - 1) (update a i (a (i - 1))) j (omega arith) ∙ ground arith

pub shift_down_at :
    {A : Type 0} (rounds i : ℕ) (a : ℕ → A) (j : ℕ)
    → shift_down rounds i a j ≡ (if leb i j && ltb j (i + rounds) then a (j + 1) else a j)
unfolding shift_down
shift_down_at zero i a j = ground arith
shift_down_at (suc rounds) i a j =
    shift_down_at rounds (i + 1) (update a i (a (i + 1))) j ∙ ground arith

pub copy_at :
    {A : Type 0} (rounds : ℕ) (a : ℕ → A) (i : ℕ) (b : ℕ → A) (j k : ℕ)
    → copy rounds a i b j k ≡ (if leb i k && ltb k (i + rounds) then b (j + (k - i)) else a k)
unfolding copy
copy_at zero a i b j k = ground arith
copy_at (suc rounds) a i b j k =
    copy_at rounds (update a i (b j)) (i + 1) b (j + 1) k ∙ ground arith

-- The first place below `n` where the test passes, or `n`.
abbrev pub IsPosition : (ℕ → Bool) → ℕ → ℕ → Type 0
IsPosition test n i =
    (i ≤ n) × ((j : ℕ) → j < i → test j ≡ false) × ((i ≡ n) ⊎ ((i < n) × (test i ≡ true)))

IsPosition-IsFirst :
    (test : ℕ → Bool) (n : ℕ) (r : Option ℕ)
    → IsFirst test 0 n r
    → IsPosition test n (elim r [ none ↦ n | some i ↦ i ])
IsPosition-IsFirst test n none h = (omega arith, λ j lt. h j (omega arith) lt, inl refl)
IsPosition-IsFirst test n (some i) h =
    (omega (arith, h.1), λ j lt. h.3 j (omega arith) lt, inr (h.1, h.2))

pub position-IsPosition : (test : ℕ → Bool) (n : ℕ) → IsPosition test n (position test n)
unfolding position
position-IsPosition test n =
    IsPosition-IsFirst test n _ (first_from-IsFirst test n 0 n (omega arith))
