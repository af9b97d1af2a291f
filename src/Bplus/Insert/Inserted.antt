-- ===== src/Bplus/Insert/Inserted.antt =====
-- Arrays with one entry put in, as the loops of insertion leave them.
use oceanbase.Base.{ℕ, ◌-◌, ◌≡◌, ◌≤◌, ◌<◌, ◌⊎◌, ◌==◌, ltb, if◌then◌else◌, arith}
use oceanbase.Pages.{update}
use oceanbase.Bplus.{shift_up}
use oceanbase.Bplus.Arrays.{shift_up_at}

-- An array with one entry put in at `i`.
unfoldable pub inserted_at : {A : Type 0} → (ℕ → A) → ℕ → A → ℕ → A
inserted_at a i x j = if ltb j i then a j else if j == i then x else a (j - 1)

pub before_at : {A : Type 0} (a : ℕ → A) (i : ℕ) (x : A) (j : ℕ) → j < i → inserted_at a i x j ≡ a j
unfolding inserted_at
before_at a i x j h = ground arith

pub here_at : {A : Type 0} (a : ℕ → A) (i : ℕ) (x : A) → inserted_at a i x i ≡ x
unfolding inserted_at
here_at a i x = ground arith

pub behind_at :
    {A : Type 0} (a : ℕ → A) (i : ℕ) (x : A) (j : ℕ) → i < j → inserted_at a i x j ≡ a (j - 1)
unfolding inserted_at
behind_at a i x j h = ground arith

pub place_cases : (j i : ℕ) → (j < i) ⊎ ((j ≡ i) ⊎ (i < j))
place_cases j i = omega arith

pub shifted_at :
    {A : Type 0} (a : ℕ → A) (n i : ℕ) (x : A) (j : ℕ)
    → i ≤ n
    → j ≤ n
    → update (shift_up (n - i) n a) i x j ≡ inserted_at a i x j
unfolding inserted_at
shifted_at a n i x j h k = ground (arith, shift_up_at (n - i) n a j (omega arith))
