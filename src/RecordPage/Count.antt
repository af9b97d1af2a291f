-- ===== src/RecordPage/Count.antt =====
-- Counting the set bits below a bound.
use oceanbase.Base.{
  ℕ, zero, suc, ◌+◌, ◌≤◌, ◌<◌, ◌≡◌, refl, Bool, true, false, not, ◌&&◌, ◌||◌, ◌==◌, if◌then◌else◌,
  ltb, arith, Bool-cases, inl, inr,
}

-- How many numbers below `n` satisfy `p`.
unfoldable pub count : (ℕ → Bool) → ℕ → ℕ
count p zero = 0
count p (suc n) = if p n then count p n + 1 else count p n

pub count-le : (p : ℕ → Bool) (n : ℕ) → count p n ≤ n
unfolding count
count-le p zero = omega arith
count-le p (suc n) = ground (arith, count-le p n)

pub count_all : (p : ℕ → Bool) (n : ℕ) → ((j : ℕ) → j < n → p j ≡ true) → count p n ≡ n
unfolding count
count_all p zero h = refl
count_all p (suc n) h = ground (arith, h n, count_all p n (λ j lt. h j (omega arith)))

pub count_none : (p : ℕ → Bool) (n : ℕ) → ((j : ℕ) → j < n → p j ≡ false) → count p n ≡ 0
unfolding count
count_none p zero h = refl
count_none p (suc n) h = ground (arith, h n, count_none p n (λ j lt. h j (omega arith)))

pub count_pos : (p : ℕ → Bool) (n i : ℕ) → i < n → p i ≡ true → 0 < count p n
unfolding count
count_pos p zero i lt e = absurd (omega arith)
count_pos p (suc n) i lt e = ground (arith, count_pos p n i)

pub count-ext : (p q : ℕ → Bool) (n : ℕ) → ((j : ℕ) → j < n → p j ≡ q j) → count p n ≡ count q n
unfolding count
count-ext p q zero h = refl
count-ext p q (suc n) h = ground (arith, h n, count-ext p q n (λ j lt. h j (omega arith)))

-- One more number satisfies `q`.
pub count_more :
    (p q : ℕ → Bool) (i n : ℕ)
    → p i ≡ false
    → ((j : ℕ) → j < n → q j ≡ (i == j || p j))
    → count q n ≡ (if ltb i n then count p n + 1 else count p n)
unfolding count
count_more p q i zero e h = ground arith
count_more p q i (suc n) e h = ground (arith, h n, count_more p q i n e (λ j lt. h j (omega arith)))

-- One less satisfies `q`.
pub count_less :
    (p q : ℕ → Bool) (i n : ℕ)
    → p i ≡ true
    → ((j : ℕ) → j < n → q j ≡ (not (i == j) && p j))
    → count p n ≡ (if ltb i n then count q n + 1 else count q n)
unfolding count
count_less p q i zero e h = ground arith
count_less p q i (suc n) e h = ground (arith, h n, count_less p q i n e (λ j lt. h j (omega arith)))

pub count_full : (p : ℕ → Bool) (n j : ℕ) → count p n ≡ n → j < n → p j ≡ true
unfolding count
count_full p zero j e lt = absurd (omega arith)
count_full p (suc n) j e lt = elim (Bool-cases (j == n)) [
  | inl last ↦ ground (arith, count-le p n)
  | inr earlier ↦ ground (arith, count-le p n, count_full p n j)
]

pub count_zero : (p : ℕ → Bool) (n j : ℕ) → count p n ≡ 0 → j < n → p j ≡ false
unfolding count
count_zero p zero j e lt = absurd (omega arith)
count_zero p (suc n) j e lt = elim (Bool-cases (j == n)) [
  | inl last ↦ ground arith
  | inr earlier ↦ ground (arith, count_zero p n j)
]
