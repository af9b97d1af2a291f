-- ===== src/Dates/Calendar.antt =====
-- src/observer/storage/common/table.cpp: check_dates against the calendar.
use oceanbase.Base.{
  ℕ, ◌-◌, ◌/◌, ◌%◌, ◌≤◌, ◌≡◌, ◌↔◌, List, [], ◌∷◌, some, get_elem?, arith, if◌then◌else◌, ◌==◌, ◌||◌,
  Bool-cases, inl, inr, subst, sym, ◌∙◌,
}
use oceanbase.Base.Int.{pos}
use oceanbase.Rc.{success}
use oceanbase.Dates.{check_dates, is_leap}

-- The days of February: a year that 4 divides has 29, but not one that 100 divides and 400 does not.
abbrev pub february : ℕ → ℕ
february yy =
    if yy % 400 == 0 then 29 else if yy % 100 == 0 then 28 else if yy % 4 == 0 then 29 else 28

-- The lengths of the months of a year.
abbrev pub months : ℕ → List ℕ
months yy = 31 ∷ february yy ∷ 31 ∷ 30 ∷ 31 ∷ 30 ∷ 31 ∷ 31 ∷ 30 ∷ 31 ∷ 30 ∷ 31 ∷ []

-- The month has this day.
abbrev pub IsDay : ℕ → ℕ → ℕ → Type 0
IsDay yy mm dd = (n : ℕ) × (get_elem? (months yy) (mm - 1) ≡ some n) × (1 ≤ dd) × (dd ≤ n)

-- The last day that check_dates allows.
abbrev limit : ℕ → ℕ → ℕ
limit yy mm =
    if mm == 1 || mm == 3 || mm == 5 || mm == 7 || mm == 8 || mm == 10 || mm == 12
    then 31
    else if mm == 4 || mm == 6 || mm == 9 || mm == 11
    then 30
    else if is_leap yy
    then 29
    else 28

check_dates-limit :
    (n : ℕ)
    → (check_dates (pos n) ≡ success)
      ↔ ((1 ≤ n % 100) × (n % 100 ≤ limit (n / 10000) (n % 10000 / 100)))
unfolding check_dates
check_dates-limit n = elim (Bool-cases (is_leap (n / 10000))) [
  | inl leap ↦ rw leap (ground arith)
  | inr other ↦ rw other (ground arith)
]

some-injective : {a b : ℕ} → some a ≡ some b → a ≡ b
some-injective e = cc

limit-months : (yy mm : ℕ) → 1 ≤ mm → mm ≤ 12 → get_elem? (months yy) (mm - 1) ≡ some (limit yy mm)
limit-months yy mm lo hi = ground arith

-- A date yyyymmdd with a month from 1 to 12 passes check_dates exactly if its month has its day.
pub check_dates-IsDay :
    (n : ℕ)
    → 1 ≤ n % 10000 / 100
    → n % 10000 / 100 ≤ 12
    → (check_dates (pos n) ≡ success) ↔ IsDay (n / 10000) (n % 10000 / 100) (n % 100)
check_dates-IsDay n lo hi =
    let days = limit-months (n / 10000) (n % 10000 / 100) lo hi in
    let bound = check_dates-limit n in
    (
      λ ok. (limit (n / 10000) (n % 10000 / 100), days, (bound.0 ok).0, (bound.0 ok).1),
      λ (m, e, one, le). bound.1 (one, subst (λ k. n % 100 ≤ k) (some-injective (sym e ∙ days)) le),
    )
