-- ===== src/Pages/Laws.antt =====
-- Requests for pages that the pool can answer.
use mathlib.Core.Path.{fun_ext}
use oceanbase.Base.{
  ℕ, ◌+◌, ◌≡◌, refl, ap, true, false, not, ◌⊎◌, Bool-cases, arith, inl, inr, Option-cases, ==_refl,
}
use oceanbase.Base.First.{first_from}
use oceanbase.Rc.{Rc, success, is_success}
use oceanbase.Pages.{
  File, M, Result, ok, err, ◌>>◌, update, write_page, unpin_page, get_this_page, allocate_page,
}

-- The pool has room for every page, and can read it.
abbrev pub IsReady : {C E : Type 0} → (File C E → ℕ → Rc) → Type 0
IsReady {C} {E} answer = (f : File C E) (n : ℕ) → answer f n ≡ success

abbrev pub pinned : {C E : Type 0} → File C E → ℕ → File C E
pinned f n = record f { pins = update f.pins n (f.pins n + 1) }

pub get_this_page-pinned :
    {C E : Type 0} (answer : File C E → ℕ → Rc) (f : File C E) (n : ℕ)
    → is_success (answer f n) ≡ true
    → f.in_use n ≡ true
    → get_this_page answer n f ≡ (ok tt, pinned f n)
unfolding get_this_page
get_this_page-pinned answer f n served used = rw (used, served) refl

-- The pool refuses a page, and the operation ends with its code and leaves the file as it was.
abbrev pub Refused :
    {C E A : Type 0} → (File C E → ℕ → Rc) → File C E → Result A × File C E → Type 0
Refused answer f x = (n : ℕ) × (is_success (answer f n) ≡ false) × (x ≡ (err (answer f n), f))

-- A page that is in use is pinned, unless the pool refuses it.
pub get_this_page-cases :
    {C E : Type 0} (answer : File C E → ℕ → Rc) (f : File C E) (n : ℕ)
    → f.in_use n ≡ true
    → ((is_success (answer f n) ≡ true) × (get_this_page answer n f ≡ (ok tt, pinned f n)))
      ⊎ ((is_success (answer f n) ≡ false) × (get_this_page answer n f ≡ (err (answer f n), f)))
unfolding get_this_page
get_this_page-cases answer f n used = elim (Bool-cases (is_success (answer f n))) [
  | inl served ↦ inl (served, rw (used, served) refl)
  | inr refused ↦ inr (refused, rw (used, refused) refl)
]

-- What starts with a page that is in use goes on with the page pinned, unless the pool refuses it.
pub get_this_page-then :
    {C E A : Type 0} (answer : File C E → ℕ → Rc) (f : File C E) (n : ℕ) (k : M C E A)
    → f.in_use n ≡ true
    → ((is_success (answer f n) ≡ true) × ((get_this_page answer n >> k) f ≡ k (pinned f n)))
      ⊎ ((is_success (answer f n) ≡ false)
          × ((get_this_page answer n >> k) f ≡ (err (answer f n), f)))
unfolding get_this_page
get_this_page-then answer f n k used = elim (Bool-cases (is_success (answer f n))) [
  | inl served ↦ inl (served, rw (used, served) refl)
  | inr refused ↦ inr (refused, rw (used, refused) refl)
]

-- A page that is pinned and unpinned again has the pins it had.
pub unpin_page-pinned : {C E : Type 0} (f : File C E) (n : ℕ) → (unpin_page n (pinned f n)).1 ≡ f
unpin_page-pinned f n = ap (λ p. record f { pins = p }) (fun_ext λ j. ground arith)

-- A page with another content.
abbrev pub written : {C E : Type 0} → File C E → ℕ → C → File C E
written f n x = record f { content = update f.content n x }

-- A page that is pinned, written and unpinned is written.
pub write_page-unpin_page :
    {C E : Type 0} (f : File C E) (n : ℕ) (x : C)
    → (write_page n x >> unpin_page n) (pinned f n) ≡ (ok tt, written f n x)
write_page-unpin_page f n x =
    ap (λ g. (ok tt, record g { content = update f.content n x })) (unpin_page-pinned f n)

-- A page can be had.
pub allocate_page-ready :
    {C E : Type 0} (answer : File C E → ℕ → Rc) (blank : C) (f : File C E)
    → IsReady answer
    → (n : ℕ) × (f' : File C E) × (allocate_page answer blank f ≡ (ok n, f')) × (f'.in_use n ≡ true)
unfolding allocate_page
allocate_page-ready answer blank f ready =
    elim (Option-cases (first_from (λ i. not (f.in_use i)) f.page_count 0)) [
      | inl full ↦
          let n = f.page_count in
          let g = record f {
            page_count = n + 1;
            in_use = update f.in_use n true;
            content = update f.content n blank;
            pins = update f.pins n 1;
          } in
          (n, g, rw (full, ready f n, allocate_page) refl, rw (==_refl n) refl)
      | inr (i, e) ↦
          let g = record f { in_use = update f.in_use i true } in
          let used : g.in_use i ≡ true = rw (==_refl i) refl in
          (
            i,
            pinned g i,
            rw (e, get_this_page-pinned answer g i (ap is_success (ready g i)) used, allocate_page)
                refl,
            used,
          )
    ]
