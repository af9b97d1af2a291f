-- ===== src/Bitmap/Search.antt =====
-- The searches of deps/common/lang/bitmap.cpp find the first bit.
use oceanbase.Base.{
  ℕ, zero, suc, ◌+◌, ◌*◌, ◌/◌, ◌%◌, ◌≤◌, ◌<◌, ◌≡◌, ◌⊎◌, inl, inr, refl, Bool, true, false, Option,
  none, some, leb, arith, Bool-cases,
}
use oceanbase.Base.Memory.{Memory, IsBytes}
use oceanbase.Base.First.{IsFirst}
use oceanbase.Bitmap.{first_in_bytes, below_size}

-- A stretch with no hit in front of a search.
IsFirst-append :
    (p : ℕ → Bool) (a b c : ℕ) (r : Option ℕ)
    → a ≤ b
    → IsFirst p a b none
    → IsFirst p b c r
    → IsFirst p a c r
IsFirst-append p a b c none l h k = λ j le lt. elim (Bool-cases (leb b j)) [
  | inl after ↦ k j (ground arith) lt
  | inr before ↦ h j le (ground arith)
]
IsFirst-append p a b c (some i) l h k = (
  omega arith,
  k.1,
  k.2,
  λ j le lt. elim (Bool-cases (leb b j)) [
    | inl after ↦ k.3 j (ground arith) lt
    | inr before ↦ h j le (ground arith)
  ],
)

IsFirst-grow :
    (p : ℕ → Bool) (a b c i : ℕ) → b ≤ c → IsFirst p a b (some i) → IsFirst p a c (some i)
IsFirst-grow p a b c i l h = (h.0, omega (arith, h.1), h.2, h.3)

pub IsFirst-at :
    (p : ℕ → Bool) (a b a' b' : ℕ) (r : Option ℕ)
    → a ≡ a'
    → b ≡ b'
    → IsFirst p a b r
    → IsFirst p a' b' r
IsFirst-at p a b a' b' none e f h = λ j le lt. h j (omega arith) (omega arith)
IsFirst-at p a b a' b' (some i) e f h =
    (omega (arith, h.0), omega (arith, h.1), h.2, λ j le lt. h.3 j (omega arith) lt)

module _ (skip : ℕ → Bool) (hit : ℕ → ℕ → Bool) (bitmap : Memory) where
  -- The bit `j` of the bitmap is of the kind that is looked for.
  abbrev hit_at : ℕ → Bool
  hit_at j = hit (bitmap (j / 8)) (j % 8)

  -- The search of one byte, moved to the place of the byte.
  shift-IsFirst :
      (iter start : ℕ) (r : Option ℕ)
      → start < 8
      → IsFirst (hit (bitmap iter)) start 8 r
      → IsFirst hit_at
          (iter * 8 + start)
          (iter * 8 + 8)
          (elim r [ some k ↦ some (iter * 8 + k) | none ↦ none ])
  shift-IsFirst iter start none s h =
      λ j le lt. let d : j / 8 ≡ iter = omega arith in rw d (h (j % 8) (omega arith) (omega arith))
  shift-IsFirst iter start (some k) s h =
      let d : (iter * 8 + k) / 8 ≡ iter = omega (arith, h.1) in
      let m : (iter * 8 + k) % 8 ≡ k = omega (arith, h.1) in
      (
        omega (arith, h.0),
        omega (arith, h.1),
        rw (d, m) h.2,
        λ j le lt.
            let e : j / 8 ≡ iter = omega (arith, h.1) in
            rw e (h.3 (j % 8) (omega arith) (omega (arith, h.1))),
      )

  module _ (find : ℕ → ℕ → Option ℕ)
      (find-IsFirst : (byte start : ℕ) → start < 8 → IsFirst (hit byte) start 8 (find byte start))
      (skip-none : (byte i : ℕ) → byte < 256 → i < 8 → skip byte ≡ true → hit byte i ≡ false)
      (bytes : IsBytes bitmap) where
    -- Past the byte at `iter`, where the search found nothing.
    past_byte :
        (n iter start : ℕ) (r : Option ℕ)
        → start < 8
        → IsFirst hit_at (iter * 8 + start) (iter * 8 + 8) none
        → IsFirst hit_at ((iter + 1) * 8 + 0) ((iter + 1 + n) * 8) r
        → IsFirst hit_at (iter * 8 + start) ((iter + suc n) * 8) r
    past_byte n iter start r s h k =
        IsFirst-append hit_at (iter * 8 + start) (iter * 8 + 8) ((iter + suc n) * 8) r (omega arith)
          h
          (IsFirst-at hit_at ((iter + 1) * 8 + 0) ((iter + 1 + n) * 8) (iter * 8 + 8)
            ((iter + suc n) * 8) r (omega arith) (omega arith) k)

    skipped_byte :
        (iter : ℕ) → skip (bitmap iter) ≡ true → IsFirst hit_at (iter * 8 + 0) (iter * 8 + 8) none
    skipped_byte iter over = λ j le lt.
        let d : j / 8 ≡ iter = omega arith in
        rw d (skip-none (bitmap iter) (j % 8) (bytes iter) (omega arith) over)

    found_or_later :
        (n iter start : ℕ) (r later : Option ℕ)
        → start < 8
        → IsFirst (hit (bitmap iter)) start 8 r
        → IsFirst hit_at ((iter + 1) * 8 + 0) ((iter + 1 + n) * 8) later
        → IsFirst hit_at
            (iter * 8 + start)
            ((iter + suc n) * 8)
            (elim r [ some k ↦ some (iter * 8 + k) | none ↦ later ])
    found_or_later n iter start none later s h k =
        past_byte n iter start later s (shift-IsFirst iter start none s h) k
    found_or_later n iter start (some i) later s h k =
        IsFirst-grow hit_at (iter * 8 + start) (iter * 8 + 8) ((iter + suc n) * 8) (iter * 8 + i)
          (omega arith) (shift-IsFirst iter start (some i) s h)

    pub first_in_bytes-IsFirst :
        (n iter start : ℕ)
        → start < 8
        → (start ≡ 0) ⊎ (skip (bitmap iter) ≡ false)
        → IsFirst hit_at
            (iter * 8 + start)
            ((iter + n) * 8)
            (first_in_bytes skip find bitmap n iter start)
    unfolding first_in_bytes
    first_in_bytes-IsFirst zero iter start s c = λ j le lt. absurd (omega arith)
    first_in_bytes-IsFirst (suc n) iter start s c = elim (Bool-cases (skip (bitmap iter))) [
      | inl over ↦ rw over (elim c [
        | inl z ↦ rw z (
            past_byte n iter 0 (first_in_bytes skip find bitmap n (iter + 1) 0) (omega arith)
              (skipped_byte iter over)
              (first_in_bytes-IsFirst n (iter + 1) 0 (omega arith) (inl refl)))
        | inr looks ↦ cc
      ])
      | inr in_it ↦ rw in_it (
          found_or_later n iter start (find (bitmap iter) start)
            (first_in_bytes skip find bitmap n (iter + 1) 0) s (find-IsFirst (bitmap iter) start s)
            (first_in_bytes-IsFirst n (iter + 1) 0 (omega arith) (inl refl)))
    ]

pub below_size-IsFirst :
    (p : ℕ → Bool) (start end size : ℕ) (r : Option ℕ)
    → size ≤ end
    → IsFirst p start end r
    → IsFirst p start size (below_size size r)
unfolding below_size
below_size-IsFirst p start end size none l h = λ j le lt. h j le (omega arith)
below_size-IsFirst p start end size (some i) l h = elim (Bool-cases (leb size i)) [
  | inl out ↦ rw out (λ j le lt. h.3 j le (ground arith))
  | inr within ↦ rw within (h.0, ground arith, h.2, h.3)
]
