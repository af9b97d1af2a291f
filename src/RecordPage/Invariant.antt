-- ===== src/RecordPage/Invariant.antt =====
-- The representation invariant of a record page, and how its bitmap and its records lie apart.
use oceanbase.Base.{
  ℕ, ◌+◌, ◌*◌, ◌/◌, ◌%◌, ◌≤◌, ◌<◌, ◌≡◌, ◌≢◌, ◌⊎◌, inl, inr, sym, ap, ◌∙◌, false, ◌&&◌, Option, none,
  some, List, ltb, if◌then◌else◌, arith, Bool-cases,
}
use oceanbase.Base.Memory.{
  Memory, IsBytes, memcpy, memset, load, load-ext, memcpy_inside, memcpy_front, memcpy_outside,
  memcpy-IsBytes,
}
use oceanbase.Bitmap.{get_bit, set_bit, clear_bit}
use oceanbase.Bitmap.Bits.{bit_of_zero}
use oceanbase.RecordPage.{PageHeader, Page, record_data, empty_header, init_empty_page}
use oceanbase.RecordPage.Layout.{
  align8, align8_bounds, page_fix_size, page_data_size, page_record_capacity, page_bitmap_size,
  page_bitmap_size_bounds, header_bounds,
}
use oceanbase.RecordPage.Count.{count, count_none}

-- The bitmap ends before the first record, and a record fits its slot.
pub record IsLaidOut (h : PageHeader) : Type 0 where
  pub bitmap_below : page_fix_size + page_bitmap_size h.record_capacity ≤ h.first_record_offset
  pub fits : h.record_real_size ≤ h.record_size

-- The count of the header is that of the bitmap.
pub record IsValid (p : Page) : Type 0 where
  pub laid_out : IsLaidOut p.header
  pub counted : p.record_num ≡ count (get_bit p.area) p.record_capacity
  pub bytes : IsBytes p.area

-- The bytes of the record in a slot, if the slot is in use.
unfoldable pub record_at : Page → ℕ → Option (List ℕ)
record_at p slot =
    if ltb slot p.record_capacity && get_bit p.area slot
    then some (load p.area (record_data p.header slot) p.record_real_size)
    else none

-- Writes behind the bitmap leave its bits alone.
pub get_bit-memcpy :
    (m : Memory) (a : ℕ) (src : Memory) (n size j : ℕ)
    → page_bitmap_size size ≤ a
    → j < size
    → get_bit (memcpy m a src n) j ≡ get_bit m j
unfolding get_bit
get_bit-memcpy m a src n size j h lt =
    rw (memcpy_outside m a src n (j / 8) (inl (omega (arith, page_bitmap_size_bounds size))))

-- Writes to the bitmap leave the records alone.
pub load-set_bit :
    (m : Memory) (a n size i : ℕ)
    → page_bitmap_size size ≤ a
    → i < size
    → load (set_bit m i) a n ≡ load m a n
unfolding set_bit
load-set_bit m a n size i h lt =
    load-ext _ m a a n λ k _. ground (arith, page_bitmap_size_bounds size)

pub load-clear_bit :
    (m : Memory) (a n size i : ℕ)
    → page_bitmap_size size ≤ a
    → i < size
    → load (clear_bit m i) a n ≡ load m a n
unfolding clear_bit
load-clear_bit m a n size i h lt =
    load-ext _ m a a n λ k _. ground (arith, page_bitmap_size_bounds size)

pub load-memcpy_self :
    (m : Memory) (a : ℕ) (src : Memory) (n : ℕ) → load (memcpy m a src n) a n ≡ load src 0 n
load-memcpy_self m a src n =
    load-ext _ src a 0 n λ k lt. memcpy_inside m a src n k lt ∙ ap src (omega arith)

pub load-memcpy_apart :
    (m : Memory) (a b : ℕ) (src : Memory) (n : ℕ)
    → (b + n ≤ a) ⊎ (a + n ≤ b)
    → load (memcpy m a src n) b n ≡ load m b n
load-memcpy_apart m a b src n h =
    load-ext _ m b b n λ k lt. memcpy_outside m a src n (b + k) (ground arith)

mul_mono : (a b c : ℕ) → a ≤ b → a * c ≤ b * c
mul_mono a b c h = grind arith

module _ {h : PageHeader} (l : IsLaidOut h) where
  pub bitmap-le-record_data : (slot : ℕ) → page_bitmap_size h.record_capacity ≤ record_data h slot
  bitmap-le-record_data slot = omega (arith, l.bitmap_below)

  -- Two slots do not overlap.
  pub record_data_apart :
      (i j : ℕ)
      → i ≢ j
      → (record_data h j + h.record_real_size ≤ record_data h i)
        ⊎ (record_data h i + h.record_real_size ≤ record_data h j)
  record_data_apart i j ne = elim (Bool-cases (ltb i j)) [
    | inl below ↦
        inr (omega (arith, l.bitmap_below, l.fits, mul_mono (i + 1) j h.record_size (ground arith)))
    | inr above ↦
        inl (omega (arith, l.bitmap_below, l.fits, mul_mono (j + 1) i h.record_size (ground arith)))
  ]

-- The header of a new page is laid out.
pub empty_header-IsLaidOut : (size : ℕ) → IsLaidOut (empty_header size)
unfolding empty_header
empty_header-IsLaidOut size = record {
  bitmap_below = omega (arith, header_bounds (page_record_capacity page_data_size (align8 size)));
  fits = omega (arith, align8_bounds size);
}

init_empty_page-clear :
    (page_num : ℕ) (area : Memory) (size j : ℕ)
    → j < (empty_header size).record_capacity
    → get_bit (init_empty_page page_num area size).area j ≡ false
unfolding init_empty_page get_bit memset
init_empty_page-clear page_num area size j lt =
    let n : ℕ = (empty_header size).record_capacity in
    rw
      (memcpy_front area (λ _. 0) (page_bitmap_size n) (j / 8)
        (omega (arith, page_bitmap_size_bounds n)))
      (bit_of_zero (j % 8) (omega arith))

clear-record_at :
    (p : Page) (slot : ℕ)
    → (slot < p.record_capacity → get_bit p.area slot ≡ false)
    → record_at p slot ≡ none
unfolding record_at
clear-record_at p slot h = elim (Bool-cases (ltb slot p.record_capacity)) [
  | inl inside ↦ rw (inside, h (ground arith))
  | inr outside ↦ rw outside
]

-- A new page is valid, and no slot of it is in use, whatever bytes the frame held before.
pub init_empty_page-IsValid :
    (page_num : ℕ) (area : Memory) (size : ℕ)
    → IsBytes area
    → IsValid (init_empty_page page_num area size)
      × ((slot : ℕ) → record_at (init_empty_page page_num area size) slot ≡ none)
init_empty_page-IsValid page_num area size b = (
  record {
    laid_out = unfold init_empty_page in empty_header-IsLaidOut size;
    counted =
        unfold init_empty_page empty_header in
        sym (count_none _ _ (init_empty_page-clear page_num area size));
    bytes = unfold init_empty_page memset in memcpy-IsBytes area 0 (λ _. 0) _ b (λ _. omega arith);
  },
  λ slot.
      clear-record_at (init_empty_page page_num area size) slot
        (unfold init_empty_page in init_empty_page-clear page_num area size slot),
)
