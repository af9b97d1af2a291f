-- ===== src/RecordPage/Layout.antt =====
-- src/observer/storage/common/record_manager.cpp: where a page keeps its header, its bitmap and its
-- records.
use oceanbase.Base.{ℕ, ◌+◌, ◌-◌, ◌*◌, ◌/◌, ◌%◌, ◌≤◌, ◌<◌, ◌≡◌, ◌==◌, if◌then◌else◌, arith}

-- BP_PAGE_DATA_SIZE: 4096 bytes less the page number.
abbrev pub page_data_size : ℕ
page_data_size = 4092

unfoldable pub align8 : ℕ → ℕ
align8 size = size / 8 * 8 + (if size % 8 == 0 then 0 else 8)

-- Five fields of 4 bytes.
abbrev pub page_fix_size : ℕ
page_fix_size = 20

-- `(page_size - fix - 1) / (record_size + 0.125)`, cut off to an int, with numerator and denominator
-- multiplied by 8.
unfoldable pub page_record_capacity : ℕ → ℕ → ℕ
page_record_capacity page_size record_size =
    (page_size - page_fix_size - 1) * 8 / (record_size * 8 + 1)

unfoldable pub page_bitmap_size : ℕ → ℕ
page_bitmap_size record_capacity = record_capacity / 8 + (if record_capacity % 8 == 0 then 0 else 1)

unfoldable pub page_header_size : ℕ → ℕ
unfolding page_bitmap_size
page_header_size record_capacity = align8 (page_fix_size + page_bitmap_size record_capacity)

pub align8_bounds :
    (size : ℕ) → (size ≤ align8 size) × (align8 size < size + 8) × (align8 size % 8 ≡ 0)
unfolding align8
align8_bounds size = ground arith

pub page_bitmap_size_bounds :
    (n : ℕ) → (n ≤ page_bitmap_size n * 8) × (page_bitmap_size n ≤ n / 8 + 1)
unfolding page_bitmap_size
page_bitmap_size_bounds n = ground arith

capacity-bits :
    (record_size : ℕ)
    → page_record_capacity page_data_size record_size * (record_size * 8 + 1) ≤ 32568
unfolding page_record_capacity
capacity-bits record_size = omega arith

pub header_bounds :
    (n : ℕ)
    → (page_fix_size + page_bitmap_size n ≤ page_header_size n)
      × (page_header_size n ≤ 28 + n / 8)
      × (page_header_size n % 8 ≡ 0)
unfolding page_header_size
header_bounds n =
    omega (arith, align8_bounds (page_fix_size + page_bitmap_size n), page_bitmap_size_bounds n)

page_end-le : (n q : ℕ) → n * (q * 8 * 8 + 1) ≤ 32568 → page_header_size n + n * (q * 8) ≤ 4096
page_end-le n q h = omega (arith, header_bounds n)

-- first_record_offset, record_size and record_capacity of a page for records of `size` bytes.
abbrev pub capacity_for : ℕ → ℕ
capacity_for size = page_record_capacity page_data_size (align8 size)

abbrev pub slot_offset : ℕ → ℕ → ℕ
slot_offset size slot = page_header_size (capacity_for size) + slot * align8 size

mul_mono : (a b c : ℕ) → a ≤ b → a * c ≤ b * c
mul_mono a b c h = grind arith

slot_end-le :
    (n rs slot : ℕ)
    → rs % 8 ≡ 0
    → n * (rs * 8 + 1) ≤ 32568
    → slot < n
    → page_header_size n + (slot + 1) * rs ≤ 4096
slot_end-le n rs slot z h lt =
    let e : rs ≡ rs / 8 * 8 = omega arith in
    let whole : page_header_size n + n * rs ≤ 4096 = rw e (page_end-le n (rs / 8) (rw e at h)) in
    omega (arith, mul_mono (slot + 1) n rs (omega arith))

-- For records of any size of at least one byte: the bitmap ends before the first record, a record
-- fits its slot, slots do not overlap, every slot but the last lies inside the page's data, and
-- the last one ends at most 4 bytes behind it.
pub slots_fit :
    (size slot : ℕ)
    → 0 < size
    → slot < capacity_for size
    → (page_fix_size + page_bitmap_size (capacity_for size) ≤ slot_offset size slot)
      × (slot_offset size slot + size ≤ slot_offset size (slot + 1))
      × (slot_offset size (slot + 1) ≤ page_data_size + 4)
      × (slot + 1 < capacity_for size → slot_offset size (slot + 1) ≤ page_data_size)
slots_fit size slot pos lt = (
  omega (arith, header_bounds (capacity_for size)),
  omega (arith, align8_bounds size),
  slot_end-le (capacity_for size) (align8 size) slot (align8_bounds size).2
      (capacity-bits (align8 size)) lt,
  λ more. omega (
    arith,
    align8_bounds size,
    slot_end-le (capacity_for size) (align8 size) (slot + 1) (align8_bounds size).2
        (capacity-bits (align8 size)) more,
  ),
)

-- The last record of a page for records of 5 to 8 bytes runs past the end of the page's data.
pub last_slot_overruns :
    (size : ℕ)
    → 4 < size
    → size ≤ 8
    → page_data_size < slot_offset size (capacity_for size - 1) + size
unfolding page_header_size align8 page_record_capacity
last_slot_overruns size lo hi = let e : align8 size ≡ 8 = ground arith in rw e (omega arith)
