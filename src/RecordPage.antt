-- ===== src/RecordPage.antt =====
-- src/observer/storage/common/record_manager.cpp, RecordPageHandler: one page of records.
--
-- A `Page` is the page that a handler has open: the five fields of the page header, and the bytes
-- behind them. `bitmap_` points to `area`, so `area a` is `page.data[page_fix_size + a]`.
-- `mark_dirty` of the buffer pool cannot fail and is left out; what an operation hands back to the
-- pool is part of its result. Slots are numbers: the slot -1 from which a scan starts is told by
-- `after`, the slot number plus 1. Log output is left out.
pub mod Layout
pub mod Count
pub mod Invariant
pub mod Records
pub mod Update
pub mod Scan
mod Tests
use oceanbase.Base.{
  ℕ, ◌+◌, ◌-◌, ◌*◌, ◌≤◌, ◌<◌, ◌≡◌, Bool, true, false, not, ◌&&◌, Option, none, some, ◌==◌, leb, ltb,
  if◌then◌else◌,
}
use oceanbase.Base.Memory.{Memory, memcpy, memset}
use oceanbase.Rc.{
  Rc, success, invalid_argument, record_nomem, record_eof, record_invalidrid,
  record_record_not_exist,
}
use oceanbase.Bitmap.{get_bit, set_bit, clear_bit, next_unsetted_bit, next_setted_bit}
use Layout.{
  align8, page_fix_size, page_data_size, page_record_capacity, page_bitmap_size, page_header_size,
}

pub record PageHeader : Type 0 where
  pub record_num : ℕ
  pub record_capacity : ℕ
  pub record_real_size : ℕ
  pub record_size : ℕ
  pub first_record_offset : ℕ

pub record Rid : Type 0 where
  pub page_num : ℕ
  pub slot_num : ℕ

pub record Page : Type 0 where
  pub page_num : ℕ
  pub header : PageHeader
  pub open header use *
  pub area : Memory

-- The place in `area` of the record in a slot.
abbrev pub record_data : PageHeader → ℕ → ℕ
record_data h slot = h.first_record_offset + slot * h.record_size - page_fix_size

-- The header that `init_empty_page` writes.
pub empty_header : ℕ → PageHeader
empty_header size = record {
  record_num = 0;
  record_capacity = page_record_capacity page_data_size (align8 size);
  record_real_size = size;
  record_size = align8 size;
  first_record_offset = page_header_size (page_record_capacity page_data_size (align8 size));
}

-- `area` is what the frame held before.
pub init_empty_page : ℕ → Memory → ℕ → Page
init_empty_page page_num area record_size = record {
  page_num = page_num;
  header = empty_header record_size;
  area = memset area 0 0 (page_bitmap_size (empty_header record_size).record_capacity);
}

pub is_full : Page → Bool
is_full p = leb p.record_capacity p.record_num

-- The page with `data` written to `slot`, and the bit of the slot set.
pub placed : Page → ℕ → Memory → Page
placed p slot bytes = record p {
  header = record p.header { record_num = p.record_num + 1 };
  area = memcpy (set_bit p.area slot) (record_data p.header slot) bytes p.record_real_size;
}

-- Does a record in the slot end before the end of the page's data?
abbrev pub inside_page : PageHeader → ℕ → Bool
inside_page h slot =
    leb (h.first_record_offset + slot * h.record_size + h.record_real_size) page_data_size

-- `none` is undefined behaviour: `set_bit(-1)`, where the bitmap has no clear bit, and a write behind
-- the page.
pub insert_record : Page → Memory → Option (Rc × Option Rid × Page)
insert_record p bytes =
    if p.record_num == p.record_capacity
    then some (record_nomem, none, p)
    else elim (next_unsetted_bit p.area p.record_capacity 0) [
      | none ↦ none
      | some index ↦
          if inside_page p.header index
          then some (
            success,
            some (record { page_num = p.page_num; slot_num = index }),
            placed p index bytes,
          )
          else none
    ]

-- `none` is undefined behaviour: a write behind the page.
pub update_record : Page → ℕ → Memory → Option (Rc × Page)
update_record p slot bytes =
    if leb p.record_capacity slot
    then some (invalid_argument, p)
    else if not (get_bit p.area slot)
    then some (record_record_not_exist, p)
    else if inside_page p.header slot
    then some (
      success,
      record p { area = memcpy p.area (record_data p.header slot) bytes p.record_real_size },
    )
    else none

-- The last part tells that the page is handed back: `deinit` and `dispose_page`.
pub delete_record : Page → ℕ → Rc × Page × Bool
delete_record p slot =
    if leb p.record_capacity slot
    then (invalid_argument, p, false)
    else if get_bit p.area slot
    then (
      success,
      record p {
        header = record p.header { record_num = p.record_num - 1 };
        area = clear_bit p.area slot;
      },
      p.record_num - 1 == 0,
    )
    else (record_record_not_exist, p, false)

-- The address of the record in `area`.
pub get_record : Page → ℕ → Rc × Option ℕ
get_record p slot =
    if leb p.record_capacity slot
    then (record_invalidrid, none)
    else if not (get_bit p.area slot)
    then (record_record_not_exist, none)
    else (success, some (record_data p.header slot))

pub get_next_record : Page → ℕ → Rc × Option Rid
get_next_record p after =
    if leb p.record_capacity after
    then (record_eof, none)
    else elim (next_setted_bit p.area p.record_capacity after) [
      | none ↦ (record_eof, none)
      | some index ↦ (success, some (record { page_num = p.page_num; slot_num = index }))
    ]

pub get_first_record : Page → Rc × Option Rid
unfolding get_next_record
get_first_record p = get_next_record p 0
