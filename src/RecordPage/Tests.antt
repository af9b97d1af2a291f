-- ===== src/RecordPage/Tests.antt =====
-- Tests of record pages, and the theorems about them at a concrete page.
use oceanbase.Base.{
  ℕ, ◌<◌, ◌≡◌, ◌≢◌, inl, refl, true, none, some, [], ◌∷◌, ◌==◌, if◌then◌else◌, arith,
}
use oceanbase.Base.Memory.{Memory, load}
use oceanbase.Rc.{success}
use oceanbase.Bitmap.{get_bit, bit_is_set}
use oceanbase.RecordPage.Count.{count}
use oceanbase.RecordPage.{
  Page, empty_header, init_empty_page, inside_page, insert_record, update_record, delete_record,
}
use oceanbase.RecordPage.Layout.{
  align8, page_record_capacity, page_bitmap_size, page_header_size, capacity_for, slot_offset,
}
use oceanbase.RecordPage.Invariant.{IsValid, record_at, init_empty_page-IsValid}
use oceanbase.RecordPage.Records.{insert_record-record_at}
use oceanbase.RecordPage.Update.{in_use, update_record-record_at, delete_record-record_at}
use oceanbase.RecordPage.Scan.{scan_page, used_slots, scan_page-used_slots}

abbrev zeros : Memory
zeros a = 0

-- A new page, number 3, for records of 12 bytes.
abbrev new_page : Page
new_page = init_empty_page 3 zeros 12

new_page-IsValid : IsValid new_page
new_page-IsValid = (init_empty_page-IsValid 3 zeros 12 (λ a. omega arith)).0

layout_of_twelve : (capacity_for 12 ≡ 252) × (slot_offset 12 0 ≡ 56) × (slot_offset 12 252 ≡ 4088)
unfolding align8 page_record_capacity page_bitmap_size page_header_size
layout_of_twelve = (refl, refl, refl)

layout_of_eight : (capacity_for 8 ≡ 501) × (slot_offset 8 501 ≡ 4096)
unfolding align8 page_record_capacity page_bitmap_size page_header_size
layout_of_eight = (refl, refl)

new_page_room : new_page.record_num ≢ new_page.record_capacity
unfolding init_empty_page empty_header page_record_capacity align8
new_page_room = omega arith

insert_record-record_at_example :
    (slot : ℕ) × (q : Page) × (insert_record new_page zeros ≡ (
      if inside_page new_page.header slot
      then some (success, some (record { page_num = new_page.page_num; slot_num = slot }), q)
      else none))
    × IsValid q
    × (record_at new_page slot ≡ none)
    × ((j : ℕ) → j < slot → record_at new_page j ≢ none)
    × ((j : ℕ)
        → record_at q j ≡ (
            if slot == j
            then some (load zeros 0 new_page.record_real_size)
            else record_at new_page j))
insert_record-record_at_example =
    insert_record-record_at new_page zeros new_page-IsValid (λ a. omega arith) new_page_room

-- A page with room for one record of 3000 bytes, and with that record.
abbrev one_record : Page
one_record = record {
  page_num = 1;
  header = record {
    record_num = 1;
    record_capacity = 1;
    record_real_size = 3000;
    record_size = 3000;
    first_record_offset = 24;
  };
  area = λ a. if a == 0 then 1 else 0;
}

one_record-IsValid : IsValid one_record
unfolding page_bitmap_size count get_bit bit_is_set
one_record-IsValid = record {
  laid_out = record { bitmap_below = omega arith; fits = omega arith };
  counted = refl;
  bytes = λ a. ground arith;
}

update_record-record_at_example :
    (q : Page) × (update_record one_record 0 zeros ≡ some (success, q))
    × IsValid q
    × (in_use one_record 0 ≡ true
        → (j : ℕ)
        → record_at q j ≡ (if 0 == j then some (load zeros 0 3000) else record_at one_record j))
unfolding get_bit bit_is_set
update_record-record_at_example =
    update_record-record_at one_record 0 zeros one_record-IsValid (λ a. omega arith)

delete_record-record_at_example : (delete_record one_record 0).0 ≡ success
unfolding get_bit bit_is_set
delete_record-record_at_example = (delete_record-record_at one_record 0 one_record-IsValid).0

-- The page is handed back with its last record.
delete_record_last : (delete_record one_record 0).2 ≡ true
unfolding delete_record get_bit bit_is_set
delete_record_last = refl

scan_page-used_slots_example : scan_page 2 one_record 0 ≡ 0 ∷ []
unfolding used_slots get_bit bit_is_set
scan_page-used_slots_example =
    scan_page-used_slots one_record 2 0 one_record-IsValid (inl refl) (omega arith) (omega arith)
