-- ===== src/RecordFile/Tests.antt =====
-- A scan of a file of three pages, the last of which is not in use.
use oceanbase.Base.{ℕ, ◌≡◌, refl, false, none, ◌==◌, ◌||◌, leb, if◌then◌else◌, arith}
use oceanbase.Bitmap.{get_bit, bit_is_set}
use oceanbase.Rc.{Rc, success, bufferpool_invalid_page_num}
use oceanbase.RecordPage.{Page}
use oceanbase.RecordPage.Count.{count}
use oceanbase.RecordPage.Layout.{page_bitmap_size}
use oceanbase.RecordPage.Invariant.{IsValid}
use oceanbase.Pages.{err, get_this_page}
use oceanbase.RecordFile.{Records, init, start_page, insert_record}

-- A page with room for one record of 3000 bytes, and with that record.
abbrev one_record : Page
one_record = record {
  page_num = 1;
  header = record {
    record_num = 1;
    record_capacity = 1;
    record_real_size = 3000;
    record_size = 3000;
    first_record_offset = 24;
  };
  area = λ a. if a == 0 then 1 else 0;
}

one_record-IsValid : IsValid one_record
unfolding page_bitmap_size count get_bit bit_is_set
one_record-IsValid = record {
  laid_out = record { bitmap_below = omega arith; fits = omega arith };
  counted = refl;
  bytes = λ a. ground arith;
}

abbrev small_file : Records
small_file = record {
  page_count = 3;
  in_use = λ n. leb n 1;
  content = λ _. one_record;
  pins = λ _. 0;
  handler = record { page = none; is_attached = false };
}

abbrev no_failure : Records → ℕ → Rc
no_failure f n = success

-- Without a first page, a handle that stands on no page cannot insert.
abbrev first_page_gone : Records
first_page_gone = record small_file { in_use = λ n. n == 0 || n == 2 }

insert_without_first_page :
    (insert_record no_failure one_record (λ _. 0) 3000 first_page_gone).0
    ≡ err bufferpool_invalid_page_num
unfolding insert_record start_page init get_this_page
insert_without_first_page = refl
