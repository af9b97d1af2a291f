-- ===== src/BufferPool/Tests.antt =====
-- A small operating system, a pool on it, and the theorems about the pool applied to them.
use oceanbase.Base.{
  not, ℕ, ◌+◌, ◌/◌, ◌≡◌, refl, Bool, true, false, Option, none, some, ◌==◌, if◌then◌else◌, ◌&&◌,
  arith, ==_refl,
}
use oceanbase.BufferPool.{
  allocate_block, dispose_page, drop_frames, check_page_num, touch_file, bp_page_size, Pool,
  FileHandle, update, open_file_at, flush_all_pages, force_all_pages, force_frame,
}
use oceanbase.Bitmap.{get_bit, bit_is_set}
use oceanbase.BufferPool.Files.{Os, DiskPage}
use oceanbase.BufferPool.Blocks.{Granted, Denied, allocate_block-Denied}
use oceanbase.BufferPool.Release.{flush_all_pages-released, belongs}
use oceanbase.BufferPool.Dispose.{dispose_page-dropped, holds}

-- The positions of the open files, and their pages by offset.
record ToyDisk : Type 0 where
  position : ℕ → ℕ
  pages : ℕ → ℕ → DiskPage

abbrev toy_lseek : ToyDisk → ℕ → ℕ → Bool × ToyDisk
toy_lseek d fd offset = (true, record d { position = update d.position fd offset })

abbrev toy_read : ToyDisk → ℕ → Option DiskPage × ToyDisk
toy_read d fd = (
  some (d.pages fd (d.position fd)),
  record d { position = update d.position fd (d.position fd + bp_page_size) },
)

abbrev toy_write : ToyDisk → ℕ → DiskPage → Bool × ToyDisk
toy_write d fd page = (
  true,
  record d {
    position = update d.position fd (d.position fd + bp_page_size);
    pages = update d.pages fd (update (d.pages fd) (d.position fd) page);
  },
)

-- The position after a seek.
sought_at : (d : ToyDisk) (fd offset : ℕ) → update d.position fd offset fd ≡ offset
sought_at d fd offset = rw (==_refl fd) refl

toy_read_back :
    (d : ToyDisk) (fd offset : ℕ) (page : DiskPage)
    → (toy_read (toy_lseek d fd offset).1 fd).0 ≡ some page
    → page ≡ d.pages fd offset
toy_read_back d fd offset page got = let at = sought_at d fd offset in cc

toy_write_back :
    (d : ToyDisk) (fd offset : ℕ) (page : DiskPage) (fd' o : ℕ)
    → (toy_write (toy_lseek d fd offset).1 fd page).1.pages fd' o
      ≡ (if fd == fd' && offset == o then page else d.pages fd' o)
toy_write_back d fd offset page fd' o = rw (sought_at d fd offset) (ground arith)

abbrev toy_os : Os
toy_os = record {
  Disk = ToyDisk;
  lseek = toy_lseek;
  read = toy_read;
  write = toy_write;
  content = λ d. d.pages;
  content-lseek = λ d fd offset fd' o. refl;
  content-read = λ d fd fd' o. refl;
  read_back = λ d fd offset page sought got. toy_read_back d fd offset page got;
  write_back = λ d fd offset page fd' o sought written. toy_write_back d fd offset page fd' o;
}

-- A file of two pages is open; its header page lies in frame 0, pinned, and no other frame is in use.
abbrev header_page : DiskPage
header_page = record {
  page_num = 0;
  page_data = λ a. if a == 0 then 2 else if a == 4 then 2 else if a == 8 then 3 else 0;
}

abbrev small_handle : FileHandle
small_handle = record { file_desc = 5; hdr_frame = 0 }

abbrev small_pool : Pool ToyDisk
small_pool = record {
  frame = λ i. record {
    dirty = false;
    pin_count = if i == 0 then 1 else 0;
    acc_time = 0;
    file_desc = if i == 0 then 5 else 0;
    page = header_page;
  };
  allocated = λ i. i == 0;
  open_list = λ i. if i == 0 then some small_handle else none;
  open_list_time = λ i. 0;
  disk = record {
    position = λ fd. 0;
    pages = λ fd offset. record { page_num = offset / bp_page_size; page_data = λ a. 7 };
  };
}

allocate_block-Denied_example :
    Granted toy_os small_pool (allocate_block toy_os small_pool)
    × Denied toy_os small_pool (allocate_block toy_os small_pool)
allocate_block-Denied_example = allocate_block-Denied toy_os small_pool

flush_all_pages-released_example :
    (belongs (flush_all_pages toy_os small_pool 0).1 small_handle 0 ≡ false)
    × (((flush_all_pages toy_os small_pool 0).1.frame 0).file_desc ≡ 5)
    × (((flush_all_pages toy_os small_pool 0).1.frame 0).pin_count ≡ 1)
    × (((flush_all_pages toy_os small_pool 0).1.frame 0).page ≡ header_page)
flush_all_pages-released_example =
    flush_all_pages-released toy_os small_pool 0 small_handle 0 (unfold open_file_at in refl)
      (unfold flush_all_pages force_all_pages force_frame open_file_at in refl) (omega arith)

dispose_page-dropped_example :
    (holds (dispose_page toy_os small_pool 0 1).1 small_handle 1 0 ≡ false)
    × ((holds small_pool small_handle 1 0 && not ((small_pool.frame 0).pin_count == 0)) ≡ false)
dispose_page-dropped_example =
    dispose_page-dropped toy_os small_pool 0 1 small_handle 0 (unfold open_file_at in refl)
      (unfold dispose_page open_file_at check_page_num touch_file drop_frames get_bit bit_is_set in
        refl)
      (omega arith)
