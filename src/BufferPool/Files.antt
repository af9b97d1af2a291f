-- ===== src/BufferPool/Files.antt =====
-- The files below the buffer pool: `lseek`, `read` and `write` of whole pages. The operating system
-- is a parameter of the model; `Os` holds what the pool relies on.
use oceanbase.Base.{ℕ, ◌≡◌, ◌&&◌, Bool, true, Option, some, ◌==◌, if◌then◌else◌}
use oceanbase.Base.Memory.{Memory}

-- `Page` of disk_buffer_pool.h.
pub record DiskPage : Type 0 where
  pub page_num : ℕ
  pub page_data : Memory

-- `content d fd offset` is the page that the file behind `fd` holds at an offset.
pub record Os : Type 1 where
  pub Disk : Type 0
  -- lseek(fd, offset, SEEK_SET): `false` is -1.
  pub lseek : Disk → ℕ → ℕ → Bool × Disk
  -- read(fd, page, sizeof(Page)) at the current position: `none` is a short read or an error.
  pub read : Disk → ℕ → Option DiskPage × Disk
  -- write(fd, page, sizeof(Page)) at the current position: `false` is a short write or an error.
  pub write : Disk → ℕ → DiskPage → Bool × Disk
  pub content : Disk → ℕ → ℕ → DiskPage
  pub content-lseek :
      (d : Disk) (fd offset fd' o : ℕ) → content (lseek d fd offset).1 fd' o ≡ content d fd' o
  pub content-read : (d : Disk) (fd fd' o : ℕ) → content (read d fd).1 fd' o ≡ content d fd' o
  -- A read that succeeds after a seek that succeeded returns the page at that offset.
  pub read_back :
      (d : Disk) (fd offset : ℕ) (page : DiskPage)
      → (lseek d fd offset).0 ≡ true
      → (read (lseek d fd offset).1 fd).0 ≡ some page
      → page ≡ content d fd offset
  -- A write that succeeds after a seek that succeeded stores the page at that offset alone.
  pub write_back :
      (d : Disk) (fd offset : ℕ) (page : DiskPage) (fd' o : ℕ)
      → (lseek d fd offset).0 ≡ true
      → (write (lseek d fd offset).1 fd page).0 ≡ true
      → content (write (lseek d fd offset).1 fd page).1 fd' o
        ≡ (if fd == fd' && offset == o then page else content d fd' o)
