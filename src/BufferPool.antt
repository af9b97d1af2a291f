-- ===== src/BufferPool.antt =====
-- src/observer/storage/default/disk_buffer_pool.cpp: pages of open files in a fixed set of frames.
--
-- A frame is named by its index in `bp_manager_.frame`, and a page handle is the index of its
-- frame; the header page of an open file lies in the frame `hdr_frame`, and the header's fields and
-- bitmap are read and written there. Each operation takes the time that `current_time` returns, and
-- gives its code, what it hands out, and the pool it leaves. Pages and files are numbers. Log output
-- and the operations that create, open and close files are left out.
pub mod Files
pub mod Blocks
pub mod Pins
pub mod Release
pub mod Dispose
mod Tests
use Prim.Native.Nat.{bit_or, bit_and}
use oceanbase.Base.{
  ℕ, zero, suc, ◌+◌, ◌-◌, ◌*◌, ◌/◌, ◌%◌, ◌^◌, ◌≡◌, Bool, true, false, not, ◌&&◌, ◌||◌, Option, none,
  some, ◌==◌, leb, ltb, if◌then◌else◌,
}
use oceanbase.Base.First.{first_from}
use oceanbase.Base.Memory.{Memory, poke}
use oceanbase.Rc.{
  Rc, success, is_success, nomem, ioerr_seek, ioerr_read, ioerr_write, locked_unlock,
  bufferpool_illegal_file_id, bufferpool_invalid_page_num, bufferpool_page_pinned,
}
use oceanbase.Bitmap.{get_bit, set_bit, clear_bit}
use Files.{Os, DiskPage}

abbrev pub bp_page_size : ℕ
bp_page_size = 4096

abbrev pub bp_buffer_size : ℕ
bp_buffer_size = 50

abbrev pub max_open_file : ℕ
max_open_file = 1024

-- sizeof(BPFileSubHeader)
abbrev pub bp_file_sub_hdr_size : ℕ
bp_file_sub_hdr_size = 8

pub record Frame : Type 0 where
  pub dirty : Bool
  pub pin_count : ℕ
  pub acc_time : ℕ
  pub file_desc : ℕ
  pub page : DiskPage

pub record FileHandle : Type 0 where
  pub file_desc : ℕ
  pub hdr_frame : ℕ

-- The pool and the disk below it. `open_list_time` is kept, though nothing reads it.
pub record Pool (Disk : Type 0) : Type 0 where
  pub frame : ℕ → Frame
  pub allocated : ℕ → Bool
  pub open_list : ℕ → Option FileHandle
  pub open_list_time : ℕ → ℕ
  pub disk : Disk

-- An array with one entry replaced.
abbrev pub update {ℓ} : {A : Type ℓ} → (ℕ → A) → ℕ → A → ℕ → A
update f i a j = if i == j then a else f j

-- `++` and `--` of an unsigned int.
abbrev pub incr32 : ℕ → ℕ
incr32 n = (n + 1) % 2 ^ 32

abbrev pub decr32 : ℕ → ℕ
decr32 n = (n + (2 ^ 32 - 1)) % 2 ^ 32

-- An int at an address, its bytes in little-endian order.
abbrev pub read32 : Memory → ℕ → ℕ
read32 m a = m a + 256 * m (a + 1) + 65536 * m (a + 2) + 16777216 * m (a + 3)

unfoldable pub write32 : Memory → ℕ → ℕ → Memory
write32 m a v =
    poke (poke (poke (poke m a (v % 256)) (a + 1) (v / 256 % 256)) (a + 2) (v / 65536 % 256))
      (a + 3) (v / 16777216 % 256)

-- BPFileSubHeader: page_count, then allocated_pages; the bitmap follows.
abbrev pub page_count : Memory → ℕ
page_count m = read32 m 0

abbrev pub allocated_pages : Memory → ℕ
allocated_pages m = read32 m 4

abbrev pub page_bitmap : Memory → Memory
page_bitmap m a = m (bp_file_sub_hdr_size + a)

-- A write through the pointer to the bitmap.
pub with_bitmap : Memory → (Memory → Memory) → Memory
with_bitmap m change a =
    if ltb a bp_file_sub_hdr_size then m a else change (page_bitmap m) (a - bp_file_sub_hdr_size)

-- One round of the search for the unpinned frame that was used longest ago: `min` and `mintime`.
pub older : ℕ → Frame → Option (ℕ × ℕ) → Option (ℕ × ℕ)
older i f best =
    if f.pin_count == 0
    then elim best [
      | none ↦ some (i, f.acc_time)
      | some (min, mintime) ↦
          if ltb f.acc_time mintime then some (i, f.acc_time) else some (min, mintime)
    ]
    else best

pub oldest : (ℕ → Frame) → ℕ → ℕ → Option (ℕ × ℕ) → Option (ℕ × ℕ)
oldest frame zero i best = best
oldest frame (suc rounds) i best = oldest frame rounds (i + 1) (older i (frame i) best)

-- A frame that a caller is given: pinned once, and clean.
abbrev pub taken : FileHandle → ℕ → Frame → Frame
taken fh now f = record f { dirty = false; file_desc = fh.file_desc; pin_count = 1; acc_time = now }

-- The header after a page is taken: its bit is set, and it is counted.
pub count_page : Memory → ℕ → Memory
count_page m page_num = with_bitmap (write32 m 4 (allocated_pages m + 1)) (λ b. set_bit b page_num)

module _ (os : Os) where
  open os use {Disk, lseek, read, write}

  abbrev pub set_frame : Pool Disk → ℕ → Frame → Pool Disk
  set_frame p i f = record p { frame = update p.frame i f }

  -- The header page of an open file.
  abbrev pub header : Pool Disk → FileHandle → Memory
  header p fh = (p.frame fh.hdr_frame).page.page_data

  abbrev pub set_header : Pool Disk → FileHandle → Memory → Pool Disk
  set_header p fh m =
      let f = p.frame fh.hdr_frame in
      set_frame p fh.hdr_frame (record f { page = record f.page { page_data = m } })

  pub mark_header_dirty : Pool Disk → FileHandle → Pool Disk
  mark_header_dirty p fh = set_frame p fh.hdr_frame (record (p.frame fh.hdr_frame) { dirty = true })

  -- `check_file_id`, with the handle of the file that passes it.
  unfoldable pub open_file_at : Pool Disk → ℕ → Option FileHandle
  open_file_at p file_id = if leb max_open_file file_id then none else p.open_list file_id

  pub check_file_id : Pool Disk → ℕ → Rc
  check_file_id p file_id = elim (open_file_at p file_id) [
    | none ↦ bufferpool_illegal_file_id
    | some fh ↦ success
  ]

  pub get_page_count : Pool Disk → ℕ → Rc × Option ℕ
  get_page_count p file_id = elim (open_file_at p file_id) [
    | none ↦ (bufferpool_illegal_file_id, none)
    | some fh ↦ (success, some (page_count (header p fh)))
  ]

  pub check_page_num : Pool Disk → ℕ → FileHandle → Rc
  check_page_num p page_num fh =
      if leb (page_count (header p fh)) page_num
      then bufferpool_invalid_page_num
      else if get_bit (page_bitmap (header p fh)) page_num
      then success
      else bufferpool_invalid_page_num

  -- for (i = 0; i < MAX_OPEN_FILE; ++i) if (open_list_[i] != nullptr) ++open_list_time[i];
  -- open_list_time[file_id] = 0;
  unfoldable pub touch_file : Pool Disk → ℕ → Pool Disk
  touch_file p file_id = record p {
    open_list_time = λ i.
        if file_id == i
        then 0
        else elim (p.open_list i) [ none ↦ p.open_list_time i | some fh ↦ p.open_list_time i + 1 ];
  }

  -- `lseek(...) == offset - 1` holds only of a seek to offset 0 that fails,
  -- so a failed seek to another offset goes on to write.
  unfoldable pub flush_block : Pool Disk → ℕ → Rc × Pool Disk
  flush_block p i =
      let f = p.frame i in
      let offset = f.page.page_num * bp_page_size in
      let (seeked, d) = lseek p.disk f.file_desc offset in
      if not seeked && offset == 0
      then (ioerr_seek, record p { disk = d })
      else (let (written, d') = write d f.file_desc f.page in
          if written
          then (
            success,
            record p { disk = d'; frame = update p.frame i (record f { dirty = false }) },
          )
          else (ioerr_write, record p { disk = d' }))

  unfoldable pub load_page : Pool Disk → ℕ → FileHandle → ℕ → Rc × Pool Disk
  load_page p page_num fh i =
      let (seeked, d) = lseek p.disk fh.file_desc (page_num * bp_page_size) in
      if seeked
      then (let (got, d') = read d fh.file_desc in
          elim got [
            | none ↦ (ioerr_read, record p { disk = d' })
            | some page ↦ (
              success,
              record p { disk = d'; frame = update p.frame i (record (p.frame i) { page = page }) },
            )
          ])
      else (ioerr_seek, record p { disk = d })

  -- Empty the frame that is to be used again.
  unfoldable pub evict : Pool Disk → ℕ → Rc × Option ℕ × Pool Disk
  evict p min =
      if (p.frame min).dirty
      then (let (rc, p') = flush_block p min in
          if is_success rc then (success, some min, p') else (rc, none, p'))
      else (success, some min, p)

  unfoldable pub allocate_block : Pool Disk → Rc × Option ℕ × Pool Disk
  allocate_block p = elim (first_from (λ i. not (p.allocated i)) bp_buffer_size 0) [
    | some i ↦ (success, some i, record p { allocated = update p.allocated i true })
    | none ↦ elim (oldest p.frame bp_buffer_size 0 none) [
      | none ↦ (nomem, none, p)
      | some (min, mintime) ↦ evict p min
    ]
  ]

  -- The frame is no longer in use.
  unfoldable pub release : Pool Disk → ℕ → Pool Disk
  release p i = record p {
    frame = update p.frame i (record (p.frame i) { dirty = false });
    allocated = update p.allocated i false;
  }

  unfoldable pub dispose_block : Pool Disk → ℕ → Rc × Pool Disk
  dispose_block p i =
      if not ((p.frame i).pin_count == 0)
      then (locked_unlock, p)
      else if (p.frame i).dirty
      then (let (rc, p') = flush_block p i in
          if is_success rc then (success, release p' i) else (rc, p'))
      else (success, release p i)

  -- The frame that holds a page of a file.
  unfoldable pub loaded_frame : Pool Disk → FileHandle → ℕ → Option ℕ
  loaded_frame p fh page_num =
      first_from
        (λ i.
          p.allocated i
          && ((p.frame i).file_desc == fh.file_desc && (p.frame i).page.page_num == page_num))
        bp_buffer_size 0

  -- Load a page into a frame that `allocate_block` gave.
  unfoldable pub fill_frame : Pool Disk → ℕ → FileHandle → ℕ → ℕ → Rc × Option ℕ × Pool Disk
  fill_frame p now fh page_num i =
      let (rc, p') = load_page (set_frame p i (taken fh now (p.frame i))) page_num fh i in
      if is_success rc
      then (success, some i, p')
      else (rc, none, (dispose_block (set_frame p' i (record (p'.frame i) { pin_count = 0 })) i).1)

  -- `get_this_page` behind the checks of the file.
  unfoldable pub pin_page : Pool Disk → ℕ → FileHandle → ℕ → Rc × Option ℕ × Pool Disk
  pin_page p now fh page_num = elim (loaded_frame p fh page_num) [
    | some i ↦
        let f = p.frame i in
        (
          success,
          some i,
          set_frame p i (record f { pin_count = incr32 f.pin_count; acc_time = now }),
        )
    | none ↦
        let (rc, got, p') = allocate_block p in
        elim got [ none ↦ (rc, none, p') | some i ↦ fill_frame p' now fh page_num i ]
  ]

  pub get_this_page : Pool Disk → ℕ → ℕ → ℕ → Rc × Option ℕ × Pool Disk
  get_this_page p now file_id page_num = elim (open_file_at p file_id) [
    | none ↦ (bufferpool_illegal_file_id, none, p)
    | some fh ↦
        let p' = touch_file p file_id in
        let rc = check_page_num p' page_num fh in
        if is_success rc then pin_page p' now fh page_num else (rc, none, p')
  ]

  -- Behind the end of the file: a new frame, a longer file.
  pub extend_file : Pool Disk → ℕ → FileHandle → ℕ → Rc × Option ℕ × Pool Disk
  extend_file p now fh i =
      let m = header p fh in
      let page_num = page_count m in
      let p1 =
        mark_header_dirty (set_header p fh (count_page (write32 m 0 (page_count m + 1)) page_num))
          fh in
      let page : DiskPage = record { page_num = page_num; page_data = λ a. 0 } in
      let f = record (taken fh now (p1.frame i)) { page = page } in
      let (rc, p2) = flush_block (set_frame p1 i f) i in
      if is_success rc then (success, some i, p2) else (rc, none, p2)

  pub append_page : Pool Disk → ℕ → FileHandle → Rc × Option ℕ × Pool Disk
  append_page p now fh =
      let (rc, got, p') = allocate_block p in
      elim got [ none ↦ (rc, none, p') | some i ↦ extend_file p' now fh i ]

  pub allocate_page : Pool Disk → ℕ → ℕ → Rc × Option ℕ × Pool Disk
  allocate_page p now file_id = elim (open_file_at p file_id) [
    | none ↦ (bufferpool_illegal_file_id, none, p)
    | some fh ↦
        let p' = touch_file p file_id in
        let m = header p' fh in
        if ltb (allocated_pages m) (page_count m)
        then elim (first_from (λ i. not (get_bit (page_bitmap m) i)) (page_count m) 0) [
          | some i ↦ get_this_page (set_header p' fh (count_page m i)) now file_id i
          | none ↦ append_page p' now fh
        ]
        else append_page p' now fh
  ]

  -- The loop of `dispose_page` over the frames, with the rounds left.
  pub drop_frames : ℕ → ℕ → Pool Disk → FileHandle → ℕ → Rc × Pool Disk
  drop_frames zero i p fh page_num = (success, p)
  drop_frames (suc rounds) i p fh page_num =
      let f = p.frame i in
      let kept = drop_frames rounds (i + 1) p fh page_num in
      let dropped =
        drop_frames rounds (i + 1) (record p { allocated = update p.allocated i false }) fh
          page_num in
      if p.allocated i && (f.file_desc == fh.file_desc && f.page.page_num == page_num)
      then if f.pin_count == 0 then dropped else (bufferpool_page_pinned, p)
      else kept

  -- The end of `dispose_page`, on the header.
  pub uncount_page : Pool Disk → FileHandle → ℕ → Pool Disk
  uncount_page p fh page_num =
      let p' = mark_header_dirty p fh in
      let m = header p' fh in
      set_header p' fh
        (with_bitmap (write32 m 4 (allocated_pages m + (2 ^ 32 - 1))) (λ b. clear_bit b page_num))

  pub dispose_page : Pool Disk → ℕ → ℕ → Rc × Pool Disk
  dispose_page p file_id page_num = elim (open_file_at p file_id) [
    | none ↦ (bufferpool_illegal_file_id, p)
    | some fh ↦
        let p1 = touch_file p file_id in
        let rc = check_page_num p1 page_num fh in
        if is_success rc
        then (let (rc', p2) = drop_frames bp_buffer_size 0 p1 fh page_num in
            if is_success rc' then (success, uncount_page p2 fh page_num) else (rc', p2))
        else (rc, p1)
  ]

  -- What `force_page` and `force_all_pages` do to one frame: write it if it is dirty, and free it.
  pub force_frame : Pool Disk → ℕ → Rc × Pool Disk
  force_frame p i =
      let free = λ (q : Pool Disk). record q { allocated = update q.allocated i false } in
      if (p.frame i).dirty
      then (let (rc, p') = flush_block p i in
          if is_success rc then (success, free p') else (rc, p'))
      else (success, free p)

  -- `page_num` -1 is `none`: the first frame of the file, whatever its page.
  pub force_page : Pool Disk → ℕ → Option ℕ → Rc × Pool Disk
  force_page p file_id page_num = elim (open_file_at p file_id) [
    | none ↦ (bufferpool_illegal_file_id, p)
    | some fh ↦
        let p' = touch_file p file_id in
        let found =
          first_from
            (λ i.
              p'.allocated i
              && ((p'.frame i).file_desc == fh.file_desc
                  && (elim page_num [ none ↦ true | some n ↦ (p'.frame i).page.page_num == n ])))
            bp_buffer_size 0 in
        elim found [
          | none ↦ (success, p')
          | some i ↦
              if (p'.frame i).pin_count == 0 then force_frame p' i else (bufferpool_page_pinned, p')
        ]
  ]

  pub force_all_pages : ℕ → ℕ → Pool Disk → FileHandle → Rc × Pool Disk
  force_all_pages zero i p fh = (success, p)
  force_all_pages (suc rounds) i p fh =
      let (rc, p') = force_frame p i in
      let kept = force_all_pages rounds (i + 1) p fh in
      let forced = force_all_pages rounds (i + 1) p' fh in
      if p.allocated i && ((p.frame i).file_desc == fh.file_desc)
      then if is_success rc then forced else (rc, p')
      else kept

  pub flush_all_pages : Pool Disk → ℕ → Rc × Pool Disk
  flush_all_pages p file_id = elim (open_file_at p file_id) [
    | none ↦ (bufferpool_illegal_file_id, p)
    | some fh ↦ force_all_pages bp_buffer_size 0 p fh
  ]

  pub mark_dirty : Pool Disk → ℕ → Rc × Pool Disk
  mark_dirty p i = (success, set_frame p i (record (p.frame i) { dirty = true }))

  pub unpin_page : Pool Disk → ℕ → Rc × Pool Disk
  unpin_page p i =
      (success, set_frame p i (record (p.frame i) { pin_count = decr32 (p.frame i).pin_count }))
