-- ===== src/BufferPool/Pins.antt =====
-- `get_this_page` of disk_buffer_pool.cpp: what a caller gets, and that no page which another caller
-- has pinned is taken away.
use oceanbase.Base.{
  ℕ, ◌*◌, ◌<◌, ◌≡◌, ◌≢◌, ◌⊎◌, inl, inr, refl, sym, ap, ◌∙◌, Bool, true, false, ◌&&◌, Option, none,
  some, ◌==◌, ==_iff, ==_refl, ne→==, if◌then◌else◌, arith, Bool-cases, Option-cases,
}
use oceanbase.Base.First.{IsFirst, first_from-IsFirst}
use oceanbase.Rc.{is_success, Rc, success}
use oceanbase.BufferPool.Files.{Os}
use oceanbase.BufferPool.{
  Pool, Frame, FileHandle, update, set_frame, taken, incr32, load_page, fill_frame, loaded_frame,
  pin_page, dispose_block, release, allocate_block, bp_buffer_size, bp_page_size, get_this_page,
  touch_file, open_file_at, check_page_num,
}
use oceanbase.BufferPool.Blocks.{Granted, allocate_block-Granted}

module _ (os : Os) where
  open os use {Disk, lseek, read, content}

  abbrev offset_of : ℕ → ℕ
  offset_of page_num = page_num * bp_page_size

  -- What `load_page` leaves.
  abbrev Loaded : Pool Disk → ℕ → FileHandle → ℕ → Rc × Pool Disk → Type 0
  Loaded p page_num fh i (rc, p') =
      (p'.allocated ≡ p.allocated)
      × (((rc ≡ success)
            × (p'.frame
                ≡ update p.frame i (record (p.frame i) {
                  page = content p'.disk fh.file_desc (offset_of page_num);
                })))
          ⊎ ((is_success rc ≡ false) × (p'.frame ≡ p.frame)))

  load_page-Loaded :
      (p : Pool Disk) (page_num : ℕ) (fh : FileHandle) (i : ℕ)
      → Loaded p page_num fh i (load_page os p page_num fh i)
  unfolding load_page
  load_page-Loaded p page_num fh i =
      let fd = fh.file_desc in
      let offset = offset_of page_num in
      let d = (lseek p.disk fd offset).1 in
      elim (Bool-cases (lseek p.disk fd offset).0) [
        | inr failed ↦ rw failed (refl, inr (refl, refl))
        | inl seeked ↦ elim (Option-cases (read d fd).0) [
          | inl short ↦ rw seeked (rw short (refl, inr (refl, refl)))
          | inr (page, got) ↦
              let same : page ≡ content (read d fd).1 fd offset =
                os.read_back p.disk fd offset page seeked got
                ∙ sym (
                    os.content-read d fd fd offset ∙ os.content-lseek p.disk fd offset fd offset) in
              rw seeked (
                rw got (
                  refl,
                  inl (refl, ap (λ pg. update p.frame i (record (p.frame i) { page = pg })) same),
                ))
        ]
      ]

  -- Every frame but one is as it was.
  abbrev Others : Pool Disk → Pool Disk → ℕ → Type 0
  Others p p' i = (j : ℕ) → i ≢ j → (p'.frame j ≡ p.frame j) × (p'.allocated j ≡ p.allocated j)

  -- What `fill_frame` leaves: the page of the file in the frame, pinned once, or an error.
  abbrev Filled : Pool Disk → FileHandle → ℕ → ℕ → Rc × Option ℕ × Pool Disk → Type 0
  Filled p fh page_num i (rc, none, p') = (is_success rc ≡ false) × Others p p' i
  Filled p fh page_num i (rc, some k, p') =
      (rc ≡ success)
      × (k ≡ i)
      × (p'.allocated i ≡ true)
      × ((p'.frame i).file_desc ≡ fh.file_desc)
      × ((p'.frame i).page ≡ content p'.disk fh.file_desc (offset_of page_num))
      × ((p'.frame i).pin_count ≡ 1)
      × Others p p' i

  -- Giving a clean frame back changes no other frame.
  dispose-Others :
      (p : Pool Disk) (i : ℕ)
      → (p.frame i).dirty ≡ false
      → Others p (dispose_block os (set_frame os p i (record (p.frame i) { pin_count = 0 })) i).1 i
  unfolding dispose_block release
  dispose-Others p i clean j ne = rw (==_refl i) (rw clean (rw (ne→== i j ne) (refl, refl)))

  Filled-cases :
      (p : Pool Disk) (now : ℕ) (fh : FileHandle) (page_num i : ℕ) (r : Rc × Pool Disk)
      → p.allocated i ≡ true
      → Loaded (set_frame os p i (taken fh now (p.frame i))) page_num fh i r
      → Filled p fh page_num i (
          if is_success r.0 then (success, some i, r.1) else (
            r.0,
            none,
            (dispose_block os (set_frame os r.1 i (record (r.1.frame i) { pin_count = 0 })) i).1,
          ))
  Filled-cases p now fh page_num i (rc, p') all (al, inl (e, fr)) =
      let f = taken fh now (p.frame i) in
      let here : p'.frame i
          ≡ record f { page = content p'.disk fh.file_desc (offset_of page_num) } =
        ap (λ g. g i) fr ∙ rw (==_refl i) in
      rw e (
        refl,
        refl,
        ap (λ g. g i) al ∙ all,
        ap (λ (g : Frame). g.file_desc) here,
        ap (λ (g : Frame). g.page) here,
        ap (λ (g : Frame). g.pin_count) here,
        λ j ne. (ap (λ g. g j) fr ∙ rw (ne→== i j ne), ap (λ g. g j) al),
      )
  Filled-cases p now fh page_num i (rc, p') all (al, inr (e, fr)) = rw e (
    e,
    λ j ne.
        let (fj, aj) =
          dispose-Others p' i (ap (λ (g : ℕ → Frame). (g i).dirty) fr ∙ rw (==_refl i)) j ne in
        (fj ∙ ap (λ g. g j) fr ∙ rw (ne→== i j ne), aj ∙ ap (λ g. g j) al),
  )

  fill_frame-Filled :
      (p : Pool Disk) (now : ℕ) (fh : FileHandle) (page_num i : ℕ)
      → p.allocated i ≡ true
      → Filled p fh page_num i (fill_frame os p now fh page_num i)
  unfolding fill_frame
  fill_frame-Filled p now fh page_num i all =
      Filled-cases p now fh page_num i
        (load_page os (set_frame os p i (taken fh now (p.frame i))) page_num fh i) all
        (load_page-Loaded (set_frame os p i (taken fh now (p.frame i))) page_num fh i)

  -- A frame that holds a page of a file.
  abbrev pub Holds : Pool Disk → FileHandle → ℕ → ℕ → Type 0
  Holds p fh page_num i =
      (p.allocated i ≡ true)
      × ((p.frame i).file_desc ≡ fh.file_desc)
      × ((p.frame i).page.page_num ≡ page_num)

  -- Frames that are pinned stay allocated and keep their page; their pin count is as it was, or one
  -- more for the frame that is handed out.
  abbrev pub KeepsPinned : Pool Disk → Option ℕ → Pool Disk → Type 0
  KeepsPinned p got p' =
      (j : ℕ)
      → p.allocated j ≡ true
      → (p.frame j).pin_count ≢ 0
      → (p'.allocated j ≡ true)
        × ((p'.frame j).page ≡ (p.frame j).page)
        × ((p'.frame j).file_desc ≡ (p.frame j).file_desc)
        × ((p'.frame j).dirty ≡ (p.frame j).dirty)
        × (((p'.frame j).pin_count ≡ (p.frame j).pin_count)
            ⊎ ((got ≡ some j) × ((p'.frame j).pin_count ≡ incr32 (p.frame j).pin_count)))

  -- What a request for a page gives: the frame that holds the page, with one more pin; or, if no
  -- frame holds it, a frame with one pin and the page as it is in the file; or an error. Pinned
  -- frames are kept on every branch.
  abbrev pub Pinned : Pool Disk → FileHandle → ℕ → Rc × Option ℕ × Pool Disk → Type 0
  Pinned p fh page_num (rc, none, p') = (is_success rc ≡ false) × KeepsPinned p none p'
  Pinned p fh page_num (rc, some i, p') =
      (rc ≡ success)
      × (i < bp_buffer_size)
      × ((Holds p fh page_num i
            × Holds p' fh page_num i
            × ((p'.frame i).pin_count ≡ incr32 (p.frame i).pin_count))
          ⊎ (((j : ℕ) → j < bp_buffer_size → ¬ Holds p fh page_num j)
              × (p'.allocated i ≡ true)
              × ((p'.frame i).file_desc ≡ fh.file_desc)
              × ((p'.frame i).page ≡ content p'.disk fh.file_desc (offset_of page_num))
              × ((p'.frame i).pin_count ≡ 1)))
      × KeepsPinned p (some i) p'

  -- The frame of a page that is loaded.
  hit-Pinned :
      (p : Pool Disk) (now : ℕ) (fh : FileHandle) (page_num i : ℕ)
      → i < bp_buffer_size
      → Holds p fh page_num i
      → Pinned p fh page_num (
        success,
        some i,
        set_frame os p i
            (record (p.frame i) { pin_count = incr32 (p.frame i).pin_count; acc_time = now }),
      )
  hit-Pinned p now fh page_num i lt h = (
    refl,
    lt,
    inl (h, rw (==_refl i) h, rw (==_refl i)),
    λ j aj pj. elim (Bool-cases (i == j)) [
      | inl same ↦
          let e : i ≡ j = (==_iff i j).0 same in
          rw same (
            aj,
            ap (λ k. (p.frame k).page) e,
            ap (λ k. (p.frame k).file_desc) e,
            ap (λ k. (p.frame k).dirty) e,
            inr (ap some e, ap (λ k. incr32 (p.frame k).pin_count) e),
          )
      | inr other ↦ rw other (aj, refl, refl, refl, inl refl)
    ],
  )

  -- A frame that `allocate_block` gives was not pinned.
  Granted-unpinned :
      (p p' : Pool Disk) (i j : ℕ)
      → Granted os p (success, some i, p')
      → p.allocated j ≡ true
      → (p.frame j).pin_count ≢ 0
      → i ≢ j
  Granted-unpinned p p' i j (rc, lt, al, others, inl free) aj pj e = cc (ap p.allocated e)
  Granted-unpinned p p' i j (rc, lt, al, others, inr (unpinned, all, stored)) aj pj e =
      pj (ap (λ k. (p.frame k).pin_count) (sym e) ∙ unpinned)

  -- A frame that two steps leave alone.
  kept_by_steps :
      (p p' p2 : Pool Disk) (got : Option ℕ) (i : ℕ)
      → Granted os p (success, some i, p')
      → Others p' p2 i
      → KeepsPinned p got p2
  kept_by_steps p p' p2 got i g o j aj pj =
      let ne : i ≢ j = Granted-unpinned p p' i j g aj pj in
      let fr : p2.frame j ≡ p.frame j = (o j ne).0 ∙ (g.3 j (λ e. ne (sym e))).0 in
      let al : p2.allocated j ≡ p.allocated j = (o j ne).1 ∙ (g.3 j (λ e. ne (sym e))).1 in
      (
        al ∙ aj,
        ap (λ (f : Frame). f.page) fr,
        ap (λ (f : Frame). f.file_desc) fr,
        ap (λ (f : Frame). f.dirty) fr,
        inl (ap (λ (f : Frame). f.pin_count) fr),
      )

  miss-Pinned :
      (p p' : Pool Disk) (fh : FileHandle) (page_num i : ℕ) (r : Rc × Option ℕ × Pool Disk)
      → ((j : ℕ) → j < bp_buffer_size → ¬ Holds p fh page_num j)
      → Granted os p (success, some i, p')
      → Filled p' fh page_num i r
      → Pinned p fh page_num r
  miss-Pinned p p' fh page_num i (rc, none, p2) absent g f =
      (f.0, kept_by_steps p p' p2 none i g f.1)
  miss-Pinned p p' fh page_num i (rc, some k, p2) absent g f =
      rw f.1 (f.0, g.1, inr (absent, f.2, f.3, f.4, f.5), kept_by_steps p p' p2 (some i) i g f.6)

  block-Pinned :
      (p : Pool Disk) (now : ℕ) (fh : FileHandle) (page_num : ℕ) (r : Rc × Option ℕ × Pool Disk)
      → ((j : ℕ) → j < bp_buffer_size → ¬ Holds p fh page_num j)
      → Granted os p r
      → Pinned p fh page_num
          (elim r.1 [ none ↦ (r.0, none, r.2) | some i ↦ fill_frame os r.2 now fh page_num i ])
  block-Pinned p now fh page_num (rc, none, p') absent g = (
    g.0,
    λ j aj pj. (
      ap (λ a. a j) g.2 ∙ aj,
      ap (λ (f : ℕ → Frame). (f j).page) g.1,
      ap (λ (f : ℕ → Frame). (f j).file_desc) g.1,
      ap (λ (f : ℕ → Frame). (f j).dirty) g.1,
      inl (ap (λ (f : ℕ → Frame). (f j).pin_count) g.1),
    ),
  )
  block-Pinned p now fh page_num (rc, some i, p') absent g =
      miss-Pinned p p' fh page_num i (fill_frame os p' now fh page_num i) absent
        (refl, g.1, g.2, g.3, g.4) (fill_frame-Filled p' now fh page_num i g.2)

  search-Pinned :
      (p : Pool Disk) (now : ℕ) (fh : FileHandle) (page_num : ℕ) (r : Option ℕ)
      → IsFirst
          (λ i.
            p.allocated i
            && ((p.frame i).file_desc == fh.file_desc && (p.frame i).page.page_num == page_num))
          0
          bp_buffer_size
          r
      → Pinned p fh page_num (elim r [
        | some i ↦ (
          success,
          some i,
          set_frame os p i
              (record (p.frame i) { pin_count = incr32 (p.frame i).pin_count; acc_time = now }),
        )
        | none ↦ elim (allocate_block os p).1 [
          | none ↦ ((allocate_block os p).0, none, (allocate_block os p).2)
          | some i ↦ fill_frame os (allocate_block os p).2 now fh page_num i
        ]
      ])
  search-Pinned p now fh page_num (some i) h =
      hit-Pinned p now fh page_num i h.1 (ground (arith, h.2))
  search-Pinned p now fh page_num none h =
      block-Pinned p now fh page_num (allocate_block os p)
        (λ j lt held. ground (arith, h j (omega arith) lt)) (allocate_block-Granted os p)

  -- Pinning a page gives what `Pinned` describes, in every state of the pool.
  pub pin_page-Pinned :
      (p : Pool Disk) (now : ℕ) (fh : FileHandle) (page_num : ℕ)
      → Pinned p fh page_num (pin_page os p now fh page_num)
  unfolding pin_page loaded_frame
  pin_page-Pinned p now fh page_num =
      search-Pinned p now fh page_num _ (first_from-IsFirst _ bp_buffer_size 0 bp_buffer_size refl)

  -- What `get_this_page` gives: for a file that is open and a page that is in use there, what
  -- `Pinned` describes; an error and unchanged frames otherwise.
  abbrev pub GetsValid : Pool Disk → FileHandle → ℕ → Bool → Rc × Option ℕ × Pool Disk → Type 0
  GetsValid p fh page_num true r = Pinned p fh page_num r
  GetsValid p fh page_num false (rc, got, p') =
      (is_success rc ≡ false) × (p'.frame ≡ p.frame) × (p'.allocated ≡ p.allocated)

  abbrev pub GetsFrom : Pool Disk → ℕ → Option FileHandle → Rc × Option ℕ × Pool Disk → Type 0
  GetsFrom p page_num none (rc, got, p') = (is_success rc ≡ false) × (p' ≡ p)
  GetsFrom p page_num (some fh) r =
      GetsValid p fh page_num (is_success (check_page_num os p page_num fh)) r

  checked :
      (p : Pool Disk) (now file_id page_num : ℕ) (fh : FileHandle) (b : Bool)
      → is_success (check_page_num os p page_num fh) ≡ b
      → GetsValid p fh page_num b (
          if b
          then pin_page os (touch_file os p file_id) now fh page_num
          else (check_page_num os p page_num fh, none, touch_file os p file_id))
  unfolding touch_file
  checked p now file_id page_num fh true e =
      pin_page-Pinned (touch_file os p file_id) now fh page_num
  checked p now file_id page_num fh false e = (e, refl, refl)

  -- In every state of the pool: for a file that is open and a page that is in use there,
  -- `get_this_page` gives what `Pinned` describes, else an error and unchanged frames. So no frame
  -- that is pinned is given to another page, whether the call succeeds or fails.
  pub get_this_page-GetsFrom :
      (p : Pool Disk) (now file_id page_num : ℕ)
      → GetsFrom p page_num (open_file_at os p file_id) (get_this_page os p now file_id page_num)
  unfolding get_this_page touch_file check_page_num
  get_this_page-GetsFrom p now file_id page_num = elim (Option-cases (open_file_at os p file_id)) [
    | inl closed ↦ rw (closed, get_this_page) (refl, refl)
    | inr (fh, opened) ↦
        rw (opened, get_this_page)
          (checked p now file_id page_num fh (is_success (check_page_num os p page_num fh)) refl)
  ]
