-- ===== src/BufferPool/Blocks.antt =====
-- `allocate_block` of disk_buffer_pool.cpp: which frame it gives, and what becomes of its page.
use oceanbase.Base.{
  ℕ, zero, suc, ◌+◌, ◌*◌, ◌≤◌, ◌<◌, ◌≡◌, ◌≢◌, ◌⊎◌, inl, inr, refl, sym, ap, ◌∙◌, true, false, not,
  ◌&&◌, Option, none, some, ◌==◌, ltb, ==_refl, ne→==, if◌then◌else◌, arith, Bool-cases,
}
use oceanbase.Base.First.{IsFirst, first_from-IsFirst}
use oceanbase.Rc.{ioerr_seek, ioerr_write, is_success, Rc, success, nomem}
use oceanbase.BufferPool.Files.{Os}
use oceanbase.BufferPool.{
  Pool, Frame, update, older, oldest, evict, allocate_block, flush_block, bp_buffer_size,
  bp_page_size,
}

-- The best of the frames below a bound: the unpinned one that was used longest ago.
abbrev pub IsOldest : (ℕ → Frame) → ℕ → Option (ℕ × ℕ) → Type 0
IsOldest frame bound none = (j : ℕ) → j < bound → (frame j).pin_count ≢ 0
IsOldest frame bound (some (min, mintime)) =
    (min < bound)
    × ((frame min).pin_count ≡ 0)
    × (mintime ≡ (frame min).acc_time)
    × ((j : ℕ) → j < bound → (frame j).pin_count ≡ 0 → mintime ≤ (frame j).acc_time)

older-IsOldest :
    (frame : ℕ → Frame) (i : ℕ) (best : Option (ℕ × ℕ))
    → IsOldest frame i best
    → IsOldest frame (i + 1) (older i (frame i) best)
unfolding older
older-IsOldest frame i none h = elim (Bool-cases ((frame i).pin_count == 0)) [
  | inl unpinned ↦ rw unpinned (
    omega arith,
    ground arith,
    refl,
    λ j lt z. elim (Bool-cases (j == i)) [
      | inl here ↦ ground arith
      | inr other ↦ absurd (h j (ground arith) z)
    ],
  )
  | inr pinned ↦ rw pinned (λ j lt. elim (Bool-cases (j == i)) [
    | inl here ↦ ground arith
    | inr other ↦ h j (ground arith)
  ])
]
older-IsOldest frame i (some (min, mintime)) h = elim (Bool-cases ((frame i).pin_count == 0)) [
  | inl unpinned ↦ elim (Bool-cases (ltb (frame i).acc_time mintime)) [
    | inl earlier ↦
        rw (unpinned, earlier)
          (
            omega arith,
            ground arith,
            refl,
            λ j lt z. elim (Bool-cases (j == i)) [
              | inl here ↦ ground arith
              | inr other ↦ ground (arith, h.3 j (ground arith) z)
            ],
          )
    | inr later ↦
        rw (unpinned, later)
          (
            omega (arith, h.0),
            h.1,
            h.2,
            λ j lt z. elim (Bool-cases (j == i)) [
              | inl here ↦ ground arith
              | inr other ↦ h.3 j (ground arith) z
            ],
          )
  ]
  | inr pinned ↦ rw pinned (
    omega (arith, h.0),
    h.1,
    h.2,
    λ j lt z. elim (Bool-cases (j == i)) [
      | inl here ↦ ground arith
      | inr other ↦ h.3 j (ground arith) z
    ],
  )
]

oldest-IsOldest :
    (frame : ℕ → Frame) (rounds i bound : ℕ) (best : Option (ℕ × ℕ))
    → i + rounds ≡ bound
    → IsOldest frame i best
    → IsOldest frame bound (oldest frame rounds i best)
unfolding oldest
oldest-IsOldest frame zero i bound best e h = let e' : i ≡ bound = omega arith in rw (← e') h
oldest-IsOldest frame (suc rounds) i bound best e h =
    oldest-IsOldest frame rounds (i + 1) bound (older i (frame i) best) (omega arith)
      (older-IsOldest frame i best h)

module _ (os : Os) where
  open os use {Disk, lseek, write, content}

  -- What `flush_block` leaves: on success the frame is clean and, if the seek succeeded, the file
  -- holds its page; on failure the frames are as they were.
  abbrev pub Flushed : Pool Disk → ℕ → Rc × Pool Disk → Type 0
  Flushed p i (rc, p') =
      (p'.allocated ≡ p.allocated)
      × (((rc ≡ success)
            × (p'.frame ≡ update p.frame i (record (p.frame i) { dirty = false }))
            × ((lseek p.disk (p.frame i).file_desc ((p.frame i).page.page_num * bp_page_size)).0
                  ≡ true
                → content p'.disk (p.frame i).file_desc ((p.frame i).page.page_num * bp_page_size)
                  ≡ (p.frame i).page))
          ⊎ ((is_success rc ≡ false) × (p'.frame ≡ p.frame)))

  pub flush_block-Flushed : (p : Pool Disk) (i : ℕ) → Flushed p i (flush_block os p i)
  unfolding flush_block
  flush_block-Flushed p i =
      let fd = (p.frame i).file_desc in
      let offset = (p.frame i).page.page_num * bp_page_size in
      let d = (lseek p.disk fd offset).1 in
      elim (Bool-cases (not (lseek p.disk fd offset).0 && offset == 0)) [
        | inl failed ↦ rw failed (refl, inr (refl, refl))
        | inr goes_on ↦ elim (Bool-cases (write d fd (p.frame i).page).0) [
          | inl written ↦
              rw (goes_on, written)
                (
                  refl,
                  inl (
                    refl,
                    refl,
                    λ seeked.
                        os.write_back p.disk fd offset (p.frame i).page fd offset seeked written
                        ∙ rw (==_refl fd, ==_refl offset),
                  ),
                )
          | inr short ↦ rw (goes_on, short) (refl, inr (refl, refl))
        ]
      ]

  -- What `allocate_block` gives. With a frame: it succeeds, the frame is marked allocated, all other
  -- frames are as they were, and the frame was free, or else every frame was allocated and this one
  -- is an unpinned frame that was used longest ago, whose page, if it was dirty, is in the file now
  -- (where the seek succeeded). Without a frame: it fails, and no frame has changed.
  abbrev pub Granted : Pool Disk → Rc × Option ℕ × Pool Disk → Type 0
  Granted p (rc, none, p') =
      (is_success rc ≡ false) × (p'.frame ≡ p.frame) × (p'.allocated ≡ p.allocated)
  Granted p (rc, some i, p') =
      (rc ≡ success)
      × (i < bp_buffer_size)
      × (p'.allocated i ≡ true)
      × ((j : ℕ) → j ≢ i → (p'.frame j ≡ p.frame j) × (p'.allocated j ≡ p.allocated j))
      × ((p.allocated i ≡ false)
          ⊎ (((p.frame i).pin_count ≡ 0)
              × ((j : ℕ)
                  → j < bp_buffer_size
                  → (p.allocated j ≡ true)
                    × ((p.frame j).pin_count ≡ 0 → (p.frame i).acc_time ≤ (p.frame j).acc_time))
              × ((p.frame i).dirty ≡ true
                  → (lseek p.disk (p.frame i).file_desc
                      ((p.frame i).page.page_num * bp_page_size)).0
                    ≡ true
                  → content p'.disk (p.frame i).file_desc ((p.frame i).page.page_num * bp_page_size)
                    ≡ (p.frame i).page)))

  Flushed-Granted :
      (p : Pool Disk) (min mintime : ℕ) (r : Rc × Pool Disk)
      → ((j : ℕ) → j < bp_buffer_size → p.allocated j ≡ true)
      → IsOldest p.frame bp_buffer_size (some (min, mintime))
      → Flushed p min r
      → Granted p (if is_success r.0 then (success, some min, r.1) else (r.0, none, r.1))
  Flushed-Granted p min mintime (rc, p') all h (al, inl (e, fr, stored)) = rw e (
    refl,
    h.0,
    ap (λ f. f min) al ∙ all min h.0,
    λ j ne. (ap (λ f. f j) fr ∙ rw (ne→== min j (λ e. ne (sym e))), ap (λ f. f j) al),
    inr (h.1, λ j lt. (all j lt, λ z. ground (arith, h.2, h.3 j lt z)), λ d. stored),
  )
  Flushed-Granted p min mintime (rc, p') all h (al, inr (e, fr)) = rw e (e, fr, al)

  evict-Granted :
      (p : Pool Disk) (min mintime : ℕ)
      → ((j : ℕ) → j < bp_buffer_size → p.allocated j ≡ true)
      → IsOldest p.frame bp_buffer_size (some (min, mintime))
      → Granted p (evict os p min)
  unfolding evict
  evict-Granted p min mintime all h = elim (Bool-cases (p.frame min).dirty) [
    | inl dirty ↦
        rw dirty
          (Flushed-Granted p min mintime (flush_block os p min) all h (flush_block-Flushed p min))
    | inr clean ↦ rw clean (
      refl,
      h.0,
      all min h.0,
      λ j ne. (refl, refl),
      inr (h.1, λ j lt. (all j lt, λ z. ground (arith, h.2, h.3 j lt z)), λ d. cc),
    )
  ]

  allocate_block-cases :
      (p : Pool Disk) (r : Option ℕ) (best : Option (ℕ × ℕ))
      → IsFirst (λ i. not (p.allocated i)) 0 bp_buffer_size r
      → IsOldest p.frame bp_buffer_size best
      → Granted p (elim r [
        | some i ↦ (success, some i, record p { allocated = update p.allocated i true })
        | none ↦ elim best [ none ↦ (nomem, none, p) | some (min, mintime) ↦ evict os p min ]
      ])
  allocate_block-cases p (some i) best h o = (
    refl,
    h.1,
    rw (==_refl i),
    λ j ne. (refl, rw (ne→== i j (λ e. ne (sym e)))),
    inl (ground (arith, h.2)),
  )
  allocate_block-cases p none none h o = (refl, refl, refl)
  allocate_block-cases p none (some (min, mintime)) h o =
      evict-Granted p min mintime (λ j lt. ground (arith, h j (omega arith) lt)) o

  -- `allocate_block` gives a frame as described by `Granted`, in every state of the pool: a frame
  -- that is free, or else the unpinned frame that was used longest ago, written back first.
  pub allocate_block-Granted : (p : Pool Disk) → Granted p (allocate_block os p)
  unfolding allocate_block
  allocate_block-Granted p =
      allocate_block-cases p _ _ (first_from-IsFirst _ bp_buffer_size 0 bp_buffer_size refl) (
        oldest-IsOldest p.frame bp_buffer_size 0 bp_buffer_size none refl
          (λ j lt. absurd (omega arith)))

  -- Why a page is not written: the seek to the start of the file failed, or the write did.
  abbrev pub IsUnwritten : Pool Disk → ℕ → Rc → Type 0
  IsUnwritten p i rc =
      let fd = (p.frame i).file_desc in
      let offset = (p.frame i).page.page_num * bp_page_size in
      ((rc ≡ ioerr_seek) × ((lseek p.disk fd offset).0 ≡ false) × (offset ≡ 0))
      ⊎ ((rc ≡ ioerr_write) × ((write (lseek p.disk fd offset).1 fd (p.frame i).page).0 ≡ false))

  -- Why no frame is given: every frame is allocated, and each is pinned, or the unpinned one that was
  -- used longest ago is dirty and cannot be written.
  abbrev pub Denied : Pool Disk → Rc × Option ℕ × Pool Disk → Type 0
  Denied p (rc, some i, p') = Unit {0}
  Denied p (rc, none, p') =
      ((j : ℕ) → j < bp_buffer_size → p.allocated j ≡ true)
      × (((rc ≡ nomem) × ((j : ℕ) → j < bp_buffer_size → (p.frame j).pin_count ≢ 0))
          ⊎ ((i : ℕ) × (i < bp_buffer_size)
              × ((p.frame i).pin_count ≡ 0)
              × ((p.frame i).dirty ≡ true)
              × IsUnwritten p i rc))

  flush_block-IsUnwritten :
      (p : Pool Disk) (i : ℕ)
      → is_success (flush_block os p i).0 ≡ false
      → IsUnwritten p i (flush_block os p i).0
  unfolding flush_block
  flush_block-IsUnwritten p i fails =
      let fd = (p.frame i).file_desc in
      let offset = (p.frame i).page.page_num * bp_page_size in
      elim (Bool-cases (not (lseek p.disk fd offset).0 && offset == 0)) [
        | inl failed ↦ rw failed (inl (refl, ground (arith, failed), ground (arith, failed)))
        | inr goes_on ↦ elim (Bool-cases (write (lseek p.disk fd offset).1 fd (p.frame i).page).0) [
          | inl written ↦ let q : true ≡ false = rw (goes_on, written) at fails in ground (arith, q)
          | inr short ↦ rw (goes_on, short) (inr (refl, refl))
        ]
      ]

  evict-Denied :
      (p : Pool Disk) (min mintime : ℕ)
      → ((j : ℕ) → j < bp_buffer_size → p.allocated j ≡ true)
      → IsOldest p.frame bp_buffer_size (some (min, mintime))
      → Denied p (evict os p min)
  unfolding evict
  evict-Denied p min mintime all h = elim (Bool-cases (p.frame min).dirty) [
    | inl dirty ↦ elim (Bool-cases (is_success (flush_block os p min).0)) [
      | inl done ↦ rw (dirty, done) tt
      | inr fails ↦
          rw (dirty, fails) (all, inr (min, h.0, h.1, dirty, flush_block-IsUnwritten p min fails))
    ]
    | inr clean ↦ rw clean tt
  ]

  allocate_block-Denied_cases :
      (p : Pool Disk) (r : Option ℕ) (best : Option (ℕ × ℕ))
      → IsFirst (λ i. not (p.allocated i)) 0 bp_buffer_size r
      → IsOldest p.frame bp_buffer_size best
      → Denied p (elim r [
        | some i ↦ (success, some i, record p { allocated = update p.allocated i true })
        | none ↦ elim best [ none ↦ (nomem, none, p) | some (min, mintime) ↦ evict os p min ]
      ])
  allocate_block-Denied_cases p (some i) best h o = tt
  allocate_block-Denied_cases p none none h o =
      (λ j lt. ground (arith, h j (omega arith) lt), inl (refl, o))
  allocate_block-Denied_cases p none (some (min, mintime)) h o =
      evict-Denied p min mintime (λ j lt. ground (arith, h j (omega arith) lt)) o

  -- In every state of the pool allocate_block either gives a frame that was not marked as allocated,
  -- pinned or not, or else, when all are, the unpinned frame that was used longest ago, whose page, if
  -- it was dirty and the seek succeeded, is in the file then; the frame is marked and every other frame
  -- is as it was. Or it gives none and changes no frame: every frame is marked, and the code is NOMEM
  -- and each is pinned, or it tells that the seek to the start of the file or the write of an unpinned
  -- dirty frame failed.
  pub allocate_block-Denied :
      (p : Pool Disk) → Granted p (allocate_block os p) × Denied p (allocate_block os p)
  unfolding allocate_block
  allocate_block-Denied p = (
    allocate_block-Granted p,
    allocate_block-Denied_cases p _ _ (first_from-IsFirst _ bp_buffer_size 0 bp_buffer_size refl) (
        oldest-IsOldest p.frame bp_buffer_size 0 bp_buffer_size none refl
          (λ j lt. absurd (omega arith))),
  )
