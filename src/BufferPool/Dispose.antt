-- ===== src/BufferPool/Dispose.antt =====
-- `dispose_page` of disk_buffer_pool.cpp: the frames of a page that is given up.
use oceanbase.Base.{
  ℕ, zero, suc, ◌+◌, ◌≡◌, ◌≤◌, ◌<◌, inl, inr, refl, sym, ◌∙◌, subst, Bool, true, false, not, ◌&&◌,
  some, ◌==◌, arith, Bool-cases, ==_refl, ==_iff,
}
use oceanbase.Rc.{is_success}
use oceanbase.BufferPool.{
  bp_buffer_size, Pool, FileHandle, update, mark_header_dirty, touch_file, check_page_num,
  drop_frames, uncount_page, dispose_page, open_file_at,
}
use oceanbase.BufferPool.Files.{Os}

-- A frame in use that holds a page of a file.
abbrev pub holds : {Disk : Type 0} → Pool Disk → FileHandle → ℕ → ℕ → Bool
holds p fh page_num i =
    p.allocated i
    && ((p.frame i).file_desc == fh.file_desc && (p.frame i).page.page_num == page_num)

module _ (os : Os) where
  open os use {Disk}

  drop_frames-frame :
      (rounds i : ℕ) (p : Pool Disk) (fh : FileHandle) (page_num : ℕ)
      → (drop_frames os rounds i p fh page_num).1.frame ≡ p.frame
  unfolding drop_frames
  drop_frames-frame zero i p fh page_num = refl
  drop_frames-frame (suc rounds) i p fh page_num =
      let kept = drop_frames-frame rounds (i + 1) p fh page_num in
      let dropped =
        drop_frames-frame rounds (i + 1) (record p { allocated = update p.allocated i false }) fh
          page_num in
      ground (arith, kept, dropped)

  drop_frames-shrinks :
      (rounds i : ℕ) (p : Pool Disk) (fh : FileHandle) (page_num j : ℕ)
      → p.allocated j ≡ false
      → (drop_frames os rounds i p fh page_num).1.allocated j ≡ false
  unfolding drop_frames
  drop_frames-shrinks zero i p fh page_num j h = h
  drop_frames-shrinks (suc rounds) i p fh page_num j h =
      let kept = drop_frames-shrinks rounds (i + 1) p fh page_num j h in
      let p' : Pool Disk = record p { allocated = update p.allocated i false } in
      let dropped = drop_frames-shrinks rounds (i + 1) p' fh page_num j (ground (arith, h)) in
      ground (arith, kept, dropped, h)

  abbrev holds_pinned : Pool Disk → FileHandle → ℕ → ℕ → Bool
  holds_pinned p fh page_num j = holds p fh page_num j && not ((p.frame j).pin_count == 0)

  drop_frames-holds :
      (rounds i : ℕ) (p : Pool Disk) (fh : FileHandle) (page_num j : ℕ)
      → holds p fh page_num j ≡ false
      → holds (drop_frames os rounds i p fh page_num).1 fh page_num j ≡ false
  drop_frames-holds rounds i p fh page_num j h =
      let same = drop_frames-frame rounds i p fh page_num in
      elim (Bool-cases (p.allocated j)) [
        | inl busy ↦ rw same (ground (arith, busy, h))
        | inr free ↦ rw (drop_frames-shrinks rounds i p fh page_num j free) refl
      ]

  drop_frames-dropped :
      (rounds i : ℕ) (p : Pool Disk) (fh : FileHandle) (page_num j : ℕ)
      → is_success (drop_frames os rounds i p fh page_num).0 ≡ true
      → i ≤ j
      → j < i + rounds
      → (holds (drop_frames os rounds i p fh page_num).1 fh page_num j ≡ false)
        × (holds_pinned p fh page_num j ≡ false)
  unfolding drop_frames
  drop_frames-dropped zero i p fh page_num j ok le lt = absurd (omega arith)
  drop_frames-dropped (suc rounds) i p fh page_num j ok le lt =
      let freed : Pool Disk = record p { allocated = update p.allocated i false } in
      elim (Bool-cases (holds p fh page_num i)) [
        | inr other ↦ rw other (elim (Bool-cases (i == j)) [
          | inl here ↦
              let none_here =
                subst (λ k. holds p fh page_num k ≡ false) ((==_iff i j).0 here) other in
              (drop_frames-holds rounds (i + 1) p fh page_num j none_here, rw none_here refl)
          | inr after ↦
              drop_frames-dropped rounds (i + 1) p fh page_num j (rw other at ok)
                (ground (arith, after)) (omega arith)
        ])
        | inl ours ↦ elim (Bool-cases ((p.frame i).pin_count == 0)) [
          | inr pinned ↦ absurd (ground (arith, ok, ours, pinned))
          | inl free ↦
              rw (ours, free)
                (elim (Bool-cases (i == j)) [
                  | inl here ↦
                      let e : i ≡ j = (==_iff i j).0 here in
                      (
                        rw (drop_frames-shrinks rounds (i + 1) freed fh page_num j (rw here refl))
                            refl,
                        subst (λ k. holds_pinned p fh page_num k ≡ false) e (ground (arith, free)),
                      )
                  | inr after ↦
                      let ih =
                        drop_frames-dropped rounds (i + 1) freed fh page_num j
                          (rw (ours, free) at ok) (ground (arith, after)) (omega arith) in
                      (ih.0, rw after at ih.1)
                ])
        ]
      ]

  uncount_page-holds :
      (p : Pool Disk) (fh : FileHandle) (page_num n j : ℕ)
      → holds (uncount_page os p fh page_num) fh n j ≡ holds p fh n j
  unfolding uncount_page mark_header_dirty
  uncount_page-holds p fh page_num n j = elim (Bool-cases (fh.hdr_frame == j)) [
    | inl here ↦
        let e = (==_iff fh.hdr_frame j).0 here in rw here (rw (==_refl fh.hdr_frame, sym e) refl)
    | inr there ↦ rw there refl
  ]

  -- When `dispose_page` succeeds on an open file, no frame of the pool is in use for the page any more,
  -- and none that was in use for it was pinned.
  pub dispose_page-dropped :
      (p : Pool Disk) (file_id page_num : ℕ) (fh : FileHandle) (j : ℕ)
      → open_file_at os p file_id ≡ some fh
      → is_success (dispose_page os p file_id page_num).0 ≡ true
      → j < bp_buffer_size
      → (holds (dispose_page os p file_id page_num).1 fh page_num j ≡ false)
        × ((holds p fh page_num j && not ((p.frame j).pin_count == 0)) ≡ false)
  unfolding dispose_page touch_file
  dispose_page-dropped p file_id page_num fh j opened ok lt =
      let p1 = touch_file os p file_id in
      let dropped = drop_frames os bp_buffer_size 0 p1 fh page_num in
      let ok1 = rw (opened, dispose_page) at ok in
      elim (Bool-cases (is_success (check_page_num os p1 page_num fh))) [
        | inr bad ↦ absurd (ground (arith, rw bad at ok1, bad))
        | inl good ↦ elim (Bool-cases (is_success dropped.0)) [
          | inr failed ↦ absurd (ground (arith, rw (good, failed) at ok1, failed))
          | inl done ↦
              let gone =
                drop_frames-dropped bp_buffer_size 0 p1 fh page_num j done (omega arith) lt in
              rw (opened, dispose_page)
                (rw (good, done)
                  (uncount_page-holds dropped.1 fh page_num page_num j ∙ gone.0, gone.1))
        ]
      ]
