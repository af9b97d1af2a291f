-- ===== src/BufferPool/Release.antt =====
-- `force_all_pages` of disk_buffer_pool.cpp: the frames of a file are given back.
use oceanbase.Base.{
  ℕ, zero, suc, ◌+◌, ◌≡◌, ◌≤◌, ◌<◌, inl, inr, refl, ◌∙◌, Bool, true, false, ◌&&◌, some, ◌==◌, arith,
  Bool-cases, subst, ==_iff, ==_refl,
}
use oceanbase.Rc.{is_success}
use oceanbase.BufferPool.{
  bp_buffer_size, Pool, FileHandle, flush_block, force_frame, force_all_pages, flush_all_pages,
  open_file_at,
}
use oceanbase.BufferPool.Files.{Os}

-- A frame in use that belongs to a file.
abbrev pub belongs : {Disk : Type 0} → Pool Disk → FileHandle → ℕ → Bool
belongs p fh i = p.allocated i && ((p.frame i).file_desc == fh.file_desc)

-- What a step over the frames keeps: the file, the pin count and the page of every frame; only frames
-- of the file go out of use.
pub record Forced {Disk : Type 0} (p p' : Pool Disk) : Type 0 where
  pub file : (j : ℕ) → (p'.frame j).file_desc ≡ (p.frame j).file_desc
  pub pins : (j : ℕ) → (p'.frame j).pin_count ≡ (p.frame j).pin_count
  pub page : (j : ℕ) → (p'.frame j).page ≡ (p.frame j).page
  pub shrinks : (j : ℕ) → p.allocated j ≡ false → p'.allocated j ≡ false

Forced-trans : {Disk : Type 0} {p q r : Pool Disk} → Forced p q → Forced q r → Forced p r
Forced-trans a b = record {
  file = λ j. b.file j ∙ a.file j;
  pins = λ j. b.pins j ∙ a.pins j;
  page = λ j. b.page j ∙ a.page j;
  shrinks = λ j h. b.shrinks j (a.shrinks j h);
}

Forced-belongs :
    {Disk : Type 0} {p q : Pool Disk}
    → Forced p q
    → (fh : FileHandle) (j : ℕ) → belongs p fh j ≡ false
    → belongs q fh j ≡ false
Forced-belongs {p = p} {q = q} a fh j h = elim (Bool-cases (p.allocated j)) [
  | inl busy ↦ rw (a.file j) (ground (arith, h, busy))
  | inr free ↦ rw (a.shrinks j free) refl
]

module _ (os : Os) where
  open os use {Disk}

  force_frame-Forced : (p : Pool Disk) (i : ℕ) → Forced p (force_frame os p i).1
  unfolding force_frame flush_block
  force_frame-Forced p i = record {
    file = λ j. ground arith;
    pins = λ j. ground arith;
    page = λ j. ground arith;
    shrinks = λ j h. ground arith;
  }

  force_frame-free :
      (p : Pool Disk) (i : ℕ)
      → is_success (force_frame os p i).0 ≡ true
      → (force_frame os p i).1.allocated i ≡ false
  unfolding force_frame flush_block
  force_frame-free p i = ground (arith, ==_refl i)

  force_all_pages-Forced :
      (rounds i : ℕ) (p : Pool Disk) (fh : FileHandle)
      → Forced p (force_all_pages os rounds i p fh).1
  unfolding force_all_pages
  force_all_pages-Forced zero i p fh = record {
    file = λ j. refl;
    pins = λ j. refl;
    page = λ j. refl;
    shrinks = λ j h. h;
  }
  force_all_pages-Forced (suc rounds) i p fh =
      let step = force_frame-Forced p i in
      let forced = force_all_pages-Forced rounds (i + 1) (force_frame os p i).1 fh in
      elim (Bool-cases (belongs p fh i)) [
        | inr other ↦ rw other (force_all_pages-Forced rounds (i + 1) p fh)
        | inl ours ↦ elim (Bool-cases (is_success (force_frame os p i).0)) [
          | inl done ↦ rw (ours, done) (Forced-trans step forced)
          | inr failed ↦ rw (ours, failed) step
        ]
      ]

  force_all_pages-free :
      (rounds i : ℕ) (p : Pool Disk) (fh : FileHandle) (j : ℕ)
      → is_success (force_all_pages os rounds i p fh).0 ≡ true
      → i ≤ j
      → j < i + rounds
      → belongs (force_all_pages os rounds i p fh).1 fh j ≡ false
  unfolding force_all_pages
  force_all_pages-free zero i p fh j ok le lt = absurd (omega arith)
  force_all_pages-free (suc rounds) i p fh j ok le lt = elim (Bool-cases (belongs p fh i)) [
    | inr other ↦ rw other (elim (Bool-cases (i == j)) [
      | inl here ↦
          Forced-belongs (force_all_pages-Forced rounds (i + 1) p fh) fh j
            (subst (λ k. belongs p fh k ≡ false) ((==_iff i j).0 here) other)
      | inr after ↦
          force_all_pages-free rounds (i + 1) p fh j (rw other at ok) (ground (arith, after))
            (omega arith)
    ])
    | inl ours ↦ elim (Bool-cases (is_success (force_frame os p i).0)) [
      | inr failed ↦ absurd (ground (arith, ok, ours, failed))
      | inl done ↦
          rw (ours, done)
            (elim (Bool-cases (i == j)) [
              | inl here ↦
                  Forced-belongs (force_all_pages-Forced rounds (i + 1) (force_frame os p i).1 fh)
                    fh j
                    (subst (λ k. belongs (force_frame os p i).1 fh k ≡ false) ((==_iff i j).0 here)
                      (rw (force_frame-free p i done) refl))
              | inr after ↦
                  force_all_pages-free rounds (i + 1) (force_frame os p i).1 fh j
                    (rw (ours, done) at ok) (ground (arith, after)) (omega arith)
            ])
    ]
  ]

  -- When `flush_all_pages` succeeds on an open file, each of the pool's frames, pinned or not, is out of
  -- use if the file owns it, and keeps its owner, its pin count and its page.
  pub flush_all_pages-released :
      (p : Pool Disk) (file_id : ℕ) (fh : FileHandle) (j : ℕ)
      → open_file_at os p file_id ≡ some fh
      → is_success (flush_all_pages os p file_id).0 ≡ true
      → j < bp_buffer_size
      → (belongs (flush_all_pages os p file_id).1 fh j ≡ false)
        × (((flush_all_pages os p file_id).1.frame j).file_desc ≡ (p.frame j).file_desc)
        × (((flush_all_pages os p file_id).1.frame j).pin_count ≡ (p.frame j).pin_count)
        × (((flush_all_pages os p file_id).1.frame j).page ≡ (p.frame j).page)
  unfolding flush_all_pages
  flush_all_pages-released p file_id fh j opened ok lt =
      let forced = force_all_pages-Forced bp_buffer_size 0 p fh in
      let ok' = rw (opened, flush_all_pages) at ok in
      rw (opened, flush_all_pages)
        (
          force_all_pages-free bp_buffer_size 0 p fh j ok' (omega arith) lt,
          forced.file j,
          forced.pins j,
          forced.page j,
        )
