-- ===== src/RecordFile/NextRecord.antt =====
-- `get_next_record` of RecordFileScanner: the loop over the pages of a file.
use oceanbase.Base.{
  ℕ, zero, suc, ◌+◌, ◌-◌, ◌^◌, ◌≡◌, ◌≤◌, ◌<◌, ◌⊎◌, inl, inr, refl, sym, ap, ◌∙◌, subst, Bool, true,
  false, ◌==◌, ltb, if◌then◌else◌, arith, Bool-cases, ==_iff,
}
use oceanbase.Bitmap.{get_bit}
use oceanbase.Rc.{Rc, success, record_eof, bufferpool_invalid_page_num, is_success}
use oceanbase.RecordPage.{Page, Rid}
use oceanbase.RecordPage.Invariant.{IsValid}
use oceanbase.RecordPage.Scan.{IsScanPlace}
use oceanbase.Pages.{Result, ok, err, out_of_rounds, continue}
use oceanbase.Pages.Laws.{IsReady}
use oceanbase.RecordFile.{Records, after, before_first, move_to, next_in_pages, get_next_record}
use oceanbase.RecordFile.{in_page}
use oceanbase.RecordFile.Moves.{Shows, IsHandle, MoveOutcome, move_to-MoveOutcome}
use oceanbase.RecordFile.Scan.{end_code, ScanOutcome, work, in_page-ScanOutcome}

-- Every page in use but the first, which is the header of the file, is a valid page of records with its number, and of `most` slots at most.
abbrev pub IsFile : (ℕ → Bool) → (ℕ → Page) → ℕ → Type 0
IsFile used content most =
    (n : ℕ)
    → 0 < n
    → used n ≡ true
    → IsValid (content n) × ((content n).page_num ≡ n) × ((content n).record_capacity ≤ most)

after_slot : (next : Rid) → next.slot_num < 2 ^ 32 - 1 → after next ≡ next.slot_num + 1
after_slot next h = ground arith

after_first : (n : ℕ) → after (before_first n) ≡ 0
after_first n = refl

module _ (answer : Records → ℕ → Rc) (ready : IsReady answer) (keep : Page → ℕ → Bool)
    (used : ℕ → Bool) (content : ℕ → Page) (count most : ℕ) (file : IsFile used content most)
    (small : most < 2 ^ 32 - 1) where
  -- The code at the end, when a round goes past the last page.
  abbrev IsRet : ℕ → Rc → Type 0
  IsRet left ret = left ≡ 0 → ret ≡ end_code used content keep count

  end_code-fails : is_success (end_code used content keep count) ≡ false
  end_code-fails = elim (Bool-cases (used (count - 1))) [ inl e ↦ rw e refl | inr e ↦ rw e refl ]

  -- What the rounds of the loop come to from any state of it.
  abbrev Rounds : ℕ → (Rc → Rid → Records → Result Rid × Records) → Type 0
  Rounds rounds up =
      (left : ℕ) (f : Records) (ret : Rc) (rid : Rid)
      → 0 < rounds
      → work left most < rounds + after rid
      → after rid ≤ most + 1
      → 0 < rid.page_num
      → rid.page_num + left ≡ count
      → (used rid.page_num ≡ true → IsScanPlace (content rid.page_num) (after rid))
      → IsRet left ret
      → Shows used content f
      → IsHandle used content f.handler
      → ScanOutcome used content keep count rid.page_num (after rid) (up ret rid f)

  -- One round, behind the move to the page.
  round-ScanOutcome :
      (rounds left : ℕ) (up : Rc → Rid → Records → Result Rid × Records) (rid : Rid)
      (x : Result Bool × Records)
      → Rounds rounds up
      → work (suc left) most < suc rounds + after rid
      → after rid ≤ most + 1
      → 0 < rid.page_num
      → rid.page_num + suc left ≡ count
      → (used rid.page_num ≡ true → IsScanPlace (content rid.page_num) (after rid))
      → MoveOutcome used content rid.page_num x
      → ScanOutcome used content keep count rid.page_num
          (after rid)
          (continue x (in_page keep up rid))
  round-ScanOutcome rounds left up rid (ok is_here, g) ih w a front p place o =
      in_page-ScanOutcome used content keep count up rid is_here g o.0 o.1
        (λ u. (file rid.page_num front u).0) (λ u. (file rid.page_num front u).1) place
        (λ ret e.
          let last : IsRet left ret = λ z.
            let q : rid.page_num ≡ count - 1 = omega arith in
            e ∙ ap (λ n. if used n then record_eof else bufferpool_invalid_page_num) q in
          ih left g ret (before_first (rid.page_num + 1)) (omega arith) (omega arith) (omega arith)
            (omega arith) (omega arith) (λ u. inl refl) last o.1 o.2)
        (λ next u e ge lt set.
          let few = (file rid.page_num front u).2 in
          let at = after_slot next (omega arith) in
          subst
            (λ start. ScanOutcome used content keep count next.page_num start (up success next g))
            at
            (ih (suc left) g success next (omega arith) (omega arith) (omega arith) (omega arith)
              (omega arith)
              (λ v. inr (
                next.slot_num,
                at,
                subst (λ n. get_bit (content n).area next.slot_num ≡ true) (sym e) set,
              ))
              (λ z. absurd (omega arith)) o.1 o.2))
  round-ScanOutcome rounds left up rid (err rc, g) ih w a front p place o = absurd o
  round-ScanOutcome rounds left up rid (out_of_rounds, g) ih w a front p place o = absurd o

  next_in_pages-ScanOutcome : (rounds : ℕ) → Rounds rounds (next_in_pages answer keep rounds count)
  unfolding next_in_pages
  next_in_pages-ScanOutcome (suc rounds) zero f ret rid go w a front p place r s h =
      let past : ltb rid.page_num count ≡ false = ground arith in
      rw (past, r refl, end_code-fails)
        (s, refl, λ n slot lt b m. elim b [ inl lt' ↦ omega arith | inr (e, le) ↦ omega arith ])
  next_in_pages-ScanOutcome (suc rounds) (suc left) f ret rid go w a front p place r s h =
      let inside : ltb rid.page_num count ≡ true = ground arith in
      rw inside (
        round-ScanOutcome rounds left (next_in_pages answer keep rounds count) rid
          (move_to answer rid.page_num f) (next_in_pages-ScanOutcome rounds) w a front p place
          (move_to-MoveOutcome used content answer f rid.page_num ready s h))
  next_in_pages-ScanOutcome zero left f ret rid go w a front p place r s h = ground arith

-- A scan at a place of a file, at the front of a page or behind a record, where the pages in use are
-- valid pages of records, the pool has room, and the rounds are more than the slots of the pages that
-- are left and two for each page: `get_next_record` ends. It returns the first record in use from
-- there on that passes the filter, by page and slot; or a code, and no record is left that passes.
-- The code is RECORD_EOF when the last page of the file is in use, and else
-- BUFFERPOOL_INVALID_PAGE_NUM. No page is changed.
pub get_next_record-ScanOutcome :
    (answer : Records → ℕ → Rc) (keep : Page → ℕ → Bool) (most rounds : ℕ) (f : Records) (rid : Rid)
    → IsReady answer
    → f.in_use 0 ≡ true
    → IsFile f.in_use f.content most
    → most < 2 ^ 32 - 1
    → IsHandle f.in_use f.content f.handler
    → 0 < rid.page_num
    → (rid.page_num < f.page_count) ⊎ (f.page_count ≡ 1)
    → (f.in_use rid.page_num ≡ true → IsScanPlace (f.content rid.page_num) (after rid))
    → after rid ≤ most + 1
    → work (f.page_count - rid.page_num) most < rounds
    → ScanOutcome f.in_use f.content keep f.page_count rid.page_num
        (after rid)
        (get_next_record answer keep rounds rid f)
unfolding get_next_record
get_next_record-ScanOutcome answer keep most rounds f rid ready header file small h front p place a
      w =
    elim (Bool-cases (f.page_count == 1)) [
      | inl empty ↦
          let e = (==_iff f.page_count 1).0 empty in
          let zero_th : 0 ≡ f.page_count - 1 = omega arith in
          let u = subst (λ n. f.in_use n ≡ true) zero_th header in
          rw (empty, u)
            (
              (refl, refl),
              refl,
              λ n s lt b m. elim b [ inl lt' ↦ omega arith | inr (q, le) ↦ omega arith ],
            )
      | inr pages ↦
          let inside : rid.page_num < f.page_count = ground (arith, p) in
          rw pages (
            next_in_pages-ScanOutcome answer ready keep f.in_use f.content f.page_count most file
              small rounds (f.page_count - rid.page_num) f success rid (omega arith) (omega arith) a
              front (omega arith) place (λ z. absurd (omega arith)) (refl, refl) h)
    ]
