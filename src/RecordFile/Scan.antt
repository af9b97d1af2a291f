-- ===== src/RecordFile/Scan.antt =====
-- A scan of a file: what `get_next_record` of RecordFileScanner returns.
use oceanbase.Base.{
  ℕ, zero, suc, ◌+◌, ◌-◌, ◌≡◌, ◌≢◌, ◌≤◌, ◌<◌, ◌⊎◌, inl, inr, refl, sym, ap, ◌∙◌, subst, Bool, true,
  false, Option, none, some, ◌==◌, ltb, if◌then◌else◌, arith, Bool-cases, ==_iff,
}
use oceanbase.Base.First.{IsFirst}
use oceanbase.Bitmap.{get_bit}
use oceanbase.Rc.{Rc, success, record_eof, bufferpool_invalid_page_num}
use oceanbase.RecordPage.{Page, Rid}
use oceanbase.RecordPage as RecordPage
use oceanbase.RecordPage.Invariant.{IsValid}
use oceanbase.RecordPage.Scan.{IsScanPlace, Found, get_next_record-Found}
use oceanbase.Pages.{Result, ok, err, out_of_rounds}
use oceanbase.RecordFile.{Records, after, before_first}
use oceanbase.RecordFile.{on_found, in_page}
use oceanbase.RecordFile.Moves.{Shows}

-- A place in the file that is not before another one.
abbrev pub Behind : ℕ → ℕ → ℕ → ℕ → Type 0
Behind page after n s = (page < n) ⊎ ((page ≡ n) × (after ≤ s))

-- The rounds of the loop for the pages that are left, of up to `most` slots each.
abbrev pub work : ℕ → ℕ → ℕ
work zero most = 0
work (suc pages) most = work pages most + (most + 2)

module _ (used : ℕ → Bool) (content : ℕ → Page) (keep : Page → ℕ → Bool) (count : ℕ) where
  -- A record that a scan is to return.
  abbrev pub Matches : ℕ → ℕ → Type 0
  Matches n s =
      (used n ≡ true)
      × (s < (content n).record_capacity)
      × (get_bit (content n).area s ≡ true)
      × (keep (content n) s ≡ true)

  -- The code at the end of the file.
  abbrev pub end_code : Rc
  end_code = if used (count - 1) then record_eof else bufferpool_invalid_page_num

  -- What a scan returns from a place on: the first record that matches; or a code, and none matches.
  abbrev pub ScanOutcome : ℕ → ℕ → Result Rid × Records → Type 0
  ScanOutcome page start (ok rid, f') =
      Shows used content f'
      × Matches rid.page_num rid.slot_num
      × Behind page start rid.page_num rid.slot_num
      × ((n s : ℕ) → Behind page start n s → Matches n s → Behind rid.page_num rid.slot_num n s)
  ScanOutcome page start (err rc, f') =
      Shows used content f'
      × (rc ≡ end_code)
      × ((n s : ℕ) → n < count → Behind page start n s → Matches n s → ⊥)
  ScanOutcome page start (out_of_rounds, f') = ⊥

  -- A scan from a later place, with no match before it.
  ScanOutcome-later :
      (page start page' start' : ℕ) (x : Result Rid × Records)
      → ((n s : ℕ) → Behind page start n s → Matches n s → Behind page' start' n s)
      → ((n s : ℕ) → Behind page' start' n s → Behind page start n s)
      → ScanOutcome page' start' x
      → ScanOutcome page start x
  ScanOutcome-later page start page' start' (ok rid, f') skip within o =
      (o.0, o.1, within rid.page_num rid.slot_num o.2, λ n s b m. o.3 n s (skip n s b m) m)
  ScanOutcome-later page start page' start' (err rc, f') skip within o =
      (o.0, o.1, λ n s lt b m. o.2 n s lt (skip n s b m) m)
  ScanOutcome-later page start page' start' (out_of_rounds, f') skip within o = o

  -- On the pages behind one, seen from that one.
  next_page :
      (p a n s : ℕ)
      → (Behind p a n s → p ≢ n → Behind (p + 1) 0 n s) × (Behind (p + 1) 0 n s → Behind p a n s)
  next_page p a n s = (
    λ b ne. elim b [
      | inl lt ↦ elim (Bool-cases (p + 1 == n)) [
        | inl e ↦ inr ((==_iff (p + 1) n).0 e, omega arith)
        | inr other ↦ inl (ground arith)
      ]
      | inr (e, le) ↦ absurd (ne e)
    ],
    λ b. elim b [ inl lt ↦ inl (omega arith) | inr (e, le) ↦ inl (omega arith) ],
  )

  Matches-here : (p n s : ℕ) → p ≡ n → Matches n s → Matches p s
  Matches-here p n s e m = subst (λ x. Matches x s) (sym e) m

  -- A page without a match from a place on.
  ScanOutcome-next_page :
      (p a : ℕ) (x : Result Rid × Records)
      → ((s : ℕ) → a ≤ s → Matches p s → ⊥)
      → ScanOutcome (p + 1) 0 x
      → ScanOutcome p a x
  ScanOutcome-next_page p a x none_here o =
      ScanOutcome-later p a (p + 1) 0 x
        (λ n s b m. elim b [
          | inl lt ↦ (next_page p a n s).0 (inl lt) (λ e. omega arith)
          | inr (e, le) ↦ absurd (none_here s le (Matches-here p n s e m))
        ])
        (λ n s b. (next_page p a n s).1 b) o

  -- The first used slot of a page from a place on is not behind any match.
  not_before :
      (p a slot n s : ℕ)
      → IsFirst (get_bit (content p).area) a (content p).record_capacity (some slot)
      → Behind p a n s
      → Matches n s
      → Behind p slot n s
  not_before p a slot n s first (inl lt) m = inl lt
  not_before p a slot n s first (inr (e, le)) m = elim (Bool-cases (ltb s slot)) [
    | inl lt ↦ ground (arith, first.3 s le (ground arith), (Matches-here p n s e m).2)
    | inr ge ↦ inr (e, ground arith)
  ]

  -- The rest of the page, where `up` does the rest of the file.
  pub in_page-ScanOutcome :
      (up : Rc → Rid → Records → Result Rid × Records) (rid : Rid) (is_here : Bool) (g : Records)
      → used rid.page_num ≡ is_here
      → Shows used content g
      → (used rid.page_num ≡ true → IsValid (content rid.page_num))
      → (used rid.page_num ≡ true → (content rid.page_num).page_num ≡ rid.page_num)
      → (used rid.page_num ≡ true → IsScanPlace (content rid.page_num) (after rid))
      → ((ret : Rc)
          → ret ≡ (if used rid.page_num then record_eof else bufferpool_invalid_page_num)
          → ScanOutcome (rid.page_num + 1) 0 (up ret (before_first (rid.page_num + 1)) g))
      → ((next : Rid)
          → used rid.page_num ≡ true
          → next.page_num ≡ rid.page_num
          → after rid ≤ next.slot_num
          → next.slot_num < (content rid.page_num).record_capacity
          → get_bit (content rid.page_num).area next.slot_num ≡ true
          → ScanOutcome next.page_num (next.slot_num + 1) (up success next g))
      → ScanOutcome rid.page_num (after rid) (in_page keep up rid is_here g)
  unfolding in_page
  in_page-ScanOutcome up rid false g here s valid number place later more =
      ScanOutcome-next_page rid.page_num (after rid) _ (λ slot le m. ground (arith, m.0, here))
        (later _ (rw here refl))
  in_page-ScanOutcome up rid true g here s valid number place later more =
      subst
        (λ (page : Page).
          ScanOutcome rid.page_num (after rid) (
            on_found keep up rid.page_num page ((RecordPage.get_next_record page (after rid)).1) g))
        (sym (ap (λ (c : ℕ → Page). c rid.page_num) s.1))
        (found _
          (get_next_record-Found (content rid.page_num) (after rid) (valid here) (place here)))
    where
      found :
          (r : Rc × Option Rid)
          → Found (content rid.page_num) (after rid) r
          → ScanOutcome rid.page_num
              (after rid)
              (on_found keep up rid.page_num (content rid.page_num) r.1 g)
      found (rc, none) h =
          ScanOutcome-next_page rid.page_num (after rid) _
            (λ slot le m. ground (arith, h.1 slot le m.1, m.2)) (later record_eof (rw here refl))
      found (rc, some next) h =
          let e = h.1 ∙ number here in
          elim (Bool-cases (keep (content rid.page_num) next.slot_num)) [
            | inl wanted ↦ rw wanted (
              s,
              Matches-here next.page_num rid.page_num next.slot_num e (here, h.2.1, h.2.2, wanted),
              inr (sym e, h.2.0),
              λ n slot b m.
                  subst (λ p. Behind p next.slot_num n slot) (sym e)
                    (not_before rid.page_num (after rid) next.slot_num n slot h.2 b m),
            )
            | inr other ↦ rw other (
                ScanOutcome-later rid.page_num (after rid) next.page_num (next.slot_num + 1) _
                  (λ n slot b m.
                    elim (not_before rid.page_num (after rid) next.slot_num n slot h.2 b m) [
                      | inl lt ↦ inl (omega arith)
                      | inr (q, le) ↦ elim (Bool-cases (next.slot_num == slot)) [
                        | inl is_it ↦
                            let m' = (Matches-here rid.page_num n slot q m).3 in
                            let same = (==_iff next.slot_num slot).0 is_it in
                            ground (
                              arith,
                              subst (λ x. keep (content rid.page_num) x ≡ true) (sym same) m',
                              other,
                            )
                        | inr later_one ↦ inr (e ∙ q, ground arith)
                      ]
                    ])
                  (λ n slot b. elim b [
                    | inl lt ↦ inl (omega arith)
                    | inr (q, le) ↦ inr (sym e ∙ q, omega (arith, h.2.0))
                  ])
                  (more next here e h.2.0 h.2.1 h.2.2))
          ]
