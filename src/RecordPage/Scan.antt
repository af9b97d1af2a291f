-- ===== src/RecordPage/Scan.antt =====
-- Going through the records of a page with `get_first_record` and `get_next_record`.
use oceanbase.Base.{
  ℕ, zero, suc, ◌+◌, ◌-◌, ◌/◌, ◌%◌, ◌≤◌, ◌<◌, ◌≡◌, ◌⊎◌, inl, inr, refl, true, false, Option, none,
  some, List, [], ◌∷◌, ◌==◌, leb, ==_iff, if◌then◌else◌, arith, Bool-cases, sym,
}
use oceanbase.Base.Memory.{Memory}
use oceanbase.Rc.{Rc, success, record_eof}
use oceanbase.Bitmap.{get_bit}
use oceanbase.Base.First.{IsFirst}
use oceanbase.Bitmap.Bits.{bit_of_zero}
use oceanbase.Bitmap.Next.{next_setted_bit-IsFirst}
use oceanbase.RecordPage.{Page, Rid, get_next_record}
use oceanbase.RecordPage.Invariant.{IsValid}

-- The byte of a set bit is not zero.
byte_of_set : (m : Memory) (j : ℕ) → get_bit m j ≡ true → (m (j / 8) == 0) ≡ false
unfolding get_bit
byte_of_set m j e = elim (Bool-cases (m (j / 8) == 0)) [
  | inl z ↦
      let y : m (j / 8) ≡ 0 = (==_iff _ _).0 z in ground (arith, bit_of_zero (j % 8) (omega arith))
  | inr nz ↦ nz
]

-- A scan stands at the front of the page or behind a record.
abbrev pub IsScanPlace : Page → ℕ → Type 0
IsScanPlace p after = (after ≡ 0) ⊎ ((s : ℕ) × (after ≡ s + 1) × (get_bit p.area s ≡ true))

scan_start :
    (p : Page) (after : ℕ)
    → IsScanPlace p after
    → (after % 8 ≡ 0) ⊎ ((p.area (after / 8) == 0) ≡ false)
scan_start p after (inl z) = inl (omega arith)
scan_start p after (inr (s, e, set)) = elim (Bool-cases (after % 8 == 0)) [
  | inl edge ↦ inl (ground arith)
  | inr within ↦ let d : after / 8 ≡ s / 8 = ground arith in inr (rw d (byte_of_set p.area s set))
]

-- What a scan finds from a place on: the first slot in use, or the end of the page.
abbrev pub Found : Page → ℕ → Rc × Option Rid → Type 0
Found p after (rc, some rid) =
    (rc ≡ success)
    × (rid.page_num ≡ p.page_num)
    × IsFirst (get_bit p.area) after p.record_capacity (some rid.slot_num)
Found p after (rc, none) = (rc ≡ record_eof) × IsFirst (get_bit p.area) after p.record_capacity none

Found-next :
    (p : Page) (after : ℕ) (r : Option ℕ)
    → IsFirst (get_bit p.area) after p.record_capacity r
    → Found p after (elim r [
      | none ↦ (record_eof, none)
      | some index ↦ (success, some (record { page_num = p.page_num; slot_num = index }))
    ])
Found-next p after none h = (refl, h)
Found-next p after (some i) h = (refl, refl, h)

-- On a valid page, from the front or behind a record, `get_next_record` returns the first slot in
-- use from there on, and RECORD_EOF exactly if there is none.
pub get_next_record-Found :
    (p : Page) (after : ℕ)
    → IsValid p
    → IsScanPlace p after
    → Found p after (get_next_record p after)
unfolding get_next_record
get_next_record-Found p after v place = elim (Bool-cases (leb p.record_capacity after)) [
  | inl past ↦ rw past (refl, λ j le lt. absurd (ground arith))
  | inr inside ↦ rw inside (
      Found-next p after _
        (next_setted_bit-IsFirst p.area v.bytes p.record_capacity after (scan_start p after place)))
]

-- The slots that repeated calls return, with `fuel` calls at most.
pub scan_page : ℕ → Page → ℕ → List ℕ
scan_page zero p after = []
scan_page (suc fuel) p after = elim (get_next_record p after).1 [
  | none ↦ []
  | some rid ↦ rid.slot_num ∷ scan_page fuel p (rid.slot_num + 1)
]

-- The slots in use among the `n` from `i` on, in order.
unfoldable pub used_slots : Page → ℕ → ℕ → List ℕ
used_slots p zero i = []
used_slots p (suc n) i =
    if get_bit p.area i then i ∷ used_slots p n (i + 1) else used_slots p n (i + 1)

used_slots-none :
    (p : Page) (n i : ℕ) → IsFirst (get_bit p.area) i (i + n) none → used_slots p n i ≡ []
unfolding used_slots
used_slots-none p zero i h = refl
used_slots-none p (suc n) i h =
    rw (h i (omega arith) (omega arith))
      (used_slots-none p n (i + 1) (λ j le lt. h j (omega arith) (omega arith)))

used_slots-some :
    (p : Page) (n i k m : ℕ)
    → k + suc m ≡ i + n
    → IsFirst (get_bit p.area) i (i + n) (some k)
    → used_slots p n i ≡ k ∷ used_slots p m (k + 1)
unfolding used_slots
used_slots-some p zero i k m e h = absurd (omega (arith, h.0))
used_slots-some p (suc n) i k m e h = elim (Bool-cases (i == k)) [
  | inl here ↦
      let a : k ≡ i = ground arith in let b : m ≡ n = omega arith in rw (a, b) (rw (← a) (rw (h.2)))
  | inr later ↦ rw (h.3 i (omega arith) (ground (arith, h.0))) (
      used_slots-some p n (i + 1) k m (omega arith)
        (ground (arith, h.0), omega (arith, h.1), h.2, λ j le lt. h.3 j (omega arith) lt))
]

Found-slots :
    (p : Page) (after n fuel : ℕ) (r : Rc × Option Rid)
    → after + n ≡ p.record_capacity
    → Found p after r
    → ((k : ℕ)
        → after ≤ k
        → k < p.record_capacity
        → get_bit p.area k ≡ true
        → scan_page fuel p (k + 1) ≡ used_slots p (p.record_capacity - (k + 1)) (k + 1))
    → (elim (r.1) [ none ↦ [] | some rid ↦ rid.slot_num ∷ scan_page fuel p (rid.slot_num + 1) ])
      ≡ used_slots p n after
Found-slots p after n fuel (rc, none) e h ih = sym (used_slots-none p n after (rw e h.1))
Found-slots p after n fuel (rc, some rid) e h ih = rw (ih rid.slot_num h.2.0 h.2.1 h.2.2) (
    sym (
      used_slots-some p n after rid.slot_num (p.record_capacity - (rid.slot_num + 1))
        (omega (arith, h.2.1)) (rw e h.2)))

-- Repeated calls from the front of a valid page, capacity + 1 of them at most, return the slots in
-- use, each once and in order, and then the end of the page.
pub scan_page-used_slots :
    (p : Page) (fuel after : ℕ)
    → IsValid p
    → IsScanPlace p after
    → after ≤ p.record_capacity
    → p.record_capacity < after + fuel
    → scan_page fuel p after ≡ used_slots p (p.record_capacity - after) after
unfolding scan_page
scan_page-used_slots p zero after v place le f = absurd (omega arith)
scan_page-used_slots p (suc fuel) after v place le f =
    Found-slots p after (p.record_capacity - after) fuel (get_next_record p after) (omega arith)
      (get_next_record-Found p after v place)
      λ k ge lt used.
        scan_page-used_slots p fuel (k + 1) v (inr (k, refl, used)) (omega arith) (omega arith)
