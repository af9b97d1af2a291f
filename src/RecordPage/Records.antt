-- ===== src/RecordPage/Records.antt =====
-- A valid page refines a map from slots to records: what insert, update, delete and get do to it.
use oceanbase.Base.{
  ℕ, ◌<◌, ◌≡◌, ◌≢◌, inl, inr, refl, sym, ◌∙◌, true, false, not, ◌||◌, Option, none, some, ◌==◌, ltb,
  ne→==, if◌then◌else◌, arith, Bool-cases, ==_iff,
}
use oceanbase.Base.Memory.{Memory, IsBytes, load, memcpy-IsBytes}
use oceanbase.Rc.{success, record_nomem}
use oceanbase.Bitmap.{get_bit, set_bit, next_unsetted_bit}
use oceanbase.Base.First.{IsFirst}
use oceanbase.Bitmap.Next.{next_unsetted_bit-IsFirst}
use oceanbase.Bitmap.Bits.{get_bit-set_bit, set_bit-IsBytes}
use oceanbase.RecordPage.{Page, record_data, inside_page, placed, insert_record}
use oceanbase.RecordPage.Count.{count_all, count_full, count_more}
use oceanbase.RecordPage.Invariant.{
  IsValid, record_at, get_bit-memcpy, load-set_bit, load-memcpy_self, load-memcpy_apart,
  bitmap-le-record_data, record_data_apart,
}

module _ (p : Page) (v : IsValid p) (slot : ℕ) (inside : slot < p.record_capacity) (bytes : Memory)
    (b : IsBytes bytes) where
  abbrev n : ℕ
  n = p.record_capacity

  -- The bits after a write of the record.
  get_bit-placed :
      (j : ℕ) → j < n → get_bit (placed p slot bytes).area j ≡ (slot == j || get_bit p.area j)
  unfolding placed
  get_bit-placed j lt =
      get_bit-memcpy (set_bit p.area slot) (record_data p.header slot) bytes p.record_real_size n j
        (bitmap-le-record_data v.laid_out slot) lt
      ∙ get_bit-set_bit p.area slot j v.bytes

  load-placed_self :
      load (placed p slot bytes).area (record_data p.header slot) p.record_real_size
      ≡ load bytes 0 p.record_real_size
  unfolding placed
  load-placed_self =
      load-memcpy_self (set_bit p.area slot) (record_data p.header slot) bytes p.record_real_size

  load-placed_other :
      (j : ℕ)
      → slot ≢ j
      → load (placed p slot bytes).area (record_data p.header j) p.record_real_size
        ≡ load p.area (record_data p.header j) p.record_real_size
  unfolding placed
  load-placed_other j ne =
      load-memcpy_apart (set_bit p.area slot) (record_data p.header slot) (record_data p.header j)
        bytes p.record_real_size (record_data_apart v.laid_out slot j ne)
      ∙ load-set_bit p.area (record_data p.header j) p.record_real_size n slot
          (bitmap-le-record_data v.laid_out j) inside

  record_at-placed :
      (j : ℕ)
      → record_at (placed p slot bytes) j
        ≡ (if slot == j then some (load bytes 0 p.record_real_size) else record_at p j)
  unfolding record_at placed
  record_at-placed j = elim (Bool-cases (slot == j)) [
    | inl here ↦
        let e : slot ≡ j = (==_iff slot j).0 here in
        ground (arith, get_bit-placed j, load-placed_self)
    | inr other ↦ elim (Bool-cases (ltb j n)) [
      | inl within ↦ ground (arith, get_bit-placed j, load-placed_other j)
      | inr out ↦ rw (out, other)
    ]
  ]

  placed-IsValid : get_bit p.area slot ≡ false → IsValid (placed p slot bytes)
  placed-IsValid free = record {
    laid_out =
        unfold placed in record { bitmap_below = v.laid_out.bitmap_below; fits = v.laid_out.fits };
    counted =
        unfold placed in
        ground (
          arith,
          v.counted,
          count_more (get_bit p.area) (get_bit (placed p slot bytes).area) slot n free
              get_bit-placed,
        );
    bytes =
        unfold placed in
        memcpy-IsBytes (set_bit p.area slot) (record_data p.header slot) bytes p.record_real_size
          (set_bit-IsBytes p.area slot v.bytes) b;
  }

-- On a page that is not full the bitmap has a clear bit, and the search finds the first.
first_free :
    (p : Page) (v : IsValid p) (r : Option ℕ)
    → p.record_num ≢ p.record_capacity
    → IsFirst (λ j. not (get_bit p.area j)) 0 p.record_capacity r
    → (slot : ℕ) × (r ≡ some slot)
      × (slot < p.record_capacity)
      × (get_bit p.area slot ≡ false)
      × ((j : ℕ) → j < slot → get_bit p.area j ≡ true)
first_free p v none room h = absurd (room (v.counted ∙ count_all _ _ (λ j lt. ground (arith, h j))))
first_free p v (some slot) room h =
    (slot, refl, h.1, ground (arith, h.2), λ j lt. ground (arith, h.3 j))

insert_record-eq :
    (p : Page) (bytes : Memory) (slot : ℕ)
    → p.record_num ≢ p.record_capacity
    → next_unsetted_bit p.area p.record_capacity 0 ≡ some slot
    → insert_record p bytes ≡ (
        if inside_page p.header slot
        then some
            (success, some (record { page_num = p.page_num; slot_num = slot }), placed p slot bytes)
        else none)
unfolding insert_record
insert_record-eq p bytes slot room e = rw (ne→== _ _ room) (rw e)

-- Insertion into a valid page that is not full takes the first slot that is not in use. If a record
-- there ends inside the page, it succeeds and returns the slot, which then holds the given bytes, all
-- other slots hold what they held, and the page is valid; else its behaviour is undefined.
pub insert_record-record_at :
    (p : Page) (bytes : Memory)
    → IsValid p
    → IsBytes bytes
    → p.record_num ≢ p.record_capacity
    → (slot : ℕ) × (q : Page) × (insert_record p bytes ≡ (
        if inside_page p.header slot
        then some (success, some (record { page_num = p.page_num; slot_num = slot }), q)
        else none))
      × IsValid q
      × (record_at p slot ≡ none)
      × ((j : ℕ) → j < slot → record_at p j ≢ none)
      × ((j : ℕ)
          → record_at q j
            ≡ (if slot == j then some (load bytes 0 p.record_real_size) else record_at p j))
insert_record-record_at p bytes v b room =
    let (slot, e, inside, free, before) =
      first_free p v _ room
        (next_unsetted_bit-IsFirst p.area v.bytes p.record_capacity 0 (inl refl)) in
    (
      slot,
      placed p slot bytes,
      insert_record-eq p bytes slot room e,
      placed-IsValid p v slot inside bytes b free,
      unfold record_at in ground (arith, free),
      λ j lt. unfold record_at in ground (arith, before j lt),
      record_at-placed p v slot inside bytes b,
    )

-- A page whose count is its capacity refuses the insertion and stays as it is; if it is valid, all
-- its slots are in use.
pub insert_record_full :
    (p : Page) (bytes : Memory)
    → IsValid p
    → p.record_num ≡ p.record_capacity
    → (insert_record p bytes ≡ some (record_nomem, none, p))
      × ((slot : ℕ) → slot < p.record_capacity → record_at p slot ≢ none)
insert_record_full p bytes v e = (
  unfold insert_record in ground arith,
  λ slot lt.
      unfold record_at in
      ground (arith, count_full (get_bit p.area) p.record_capacity slot (sym v.counted ∙ e) lt),
)
