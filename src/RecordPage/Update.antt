-- ===== src/RecordPage/Update.antt =====
-- What `update_record`, `delete_record` and `get_record` do to the records of a valid page.
use oceanbase.Base.{
  ◌↔◌, ℕ, ◌+◌, ◌-◌, ◌<◌, ◌≡◌, ◌≢◌, inl, inr, refl, sym, ◌∙◌, Bool, true, false, not, ◌&&◌, Option,
  none, some, ◌==◌, leb, ltb, if◌then◌else◌, arith, Bool-cases, ==_iff,
}
use oceanbase.Base.Memory.{Memory, IsBytes, memcpy, load, memcpy-IsBytes}
use oceanbase.Rc.{Rc, success, invalid_argument, record_record_not_exist}
use oceanbase.Bitmap.{get_bit, clear_bit}
use oceanbase.Bitmap.Bits.{get_bit-clear_bit, clear_bit-IsBytes}
use oceanbase.RecordPage.{Page, record_data, inside_page, update_record, delete_record, get_record}
use oceanbase.RecordPage.Count.{count, count_zero, count_none, count-ext, count_less}
use oceanbase.RecordPage.Invariant.{
  IsValid, record_at, get_bit-memcpy, load-clear_bit, load-memcpy_self, load-memcpy_apart,
  bitmap-le-record_data, record_data_apart,
}

-- Whether a slot holds a record.
abbrev pub in_use : Page → ℕ → Bool
in_use p slot = ltb slot p.record_capacity && get_bit p.area slot

module _ (p : Page) (v : IsValid p) (slot : ℕ) (bytes : Memory) where
  overwritten : Page
  overwritten = record p {
    area = memcpy p.area (record_data p.header slot) bytes p.record_real_size;
  }

  get_bit-overwritten :
      (j : ℕ) → j < p.record_capacity → get_bit overwritten.area j ≡ get_bit p.area j
  unfolding overwritten
  get_bit-overwritten j lt =
      get_bit-memcpy p.area (record_data p.header slot) bytes p.record_real_size p.record_capacity j
        (bitmap-le-record_data v.laid_out slot) lt

  load-overwritten :
      (j : ℕ)
      → load overwritten.area (record_data p.header j) p.record_real_size ≡ (
          if slot == j
          then load bytes 0 p.record_real_size
          else load p.area (record_data p.header j) p.record_real_size)
  unfolding overwritten
  load-overwritten j = elim (Bool-cases (slot == j)) [
    | inl here ↦
        let e : slot ≡ j = (==_iff slot j).0 here in
        rw (here, ← e)
          (load-memcpy_self p.area (record_data p.header slot) bytes p.record_real_size)
    | inr other ↦ rw other (
        load-memcpy_apart p.area (record_data p.header slot) (record_data p.header j) bytes
          p.record_real_size (record_data_apart v.laid_out slot j (ground arith)))
  ]

  record_at-overwritten :
      get_bit p.area slot ≡ true
      → slot < p.record_capacity
      → (j : ℕ)
      → record_at overwritten j
        ≡ (if slot == j then some (load bytes 0 p.record_real_size) else record_at p j)
  unfolding record_at overwritten
  record_at-overwritten used inside j = elim (Bool-cases (ltb j p.record_capacity)) [
    | inl within ↦ ground (arith, get_bit-overwritten j, load-overwritten j)
    | inr out ↦ ground arith
  ]

  overwritten-IsValid : IsBytes bytes → IsValid overwritten
  overwritten-IsValid b =
      unfold overwritten in
      record {
        laid_out = v.laid_out;
        counted =
            v.counted
            ∙ count-ext _ _ _ (λ j lt. sym (unfold overwritten in get_bit-overwritten j lt));
        bytes =
            memcpy-IsBytes p.area (record_data p.header slot) bytes p.record_real_size v.bytes b;
      }

-- What `update_record` returns and leaves of a valid page, on every branch: on a slot in use whose
-- record ends inside the page it succeeds, replaces that record alone and keeps the page valid, and its
-- behaviour is undefined if the record does not; on any other slot it returns the error of the branch
-- and changes nothing.
pub update_record-record_at :
    (p : Page) (slot : ℕ) (bytes : Memory)
    → IsValid p
    → IsBytes bytes
    → (q : Page) × (update_record p slot bytes ≡ (
        if leb p.record_capacity slot
        then some (invalid_argument, p)
        else if not (get_bit p.area slot)
        then some (record_record_not_exist, p)
        else if inside_page p.header slot
        then some (success, q)
        else none))
      × IsValid q
      × (in_use p slot ≡ true
          → (j : ℕ)
          → record_at q j
            ≡ (if slot == j then some (load bytes 0 p.record_real_size) else record_at p j))
unfolding update_record overwritten
update_record-record_at p slot bytes v b = (
  overwritten p v slot bytes,
  refl,
  overwritten-IsValid p v slot bytes b,
  λ used. record_at-overwritten p v slot bytes (ground (arith, used)) (ground (arith, used)),
)

module _ (p : Page) (v : IsValid p) (slot : ℕ) (inside : slot < p.record_capacity)
    (used : get_bit p.area slot ≡ true) where
  erased : Page
  erased = record p {
    header = record p.header { record_num = p.record_num - 1 };
    area = clear_bit p.area slot;
  }

  count-erased :
      count (get_bit p.area) p.record_capacity ≡ count (get_bit erased.area) p.record_capacity + 1
  unfolding erased
  count-erased = ground (
    arith,
    count_less (get_bit p.area) (get_bit (clear_bit p.area slot)) slot p.record_capacity used
        (λ j lt. get_bit-clear_bit p.area slot j v.bytes),
  )

  erased-IsValid : IsValid erased
  erased-IsValid = record {
    laid_out =
        unfold erased in record { bitmap_below = v.laid_out.bitmap_below; fits = v.laid_out.fits };
    counted =
        let c : count (get_bit p.area) p.record_capacity
            ≡ count (get_bit erased.area) p.record_capacity + 1 =
          count-erased in
        unfold erased in omega (arith, v.counted, c);
    bytes = unfold erased in clear_bit-IsBytes p.area slot v.bytes;
  }

  record_at-erased : (j : ℕ) → record_at erased j ≡ (if slot == j then none else record_at p j)
  unfolding record_at erased
  record_at-erased j = ground (
    arith,
    get_bit-clear_bit p.area slot j v.bytes,
    load-clear_bit p.area (record_data p.header j) p.record_real_size p.record_capacity slot
        (bitmap-le-record_data v.laid_out j) inside,
  )

  none_left : ((p.record_num - 1 == 0) ≡ true) ↔ ((j : ℕ) → record_at erased j ≡ none)
  none_left = (
    λ h j.
        let c : count (get_bit erased.area) p.record_capacity ≡ 0 =
          ground (arith, count-erased, v.counted) in
        unfold record_at erased in
        ground (arith, count_zero (get_bit erased.area) p.record_capacity j c),
    λ h.
        let c : count (get_bit erased.area) p.record_capacity ≡ 0 =
          count_none (get_bit erased.area) p.record_capacity
            (λ j lt. unfold record_at erased in ground (arith, h j)) in
        ground (arith, count-erased, v.counted),
  )

-- What `delete_record` returns and leaves, on every branch: it succeeds exactly on a slot in use,
-- where it removes that record alone; else it returns the error of the branch and changes nothing.
-- The page is handed back to the buffer pool exactly if the deletion succeeded and no record is left.
pub delete_record-record_at :
    (p : Page) (slot : ℕ)
    → IsValid p
    → let (rc, q, disposed) = delete_record p slot in
      (rc ≡ (
        if leb p.record_capacity slot
        then invalid_argument
        else if get_bit p.area slot
        then success
        else record_record_not_exist))
      × IsValid q
      × ((j : ℕ) → record_at q j ≡ (if in_use p slot && (slot == j) then none else record_at p j))
      × ((disposed ≡ true) ↔ ((rc ≡ success) × ((j : ℕ) → record_at q j ≡ none)))
unfolding delete_record
delete_record-record_at p slot v = elim (Bool-cases (leb p.record_capacity slot)) [
  | inl out ↦
      let o : ltb slot p.record_capacity ≡ false = ground arith in
      rw (out, o) (refl, v, (λ j. refl), ((λ h. cc), λ h. cc (h.0)))
  | inr inside ↦
      let i : ltb slot p.record_capacity ≡ true = ground arith in
      elim (Bool-cases (get_bit p.area slot)) [
        | inl used ↦
            rw (inside, used, i)
              (
                refl,
                unfold erased in erased-IsValid p v slot (ground arith) used,
                unfold erased in record_at-erased p v slot (ground arith) used,
                (
                  λ h. (refl, unfold erased in (none_left p v slot (ground arith) used).0 h),
                  λ h. (unfold erased in (none_left p v slot (ground arith) used).1 h.1),
                ),
              )
        | inr free ↦ rw (inside, free, i) (refl, v, (λ j. refl), ((λ h. cc), λ h. cc (h.0)))
      ]
]

-- What `get_record` hands out for a slot.
abbrev pub Got : Page → ℕ → Rc × Option ℕ → Type 0
Got p slot (rc, some address) =
    (rc ≡ success) × (record_at p slot ≡ some (load p.area address p.record_real_size))
Got p slot (rc, none) = (rc ≢ success) × (record_at p slot ≡ none)

-- `get_record` returns the address of the record for a slot in use, and an error, with no record,
-- for any other slot.
pub get_record-Got : (p : Page) (slot : ℕ) → Got p slot (get_record p slot)
unfolding get_record record_at
get_record-Got p slot = elim (Bool-cases (leb p.record_capacity slot)) [
  | inl out ↦ rw out ((λ e. cc), ground arith)
  | inr inside ↦ elim (Bool-cases (get_bit p.area slot)) [
    | inl used ↦ rw (inside, used) (refl, ground arith)
    | inr free ↦ rw (inside, free) ((λ e. cc), ground arith)
  ]
]
