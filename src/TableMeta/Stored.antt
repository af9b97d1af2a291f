-- ===== src/TableMeta/Stored.antt =====
-- Table::make_record: each value stands in the record at the offset of its field.
use oceanbase.Base.{
  if◌then◌else◌, ◌==◌, ◌≤◌, ◌<◌, ◌^◌, ℕ, ◌≡◌, ◌≢◌, ◌⊎◌, true, false, Option, none, some, List, [],
  ◌∷◌, length,
}
use oceanbase.Base.Memory.{Memory, load}
use oceanbase.Rc.{
  Rc, success, is_success, invalid_argument, schema_field_missing, schema_field_type_mismatch,
}
use oceanbase.Filter.{AttrType, undefined, chars, ints, floats, dates, nulls, texts}
use oceanbase.Dates.{check_dates}
use oceanbase.Bplus.{signed32}
use oceanbase.BufferPool.{read32}
use oceanbase.TableMeta.{FieldMeta, TableMeta, Value, TextFile, same_type}
use oceanbase.TableMeta.Texts.{AreTexts}

-- Each field that is not a TEXTS field holds the first bytes of its value.
unfoldable pub AreStored : Memory → List FieldMeta → List Value → Type 0
AreStored r (f ∷ fields) (v ∷ vs) =
    (same_type f.attr_type texts ≡ false
      → load r f.attr_offset f.attr_len ≡ load v.content 0 f.attr_len)
    × AreStored r fields vs
AreStored r [] [] = true ≡ true
AreStored r (f ∷ fields) [] = ⊥
AreStored r [] (v ∷ vs) = ⊥

-- The types by their numbers
type_of : ℕ → AttrType
type_of n =
    if n == 0
    then undefined
    else if n == 1
    then chars
    else if n == 2
    then ints
    else if n == 3
    then floats
    else if n == 4
    then dates
    else if n == 5
    then nulls
    else texts

-- A field takes a value of its type, NULL if it is nullable, and a string if it is a TEXTS field.
abbrev pub Takes : FieldMeta → Value → Type 0
Takes f v =
    (f.attr_type ≡ v.attr_type)
    ⊎ ((f.nullable ≡ 1) × (v.attr_type ≡ nulls))
    ⊎ ((f.attr_type ≡ texts) × (v.attr_type ≡ chars))

-- A date has its four bytes, and check_dates accepts it.
abbrev pub IsGoodDate : Value → Type 0
IsGoodDate v =
    v.attr_type ≡ dates
    → (4 ≤ v.size) × (is_success (check_dates (signed32 (read32 v.content 0))) ≡ true)

-- There is one value for each field, which the field takes, and each date is one.
unfoldable pub AreSuitable : List FieldMeta → List Value → Type 0
AreSuitable [] [] = true ≡ true
AreSuitable [] (v ∷ vs) = ⊥
AreSuitable (f ∷ fields) [] = ⊥
AreSuitable (f ∷ fields) (v ∷ vs) = Takes f v × IsGoodDate v × AreSuitable fields vs

-- A date in the values has less than four bytes.
abbrev pub HasShortDate : List Value → Type 0
HasShortDate [] = ⊥
HasShortDate (v ∷ vs) = ((v.attr_type ≡ dates) × (v.size < 4)) ⊎ HasShortDate vs

-- A code of make_record for a value that does not suit its field
abbrev pub IsRefusal : Rc → Type 0
IsRefusal rc = (rc ≡ schema_field_type_mismatch) ⊎ (rc ≡ invalid_argument)

CheckOutcome : List FieldMeta → List Value → Option Rc → Type 0
CheckOutcome fields vs none = HasShortDate vs
CheckOutcome fields vs (some rc) =
    ((rc ≡ success) × AreSuitable fields vs) ⊎ (IsRefusal rc × (AreSuitable fields vs → ⊥))

-- What is copied into the fields lies in the blocks it is read from.
abbrev pub AreInside : List FieldMeta → List Value → Type 0
AreInside (f ∷ fields) (v ∷ vs) =
    (same_type f.attr_type texts ≡ true → (f.attr_len ≤ 4) × (4096 ≤ v.size))
    × (same_type f.attr_type texts ≡ false → f.attr_len ≤ v.size)
    × AreInside fields vs
AreInside _ _ = true ≡ true

-- What Table::make_record promises of its code, record and text file
pub MakeOutcome :
    TableMeta → TextFile → List Value → Option (Rc × Option Memory × TextFile) → Type 0
MakeOutcome m t vs none = HasShortDate vs ⊎ (2 ^ 31 ≤ m.record_size) ⊎ (AreInside m.fields vs → ⊥)
MakeOutcome m t vs (some (rc, none, t')) =
    ((rc ≡ schema_field_missing) × (length vs ≢ length m.fields) ⊎ IsRefusal rc)
    × (t' ≡ t)
    × (AreSuitable m.fields vs → ⊥)
MakeOutcome m t vs (some (rc, some r, t')) =
    (rc ≡ success)
    × AreSuitable m.fields vs
    × (m.record_size < 2 ^ 31)
    × AreInside m.fields vs
    × AreStored r m.fields vs
    × AreTexts r t'.bytes t m.fields vs
