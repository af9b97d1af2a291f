-- ===== src/TableMeta/Layout.antt =====
-- TableMeta::init: the offsets of the fields.
use oceanbase.Base.{
  ℕ, ◌+◌, ◌%◌, ◌^◌, ◌<◌, ◌≡◌, ◌≢◌, ◌⊎◌, inl, inr, refl, sym, ap, subst, true, false, Option, none,
  some, List, [], ◌∷◌, arith, length, Bool-cases, ltb→lt, ◌==◌,
}
use oceanbase.Rc.{Rc, success, invalid_argument}
use oceanbase.Filter.{undefined}
use oceanbase.TableMeta.{
  AttrInfo, FieldMeta, TableMeta, is_named, same_type, is_offset, is_len, field_init, next_offset,
  add_field, init_fields, table_init, named_table,
}

-- The field of an attribute at an offset, the length as an int
abbrev pub field_at : ℕ → AttrInfo → FieldMeta
field_at offset a = record {
  name = a.name;
  attr_type = a.attr_type;
  attr_offset = offset;
  attr_len = a.attr_length % 2 ^ 32;
  visible = true;
  nullable = a.nullable;
}

-- A field has a name, a type and a length, and neither its offset nor its length is a negative int.
abbrev pub IsField : FieldMeta → Type 0
IsField f =
    (is_named f.name ≡ true)
    × (same_type undefined f.attr_type ≡ false)
    × (f.attr_offset < 2 ^ 31)
    × (0 < f.attr_len)
    × (f.attr_len < 2 ^ 31)

-- The fields of attributes stand one directly after another, from an offset to an end.
unfoldable pub AreLaid : ℕ → List AttrInfo → List FieldMeta → ℕ → Type 0
AreLaid offset [] [] end = offset ≡ end
AreLaid offset [] (f ∷ fields) end = ⊥
AreLaid offset (a ∷ attributes) [] end = ⊥
AreLaid offset (a ∷ attributes) (f ∷ fields) end =
    (f ≡ field_at offset a) × IsField f × AreLaid (offset + f.attr_len) attributes fields end

-- The offset goes on without a wrap.
next_offset_lem :
    (offset : ℕ) (a : AttrInfo) (f : FieldMeta)
    → f ≡ field_at offset a
    → IsField f
    → next_offset offset a.attr_length ≡ offset + f.attr_len
next_offset_lem offset a f e g =
    let same : f.attr_len ≡ a.attr_length % 2 ^ 32 = ap (λ x. x.attr_len) e in
    let at : f.attr_offset ≡ offset = ap (λ x. x.attr_offset) e in omega arith

FieldOutcome : ℕ → AttrInfo → Rc × Option FieldMeta → Type 0
FieldOutcome offset a (rc, none) = (rc ≡ invalid_argument) × (IsField (field_at offset a) → ⊥)
FieldOutcome offset a (rc, some f) = (rc ≡ success) × (f ≡ field_at offset a) × IsField f

FieldsOutcome : ℕ → List AttrInfo → Rc × Option (List FieldMeta × ℕ) → Type 0
FieldsOutcome offset attributes (rc, none) =
    (rc ≡ invalid_argument)
    × ((fields : List FieldMeta) (end : ℕ) → AreLaid offset attributes fields end → ⊥)
FieldsOutcome offset attributes (rc, some (fields, end)) =
    (rc ≡ success) × AreLaid offset attributes fields end

field_init-FieldOutcome :
    (offset : ℕ) (a : AttrInfo)
    → FieldOutcome offset a
        (field_init a.name a.attr_type offset (a.attr_length % 2 ^ 32) true a.nullable)
unfolding field_init FieldOutcome
field_init-FieldOutcome offset a = elim (Bool-cases (is_named a.name)) [
  | inr e ↦ rw e (refl, λ (n, t, o, l, l'). cc)
  | inl e ↦ elim (Bool-cases (same_type undefined a.attr_type)) [
    | inl e₁ ↦ rw (e, e₁) (refl, λ (n, t, o, l, l'). cc)
    | inr e₁ ↦ elim (Bool-cases (is_offset offset)) [
      | inr e₂ ↦ rw (e, e₁, e₂) (refl, λ (n, t, o, l, l'). ground arith)
      | inl e₂ ↦ elim (Bool-cases (is_len (a.attr_length % 2 ^ 32))) [
        | inr e₃ ↦ rw (e, e₁, e₂, e₃) (refl, λ (n, t, o, l, l'). ground arith)
        | inl e₃ ↦
            rw (e, e₁, e₂, e₃) (refl, refl, (e, e₁, ltb→lt _ _ e₂, ground arith, ground arith))
      ]
    ]
  ]
]

no_field :
    (offset : ℕ) (a : AttrInfo) (attributes : List AttrInfo)
    → (IsField (field_at offset a) → ⊥)
    → (fields : List FieldMeta) (end : ℕ) → AreLaid offset (a ∷ attributes) fields end
    → ⊥
unfolding AreLaid
no_field offset a attributes h [] end l = l
no_field offset a attributes h (f ∷ fields) end (e, g, l) = h (subst IsField e g)

no_more_fields :
    (offset : ℕ) (a : AttrInfo) (attributes : List AttrInfo)
    → ((fields : List FieldMeta) (end : ℕ)
        → AreLaid (next_offset offset a.attr_length) attributes fields end
        → ⊥)
    → (fields : List FieldMeta) (end : ℕ) → AreLaid offset (a ∷ attributes) fields end
    → ⊥
unfolding AreLaid
no_more_fields offset a attributes h [] end l = l
no_more_fields offset a attributes h (f ∷ fields) end (e, g, l) =
    h fields end
      (subst (λ n. AreLaid n attributes fields end) (sym (next_offset_lem offset a f e g)) l)

add_field-FieldsOutcome :
    (offset : ℕ) (a : AttrInfo) (attributes : List AttrInfo) (x : Rc × Option FieldMeta)
    (rest : Rc × Option (List FieldMeta × ℕ))
    → FieldOutcome offset a x
    → FieldsOutcome (next_offset offset a.attr_length) attributes rest
    → FieldsOutcome offset (a ∷ attributes) (add_field x rest)
unfolding FieldOutcome FieldsOutcome AreLaid
add_field-FieldsOutcome offset a attributes (rc, none) rest (e, h) hs =
    (e, no_field offset a attributes h)
add_field-FieldsOutcome offset a attributes (rc, some f) (rc', none) h (e, hs) =
    (e, no_more_fields offset a attributes hs)
add_field-FieldsOutcome offset a attributes (rc, some f) (rc', some (fields, end)) (ok, e, g)
      (ok', l) =
    let next = next_offset_lem offset a f e g in
    (ok', (e, g, subst (λ n. AreLaid n attributes fields end) next l))

init_fields-FieldsOutcome :
    (offset : ℕ) (attributes : List AttrInfo)
    → FieldsOutcome offset attributes (init_fields offset attributes)
unfolding init_fields FieldsOutcome AreLaid
init_fields-FieldsOutcome offset [] = (refl, refl)
init_fields-FieldsOutcome offset (a ∷ attributes) =
    add_field-FieldsOutcome offset a attributes
      (field_init a.name a.attr_type offset (a.attr_length % 2 ^ 32) true a.nullable)
      (init_fields (next_offset offset a.attr_length) attributes) (field_init-FieldOutcome offset a)
      (init_fields-FieldsOutcome (next_offset offset a.attr_length) attributes)

-- What TableMeta::init promises
unfoldable pub TableOutcome : List ℕ → List AttrInfo → Rc × Option TableMeta → Type 0
TableOutcome name attributes (rc, none) =
    (rc ≡ invalid_argument)
    × ((is_named name ≡ false)
        ⊎ (attributes ≡ [])
        ⊎ ((fields : List FieldMeta) (end : ℕ) → AreLaid 4 attributes fields end → ⊥))
TableOutcome name attributes (rc, some m) =
    (rc ≡ success)
    × (is_named name ≡ true)
    × (attributes ≢ [])
    × (m.name ≡ name)
    × AreLaid 4 attributes m.fields m.record_size

named_table-TableOutcome :
    (name : List ℕ) (attributes : List AttrInfo) (x : Rc × Option (List FieldMeta × ℕ))
    → is_named name ≡ true
    → attributes ≢ []
    → FieldsOutcome 4 attributes x
    → TableOutcome name attributes (named_table name x)
unfolding FieldsOutcome TableOutcome
named_table-TableOutcome name attributes (rc, none) n a (e, h) = (e, inr (inr h))
named_table-TableOutcome name attributes (rc, some (fields, end)) n a (ok, l) = (ok, n, a, refl, l)

some_attributes : (attributes : List AttrInfo) → (length attributes == 0) ≡ false → attributes ≢ []
some_attributes [] e = λ q. ground (arith, e)
some_attributes (a ∷ attributes) e = λ q. cc

no_attributes : (attributes : List AttrInfo) → (length attributes == 0) ≡ true → attributes ≡ []
no_attributes [] e = refl
no_attributes (a ∷ attributes) e = ground arith

pub table_init-TableOutcome :
    (name : List ℕ) (attributes : List AttrInfo)
    → TableOutcome name attributes (table_init name attributes)
unfolding table_init TableOutcome
table_init-TableOutcome name attributes = elim (Bool-cases (is_named name)) [
  | inr e ↦ rw e (refl, inl e)
  | inl e ↦ elim (Bool-cases (length attributes == 0)) [
    | inl e₁ ↦ rw (e, e₁) (refl, inr (inl (no_attributes attributes e₁)))
    | inr e₁ ↦
        rw (e, e₁)
          (named_table-TableOutcome name attributes (init_fields 4 attributes) e
            (some_attributes attributes e₁) (init_fields-FieldsOutcome 4 attributes))
  ]
]
