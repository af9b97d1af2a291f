-- ===== src/Select/Scopes.antt =====
-- Resolve_Attr_Scope of execute_stage.cpp, and the loop of manual_do_select over the tables that calls
-- it: the table that each attribute of a SELECT belongs to.
use mathlib.Core.Path.{ap₂}
use oceanbase.Base.{
  ℕ, ◌≡◌, refl, sym, ap, ◌∙◌, map, true, Bool, false, not, ◌&&◌, ◌||◌, Option, none, some, List, [],
  ◌∷◌, if◌then◌else◌, Bool-cases, inl, inr,
}
use oceanbase.Rc.{Rc, schema_field_not_exist, schema_field_redundan}
use oceanbase.Tuples.{name_eq}
use oceanbase.Groups.{is_star}

-- A table: its name, which stands for the pointer to it, and the names of its fields.
pub record Table : Type 0 where
  pub name : List ℕ
  pub fields : List (List ℕ)

pub record Attr : Type 0 where
  pub relation_name : Option (List ℕ)
  pub attribute_name : List ℕ
  pub related_table : Option (List ℕ)

-- How the attributes come out: attached, refused with a code, or a failed assertion.
pub data Scope {ℓ} (A : Type ℓ) : Type ℓ where
  resolved : A → Scope A
  refused : Rc → Scope A
  asserted : Scope A

infixl 5 ◌>>=◌
abbrev ◌>>=◌ {ℓ κ} : {A : Type ℓ} {B : Type κ} → Scope A → (A → Scope B) → Scope B
resolved a >>= f = f a
refused rc >>= f = refused rc
asserted >>= f = asserted

-- Is `table_meta().field(name)` there?
unfoldable pub has_field : List (List ℕ) → List ℕ → Bool
has_field [] name = false
has_field (f ∷ fields) name = name_eq f name || has_field fields name

abbrev pub attached : Attr → List ℕ → Attr
attached attr name = record attr { relation_name = some name; related_table = some name }

abbrev resolve_named : Table → Attr → Option (List ℕ) → Scope Attr
resolve_named table attr (some other) = asserted
resolve_named table attr none =
    if not (has_field table.fields attr.attribute_name) && not (is_star attr.attribute_name)
    then refused schema_field_not_exist
    else resolved (record attr { related_table = some table.name })

abbrev resolve_headless : Table → Attr → Option (List ℕ) → Scope Attr
resolve_headless table attr none = resolved (attached attr table.name)
resolve_headless table attr (some other) =
    if name_eq other table.name
    then resolved (attached attr table.name)
    else refused schema_field_redundan

abbrev resolve_by : Table → Attr → Option (List ℕ) → Scope Attr
resolve_by table attr (some relation) =
    if name_eq table.name relation
    then resolve_named table attr attr.related_table
    else resolved attr
resolve_by table attr none =
    if is_star attr.attribute_name
    then resolved attr
    else if has_field table.fields attr.attribute_name
    then resolve_headless table attr attr.related_table
    else resolved attr

-- One round of Resolve_Attr_Scope
unfoldable pub resolve_attr : Table → Attr → Scope Attr
resolve_attr table attr = resolve_by table attr attr.relation_name

-- Resolve_Attr_Scope
unfoldable pub resolve_attrs : Table → List Attr → Scope (List Attr)
unfolding resolve_attr
resolve_attrs table [] = resolved []
resolve_attrs table (a ∷ attrs) = do
  b ← resolve_attr table a
  rest ← resolve_attrs table attrs
  resolved (b ∷ rest)

-- The check for attributes that no table has
unfoldable pub all_attached : List Attr → Scope (List Attr)
all_attached [] = resolved []
all_attached (a ∷ attrs) = do
  rest ← all_attached attrs
  elim a.related_table [
    | some t ↦ resolved (a ∷ rest)
    | none ↦
        if is_star a.attribute_name then resolved (a ∷ rest) else refused schema_field_not_exist
  ]

-- The first pass of manual_do_select
unfoldable pub resolve_tables : List Table → List Attr → Scope (List Attr)
unfolding resolve_attrs all_attached
resolve_tables [] attrs = all_attached attrs
resolve_tables (t ∷ tables) attrs = do attrs' ← resolve_attrs t attrs; resolve_tables tables attrs'

-- The first table that has the field
abbrev pub first_with : List Table → List ℕ → Option (List ℕ)
first_with [] name = none
first_with (t ∷ tables) name =
    if has_field t.fields name then some t.name else first_with tables name

-- No table has this name.
abbrev pub NotNamed : List ℕ → List Table → Type 0
NotNamed name [] = Unit
NotNamed name (t ∷ tables) = (name_eq t.name name ≡ false) × NotNamed name tables

abbrev pub Distinct : List Table → Type 0
Distinct [] = Unit
Distinct (t ∷ tables) = NotNamed t.name tables × Distinct tables

-- An attribute as the parser makes it from a name alone.
abbrev pub headless : List ℕ → Attr
headless name = record { relation_name = none; attribute_name = name; related_table = none }

abbrev is_none : Option (List ℕ) → Bool
is_none none = true
is_none (some t) = false

-- What becomes of a name: a star stays as it is, another name is attached to the first table that has it.
abbrev pub attached_first : List ℕ → Option (List ℕ) → Attr
attached_first name none = headless name
attached_first name (some table) = attached (headless name) table

abbrev pub settled : List Table → List ℕ → Attr
settled tables name = attached_first name (if is_star name then none else first_with tables name)

-- Each name is a star or that of a field of a table.
abbrev pub all_known : List Table → List (List ℕ) → Bool
all_known tables [] = true
all_known tables (name ∷ names) =
    all_known tables names && (is_star name || not (is_none (first_with tables name)))

-- A name on its way through the tables, with the table it is attached to, which is not to come again
abbrev on_way : List ℕ × Option (List ℕ) → Attr
on_way (name, table) = attached_first name table

abbrev IsOnWay : List Table → List ℕ × Option (List ℕ) → Type 0
IsOnWay tables (name, none) = Unit
IsOnWay tables (name, some table) = (is_star name ≡ false) × NotNamed table tables

abbrev AreOnWay : List Table → List (List ℕ × Option (List ℕ)) → Type 0
AreOnWay tables [] = Unit
AreOnWay tables (i ∷ items) = IsOnWay tables i × AreOnWay tables items

abbrev step : Table → List ℕ × Option (List ℕ) → List ℕ × Option (List ℕ)
step u (name, none) =
    if is_star name
    then (name, none)
    else if has_field u.fields name
    then (name, some u.name)
    else (name, none)
step u (name, some table) = (name, some table)

abbrev steps : List Table → List ℕ × Option (List ℕ) → List ℕ × Option (List ℕ)
steps [] i = i
steps (u ∷ tables) i = steps tables (step u i)

resolve_attr-step :
    (u : Table) (tables : List Table) (i : List ℕ × Option (List ℕ))
    → IsOnWay (u ∷ tables) i
    → resolve_attr u (on_way i) ≡ resolved (on_way (step u i))
unfolding resolve_attr
resolve_attr-step u tables (name, none) h = elim (Bool-cases (is_star name)) [
  | inl star ↦ rw star refl
  | inr plain ↦ elim (Bool-cases (has_field u.fields name)) [
    | inl there ↦ rw (plain, there) refl
    | inr missing ↦ rw (plain, missing) refl
  ]
]
resolve_attr-step u tables (name, some table) (plain, (ne, h)) = rw ne refl

resolve_attrs-step :
    (u : Table) (tables : List Table) (items : List (List ℕ × Option (List ℕ)))
    → AreOnWay (u ∷ tables) items
    → resolve_attrs u (map on_way items) ≡ resolved (map on_way (map (step u) items))
unfolding resolve_attrs
resolve_attrs-step u tables [] h = refl
resolve_attrs-step u tables (i ∷ items) (h, hs) =
    rw (resolve_attr-step u tables i h, resolve_attrs-step u tables items hs) refl

step-IsOnWay :
    (u : Table) (tables : List Table) (i : List ℕ × Option (List ℕ))
    → NotNamed u.name tables
    → IsOnWay (u ∷ tables) i
    → IsOnWay tables (step u i)
step-IsOnWay u tables (name, none) fresh h = elim (Bool-cases (is_star name)) [
  | inl star ↦ rw star tt
  | inr plain ↦ elim (Bool-cases (has_field u.fields name)) [
    | inl there ↦ rw (plain, there) (plain, fresh)
    | inr missing ↦ rw (plain, missing) tt
  ]
]
step-IsOnWay u tables (name, some table) fresh (plain, (ne, h)) = (plain, h)

step-AreOnWay :
    (u : Table) (tables : List Table) (items : List (List ℕ × Option (List ℕ)))
    → NotNamed u.name tables
    → AreOnWay (u ∷ tables) items
    → AreOnWay tables (map (step u) items)
step-AreOnWay u tables [] fresh h = tt
step-AreOnWay u tables (i ∷ items) fresh (h, hs) =
    (step-IsOnWay u tables i fresh h, step-AreOnWay u tables items fresh hs)

resolve_tables-steps :
    (tables : List Table) (items : List (List ℕ × Option (List ℕ)))
    → Distinct tables
    → AreOnWay tables items
    → resolve_tables tables (map on_way items)
      ≡ all_attached (map on_way (map (steps tables) items))
unfolding resolve_tables
resolve_tables-steps [] items d h = ap (λ is. all_attached (map on_way is)) (map_same items)
  where
    map_same : (is : List (List ℕ × Option (List ℕ))) → is ≡ map (steps []) is
    map_same [] = refl
    map_same (i ∷ is) = ap (λ r. i ∷ r) (map_same is)
resolve_tables-steps (u ∷ tables) items (fresh, d) h = rw (resolve_attrs-step u tables items h) (
    resolve_tables-steps tables (map (step u) items) d (step-AreOnWay u tables items fresh h)
    ∙ ap (λ is. all_attached (map on_way is)) (map_twice items))
  where
    map_twice :
        (is : List (List ℕ × Option (List ℕ)))
        → map (steps tables) (map (step u) is) ≡ map (steps (u ∷ tables)) is
    map_twice [] = refl
    map_twice (i ∷ is) = ap (λ r. steps tables (step u i) ∷ r) (map_twice is)

steps-placed :
    (tables : List Table) (name table : List ℕ)
    → steps tables (name, some table) ≡ (name, some table)
steps-placed [] name table = refl
steps-placed (u ∷ tables) name table = steps-placed tables name table

steps-star :
    (tables : List Table) (name : List ℕ)
    → is_star name ≡ true
    → steps tables (name, none) ≡ (name, none)
steps-star [] name star = refl
steps-star (u ∷ tables) name star = ap (steps tables) (rw star refl) ∙ steps-star tables name star

steps-plain :
    (tables : List Table) (name : List ℕ)
    → is_star name ≡ false
    → on_way (steps tables (name, none)) ≡ attached_first name (first_with tables name)
steps-plain [] name plain = refl
steps-plain (u ∷ tables) name plain = elim (Bool-cases (has_field u.fields name)) [
  | inl there ↦
      let e : step u (name, none) ≡ (name, some u.name) = rw (plain, there) refl in
      ap (λ i. on_way (steps tables i)) e
      ∙ ap on_way (steps-placed tables name u.name)
      ∙ rw there refl
  | inr missing ↦
      let e : step u (name, none) ≡ (name, none) = rw (plain, missing) refl in
      ap (λ i. on_way (steps tables i)) e ∙ steps-plain tables name plain ∙ rw missing refl
]

steps-settled :
    (tables : List Table) (name : List ℕ) → on_way (steps tables (name, none)) ≡ settled tables name
steps-settled tables name = elim (Bool-cases (is_star name)) [
  | inl star ↦ ap on_way (steps-star tables name star) ∙ rw star refl
  | inr plain ↦ steps-plain tables name plain ∙ rw plain refl
]

items_of : List (List ℕ) → List (List ℕ × Option (List ℕ))
items_of names = map (λ name. (name, none)) names

items-AreOnWay : (tables : List Table) (names : List (List ℕ)) → AreOnWay tables (items_of names)
unfolding items_of
items-AreOnWay tables [] = tt
items-AreOnWay tables (name ∷ names) = (tt, items-AreOnWay tables names)

items-headless : (names : List (List ℕ)) → map on_way (items_of names) ≡ map headless names
unfolding items_of
items-headless [] = refl
items-headless (name ∷ names) = ap (λ r. headless name ∷ r) (items-headless names)

items-settled :
    (tables : List Table) (names : List (List ℕ))
    → map on_way (map (steps tables) (items_of names)) ≡ map (settled tables) names
unfolding items_of
items-settled tables [] = refl
items-settled tables (name ∷ names) =
    ap₂ ◌∷◌ (steps-settled tables name) (items-settled tables names)

all_attached-first :
    (name : List ℕ) (table : Option (List ℕ)) (attrs : List Attr)
    → all_attached attrs ≡ resolved attrs
    → all_attached (attached_first name table ∷ attrs) ≡ (
        if is_star name || not (is_none table)
        then resolved (attached_first name table ∷ attrs)
        else refused schema_field_not_exist)
unfolding all_attached
all_attached-first name none attrs e = elim (Bool-cases (is_star name)) [
  | inl star ↦ rw (e, star) refl
  | inr plain ↦ rw (e, plain) refl
]
all_attached-first name (some t) attrs e = elim (Bool-cases (is_star name)) [
  | inl star ↦ rw (e, star) refl
  | inr plain ↦ rw (e, plain) refl
]

all_attached-settled :
    (tables : List Table) (names : List (List ℕ))
    → all_attached (map (settled tables) names) ≡ (
        if all_known tables names
        then resolved (map (settled tables) names)
        else refused schema_field_not_exist)
unfolding all_attached
all_attached-settled tables [] = refl
all_attached-settled tables (name ∷ names) = elim (Bool-cases (all_known tables names)) [
  | inr other ↦ rw (all_attached-settled tables names, other) refl
  | inl known ↦
      let e : all_attached (map (settled tables) names) ≡ resolved (map (settled tables) names) =
        all_attached-settled tables names ∙ rw known refl in
      let table = if is_star name then none else first_with tables name in
      all_attached-first name table (map (settled tables) names) e
      ∙ rw known
          (elim (Bool-cases (is_star name)) [ inl star ↦ rw star refl | inr plain ↦ rw plain refl ])
]

-- With tables of different names, attributes without a table name are resolved exactly if each that is
-- not a star is that of a field of some table, and each of these is then attached to the first table
-- that has such a field, also where others have one too; else SCHEMA_FIELD_NOT_EXIST is the code.
pub resolve_tables-first :
    (tables : List Table) (names : List (List ℕ))
    → Distinct tables
    → resolve_tables tables (map headless names) ≡ (
        if all_known tables names
        then resolved (map (settled tables) names)
        else refused schema_field_not_exist)
resolve_tables-first tables names d =
    ap (resolve_tables tables) (sym (items-headless names))
    ∙ resolve_tables-steps tables (items_of names) d (items-AreOnWay tables names)
    ∙ ap all_attached (items-settled tables names)
    ∙ all_attached-settled tables names
