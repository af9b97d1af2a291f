-- ===== src/Tuples/Columns.antt =====
-- `order_by` of tuple.cpp: the columns that attributes stand for, and the order by columns.
use mathlib.Core.Path.{ap₂}
use oceanbase.Base.{
  ℕ, zero, suc, ◌+◌, ◌<◌, ◌≡◌, ◌≢◌, ◌⊎◌, inl, inr, refl, sym, ap, subst, ◌∙◌, Bool, true, false,
  not, ◌&&◌, Option, none, some, List, [], ◌∷◌, get_elem?, arith, Bool-cases, ◌==◌, ==_iff, ==_refl,
  if◌then◌else◌,
}
use oceanbase.Base.Int.{ℤ, pos, negsuc, pos_part, neg_part}
use oceanbase.Tuples.{
  Values, Field, Tuple, name_eq, field_index, order_columns, tuple_cmp, ◌>>=◌, is_zero, is_positive,
  bool_eq,
}

name_eq_refl : (xs : List ℕ) → name_eq xs xs ≡ true
name_eq_refl [] = refl
name_eq_refl (x ∷ xs) = rw (==_refl x, name_eq_refl xs) refl

name_eq→eq : (xs ys : List ℕ) → name_eq xs ys ≡ true → xs ≡ ys
name_eq→eq [] [] e = refl
name_eq→eq [] (y ∷ ys) e = cc
name_eq→eq (x ∷ xs) [] e = cc
name_eq→eq (x ∷ xs) (y ∷ ys) e = elim (Bool-cases (x == y)) [
  | inl same ↦ ap₂ ◌∷◌ ((==_iff x y).0 same) (name_eq→eq xs ys (rw same at e))
  | inr other ↦ let q : false ≡ true = rw other at e in cc
]

-- The first place of a field in a schema
abbrev pub IsPlace : List Field → Field → ℕ → Type 0
IsPlace fields attr i =
    (get_elem? fields i ≡ some attr) × ((j : ℕ) → j < i → get_elem? fields j ≢ some attr)

abbrev same_names : Field → Field → Bool
same_names attr f = name_eq attr.table_name f.table_name && name_eq attr.field_name f.field_name

same_names→eq : (attr f : Field) → same_names attr f ≡ true → f ≡ attr
same_names→eq attr f e = elim (Bool-cases (name_eq attr.table_name f.table_name)) [
  | inr other ↦ let q : false ≡ true = rw other at e in cc
  | inl same ↦
      let q : name_eq attr.field_name f.field_name ≡ true = rw same at e in
      ap₂ (λ t n. record { table_name = t; field_name = n })
        (sym (name_eq→eq attr.table_name f.table_name same))
        (sym (name_eq→eq attr.field_name f.field_name q))
]

same_names_refl : (attr : Field) → same_names attr attr ≡ true
same_names_refl attr = rw (name_eq_refl attr.table_name, name_eq_refl attr.field_name) refl

-- What field_index finds from an index on
abbrev FoundFrom : List Field → ℕ → Field → Option ℕ → Type 0
FoundFrom fields start attr none = (j : ℕ) → get_elem? fields j ≢ some attr
FoundFrom fields start attr (some i) = (k : ℕ) × (i ≡ start + k) × IsPlace fields attr k

not_here : (attr f : Field) → same_names attr f ≡ false → some f ≢ some attr
not_here attr f e q =
    let here : same_names attr f ≡ true =
      ap (λ (o : Option Field). elim o [ none ↦ true | some g ↦ same_names attr g ]) q
      ∙ same_names_refl attr in
    cc

field_index-FoundFrom :
    (fields : List Field) (start : ℕ) (attr : Field)
    → FoundFrom fields start attr (field_index fields start attr)
unfolding field_index
field_index-FoundFrom [] start attr = λ j. λ q. cc
field_index-FoundFrom (f ∷ fields) start attr = elim (Bool-cases (same_names attr f)) [
  | inl same ↦
      rw same (0, omega arith, (ap some (same_names→eq attr f same), λ j lt. absurd (omega arith)))
  | inr other ↦ rw other (
      later (field_index fields (start + 1) attr) other
        (field_index-FoundFrom fields (start + 1) attr))
]
  where
    nowhere :
        same_names attr f ≡ false
        → ((j : ℕ) → get_elem? fields j ≢ some attr)
        → (j : ℕ) → get_elem? (f ∷ fields) j ≢ some attr
    nowhere other h zero = not_here attr f other
    nowhere other h (suc j) = h j

    later :
        (r : Option ℕ)
        → same_names attr f ≡ false
        → FoundFrom fields (start + 1) attr r
        → FoundFrom (f ∷ fields) start attr r
    later none other h = nowhere other h
    later (some i) other (k, e, (at, first)) = (suc k, omega arith, (at, before))
      where
        before : (j : ℕ) → j < suc k → get_elem? (f ∷ fields) j ≢ some attr
        before zero lt = not_here attr f other
        before (suc j) lt = first j (omega arith)

-- Each attribute stands at its place in the schema, with its direction.
abbrev pub ArePlaces : List Field → List (Field × Bool) → List (ℕ × Bool) → Type 0
ArePlaces fields [] [] = Unit {0}
ArePlaces fields [] (c ∷ columns) = ⊥
ArePlaces fields (a ∷ attrs) [] = ⊥
ArePlaces fields ((attr, descending) ∷ attrs) ((i, d) ∷ columns) =
    IsPlace fields attr i × (d ≡ descending) × ArePlaces fields attrs columns

-- Some attribute is not in the schema.
abbrev pub IsMissing : List Field → List (Field × Bool) → Type 0
IsMissing fields [] = ⊥
IsMissing fields ((attr, d) ∷ attrs) =
    ((j : ℕ) → get_elem? fields j ≢ some attr) ⊎ IsMissing fields attrs

abbrev pub Columns : List Field → List (Field × Bool) → Option (List (ℕ × Bool)) → Type 0
Columns fields attrs none = IsMissing fields attrs
Columns fields attrs (some columns) = ArePlaces fields attrs columns

pub order_columns-Columns :
    (fields : List Field) (attrs : List (Field × Bool))
    → Columns fields attrs (order_columns fields attrs)
unfolding order_columns
order_columns-Columns fields [] = tt
order_columns-Columns fields ((attr, d) ∷ attrs) =
    both (field_index fields 0 attr) (order_columns fields attrs)
      (field_index-FoundFrom fields 0 attr) (order_columns-Columns fields attrs)
  where
    both :
        (r : Option ℕ) (rs : Option (List (ℕ × Bool)))
        → FoundFrom fields 0 attr r
        → Columns fields attrs rs
        → Columns fields ((attr, d) ∷ attrs) (r >>= λ i. (rs >>= λ cs. some ((i, d) ∷ cs)))
    both none rs h hs = inl h
    both (some i) none h hs = inr hs
    both (some i) (some cs) (k, e, p) hs =
        let same : i ≡ k = omega arith in (subst (IsPlace fields attr) (sym same) p, refl, hs)

-- A comparison is positive for a descending column, and negative for an ascending one.
abbrev pub HasSign : Bool → ℤ → Type 0
HasSign true z = 0 < pos_part z
HasSign false z = 0 < neg_part z

module _ (vs : Values) where
  open vs use {compare}

  -- At the first column where the tuples differ, the greater value comes first if the column is
  -- descending, and the smaller one if it is not.
  abbrev pub InOrder : List (ℕ × Bool) → Tuple vs → Tuple vs → Type 0
  InOrder [] a b = Unit {0}
  InOrder ((i, descending) ∷ columns) a b =
      (compare (a i) (b i) ≡ pos 0) × InOrder columns a b ⊎ HasSign descending (compare (a i) (b i))

  order_step :
      (z : ℤ) (descending rest : Bool) (R : Type 0)
      → (rest ≡ false → R)
      → (if is_zero z then rest else not (bool_eq (is_positive z) descending)) ≡ false
      → ((z ≡ pos 0) × R) ⊎ HasSign descending z
  order_step (pos zero) d rest R k e = inl (refl, k e)
  order_step (pos (suc n)) true rest R k e = inr (omega arith)
  order_step (pos (suc n)) false rest R k e = ground (arith, e)
  order_step (negsuc n) true rest R k e = ground (arith, e)
  order_step (negsuc n) false rest R k e = inr (omega arith)

  pub tuple_cmp-InOrder :
      (columns : List (ℕ × Bool)) (a b : Tuple vs)
      → tuple_cmp vs columns a b ≡ false
      → InOrder columns a b
  unfolding tuple_cmp
  tuple_cmp-InOrder [] a b e = tt
  tuple_cmp-InOrder ((i, d) ∷ columns) a b e =
      order_step (compare (a i) (b i)) d (tuple_cmp vs columns a b) (InOrder columns a b)
        (tuple_cmp-InOrder columns a b) e
