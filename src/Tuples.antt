-- ===== src/Tuples.antt =====
-- src/observer/sql/executor/tuple.cpp with value.h: the order of the tuples of a result.
--
-- The values of tuples are objects with a virtual `compare`, so they are an interface here, `Values`.
-- A tuple gives its value at each column; the columns come from the schema. `order_index` and
-- `order_cmp` are one list of pairs, and an `order_cmp` of 1 is `true`. A name is a list of its bytes.
pub mod Compare
pub mod Columns
pub mod Bubble
mod Tests
use oceanbase.Base.{
  ℕ, zero, suc, ◌+◌, ◌-◌, ◌^◌, ◌<◌, ◌≡◌, Bool, true, false, not, ◌&&◌, Option, none, some, List, [],
  ◌∷◌, ◌==◌, ltb, if◌then◌else◌, length,
}
use oceanbase.Base.Int.{ℤ, pos, negsuc, pos_part, neg_part, ◌-ℤ◌, ◌≤ℤ◌}
use oceanbase.Rc.{Rc, success, invalid_argument}

-- TupleValue, with the laws of an order, which the sort relies on.
pub record Values : Type 1 where
  pub Value : Type 0
  pub compare : Value → Value → ℤ
  pub compare_le : (a b : Value) → compare a b ≤ℤ pos 0 → pos 0 ≤ℤ compare b a
  pub compare_ge : (a b : Value) → pos 0 ≤ℤ compare a b → compare b a ≤ℤ pos 0
  pub compare_trans :
      (a b c : Value) → compare a b ≤ℤ pos 0 → compare b c ≤ℤ pos 0 → compare a c ≤ℤ pos 0

-- The difference of two ints, in 32 bits.
unfoldable pub wrap32 : ℤ → ℤ
wrap32 (pos n) = if ltb n (2 ^ 31) then pos n else negsuc (2 ^ 32 - 1 - n)
wrap32 (negsuc n) = if ltb n (2 ^ 31) then negsuc n else pos (2 ^ 32 - 1 - n)

-- IntValue::compare
unfoldable pub int_compare : ℤ → ℤ → ℤ
int_compare a b = wrap32 (a -ℤ b)

abbrev pub is_zero : ℤ → Bool
is_zero c = pos_part c == 0 && neg_part c == 0

abbrev pub is_positive : ℤ → Bool
is_positive c = ltb 0 (pos_part c)

abbrev pub bool_eq : Bool → Bool → Bool
bool_eq true b = b
bool_eq false b = not b

abbrev pub name_eq : List ℕ → List ℕ → Bool
name_eq [] [] = true
name_eq [] (y ∷ ys) = false
name_eq (x ∷ xs) [] = false
name_eq (x ∷ xs) (y ∷ ys) = x == y && name_eq xs ys

-- A field of the schema, or an attribute to order by: the names of its table and of itself.
pub record Field : Type 0 where
  pub table_name : List ℕ
  pub field_name : List ℕ

-- The loop that looks an attribute up in the schema; -1 is `none`.
unfoldable pub field_index : List Field → ℕ → Field → Option ℕ
field_index [] j attr = none
field_index (f ∷ fields) j attr =
    let rest = field_index fields (j + 1) attr in
    if name_eq attr.table_name f.table_name && name_eq attr.field_name f.field_name
    then some j
    else rest

infixl 10 ◌>>=◌
abbrev ◌>>=◌ {ℓ ℓ'} : {A : Type ℓ} {B : Type ℓ'} → Option A → (A → Option B) → Option B
none >>= f = none
some a >>= f = f a

unfoldable pub order_columns : List Field → List (Field × Bool) → Option (List (ℕ × Bool))
order_columns fields [] = some []
order_columns fields ((attr, cmp) ∷ attrs) = do
  index ← field_index fields 0 attr
  columns ← order_columns fields attrs
  some ((index, cmp) ∷ columns)

module _ (vs : Values) where
  open vs use {Value, compare}

  abbrev pub Tuple : Type 0
  Tuple = ℕ → Value

  -- Are the tuples in the wrong order?
  unfoldable pub tuple_cmp : List (ℕ × Bool) → Tuple → Tuple → Bool
  tuple_cmp [] a b = false
  tuple_cmp ((index, cmp) ∷ columns) a b =
      let value_cmp = compare (a index) (b index) in
      let rest = tuple_cmp columns a b in
      if is_zero value_cmp then rest else not (bool_eq (is_positive value_cmp) cmp)

  -- Are the tuples equal at these columns?
  unfoldable pub tuple_compare : List ℕ → Tuple → Tuple → Bool
  tuple_compare [] a b = true
  tuple_compare (index ∷ columns) a b =
      let rest = tuple_compare columns a b in
      if is_zero (compare (a index) (b index)) then rest else false

  -- The inner loop of the sort, with the rounds left, from the place it has reached.
  unfoldable pub bubble : List (ℕ × Bool) → ℕ → List Tuple → List Tuple
  bubble columns zero ts = ts
  bubble columns (suc rounds) [] = []
  bubble columns (suc rounds) (l ∷ []) = l ∷ []
  bubble columns (suc rounds) (l ∷ r ∷ ts) =
      let swapped = r ∷ bubble columns rounds (l ∷ ts) in
      let kept = l ∷ bubble columns rounds (r ∷ ts) in
      if tuple_cmp columns l r then swapped else kept

  -- The outer loop: `rounds` is n - i, and the inner loop goes n - i - 1 rounds.
  unfoldable pub bubble_sort : List (ℕ × Bool) → ℕ → List Tuple → List Tuple
  bubble_sort columns zero ts = ts
  bubble_sort columns (suc rounds) ts = bubble_sort columns rounds (bubble columns rounds ts)

  -- TupleSet::order_by
  unfoldable pub order_by : List Field → List (Field × Bool) → List Tuple → Rc × List Tuple
  order_by fields attrs ts = elim (order_columns fields attrs) [
    | none ↦ (invalid_argument, ts)
    | some columns ↦ (success, bubble_sort columns (length ts) ts)
  ]
