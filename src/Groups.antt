-- ===== src/Groups.antt =====
-- src/observer/sql/executor/tuple.cpp: TupleSet::group_by, and float_from_string, which it calls.
--
-- A tuple gives its value at each column, as in `Tuples`; a new tuple is the list of its values.
-- What `group_by` asks of values beyond their order is the interface `Printing`, and the arithmetic
-- of the machine's floats is `Floats`. A text is the list of its bytes. An attribute that the loops
-- do not find leaves an index unset; here the outcome is then `unset` at once. Log output is left out.
pub mod Ids
pub mod Aggregates
pub mod Rows
mod Tests
use oceanbase.Base.{
  ℕ, zero, suc, ◌+◌, ◌-◌, Bool, true, false, not, ◌&&◌, ◌||◌, Option, none, some, List, [], ◌∷◌,
  ◌++◌, map, ◌==◌, if◌then◌else◌, length, get_or,
}
use oceanbase.Base.Int.{ℤ, pos, neg_part, pos_part, sub_ℕ, ltb_ℤ}
use oceanbase.Base.First.{first_from}
use oceanbase.Rc.{Rc, success, invalid_argument}
use oceanbase.Tuples.{Values, Field, name_eq, tuple_compare, Tuple, is_positive}
use oceanbase.Filter.{AttrType, ints, floats, to_lower}

-- AggregateFunction, but for AGG_UNDEFINED
pub data Aggregate : Type 0 where
  count max min avg : Aggregate

-- RelAttr; `aggregate_func` is none for AGG_UNDEFINED.
pub record RelAttr : Type 0 where
  pub relation_name : Option (List ℕ)
  pub attribute_name : List ℕ
  pub aggregate_func : Option Aggregate
  pub aggregate_func_name : Option (List ℕ)

-- TupleField
pub record TupleField : Type 0 where
  pub attr_type : AttrType
  pub field : Field
  pub agg_name : Option (List ℕ)

-- How a step of group_by ends: with a value, with INVALID_ARGUMENT, or with an index that is not set.
pub data Step {ℓ} (A : Type ℓ) : Type ℓ where
  ok : A → Step A
  invalid unset : Step A

infixl 5 ◌>>=◌
abbrev pub ◌>>=◌ {ℓ κ} : {A : Type ℓ} {B : Type κ} → Step A → (A → Step B) → Step B
ok a >>= f = f a
invalid >>= f = invalid
unset >>= f = unset

abbrev pub found {ℓ} : {A : Type ℓ} → Option A → Step A
found none = unset
found (some a) = ok a

abbrev pub get_elem {ℓ} : {A : Type ℓ} → List A → ℕ → Option A
get_elem [] i = none
get_elem (x ∷ xs) zero = some x
get_elem (x ∷ xs) (suc i) = get_elem xs i

abbrev pub is_star : List ℕ → Bool
is_star name = name_eq name (b'*' ∷ [])

abbrev pub is_aggregate : RelAttr → Bool
is_aggregate attr = elim attr.aggregate_func [ none ↦ false | some _ ↦ true ]

-- Is there an aggregation function among the attributes?
unfoldable pub agg_flag : List RelAttr → Bool
agg_flag [] = false
agg_flag (attr ∷ attrs) = is_aggregate attr || agg_flag attrs

abbrev pub relation_fits : Option (List ℕ) → Field → Bool
relation_fits none f = true
relation_fits (some name) f = name_eq name f.table_name

-- The loop that sets `loc[i]`
unfoldable pub locate : List TupleField → RelAttr → ℕ → Option ℕ
locate [] attr j = none
locate (f ∷ fields) attr j =
    let rest = locate fields attr (j + 1) in
    if (is_star attr.attribute_name || name_eq attr.attribute_name f.field.field_name)
      && relation_fits attr.relation_name f.field
    then some j
    else rest

abbrev refuses_star : Option Aggregate → Bool
refuses_star none = false
refuses_star (some count) = false
refuses_star (some _) = true

abbrev table_of : Option (List ℕ) → List ℕ → List ℕ
table_of none first_relation = first_relation
table_of (some name) first_relation = name

-- The field of the new schema for an attribute that stands at `loc`.
unfoldable pub new_field : RelAttr → List ℕ → Option Aggregate → TupleField → TupleField
new_field attr first_relation none f = record {
  attr_type = f.attr_type;
  field = f.field;
  agg_name = none;
}
new_field attr first_relation (some func) f = record {
  attr_type = elim func [ count ↦ ints | max ↦ f.attr_type | min ↦ f.attr_type | avg ↦ floats ];
  field = record {
    table_name = table_of attr.relation_name first_relation;
    field_name = attr.attribute_name;
  };
  agg_name = attr.aggregate_func_name;
}

-- Pass 1: the place of each attribute, and the new schema.
unfoldable pub remake_schema :
    List TupleField → List ℕ → List RelAttr → Step (List (ℕ × TupleField))
unfolding locate new_field
remake_schema fields first_relation [] = ok []
remake_schema fields first_relation (attr ∷ attrs) =
    let rest = remake_schema fields first_relation attrs in
    if is_star attr.attribute_name && refuses_star attr.aggregate_func then invalid else do
      loc ← found (locate fields attr 0)
      f ← found (get_elem fields loc)
      later ← rest
      ok ((loc, new_field attr first_relation attr.aggregate_func f) ∷ later)

-- The loop that sets `compare[i]`
unfoldable pub group_column : List TupleField → Field → ℕ → Option ℕ
group_column [] attr j = none
group_column (f ∷ fields) attr j =
    let rest = group_column fields attr (j + 1) in
    if name_eq attr.table_name f.field.table_name && name_eq attr.field_name f.field.field_name
    then some j
    else rest

-- The columns to group by; `strcmp` takes no null pointer, so the attributes have their tables.
unfoldable pub group_columns : List TupleField → List Field → Step (List ℕ)
unfolding group_column
group_columns fields [] = ok []
group_columns fields (attr ∷ attrs) = do
  column ← found (group_column fields attr 0)
  columns ← group_columns fields attrs
  ok (column ∷ columns)

-- What a text that prints as NULL compares equal to, in both cases of letters.
abbrev pub is_null_text : List ℕ → Bool
is_null_text s = name_eq (map to_lower s) (b'n' ∷ b'u' ∷ b'l' ∷ b'l' ∷ [])

-- The bytes of "NULL"
abbrev pub null_string : List ℕ
null_string = b'N' ∷ b'U' ∷ b'L' ∷ b'L' ∷ []

-- The arithmetic of `float` and `double`.
pub record Floats : Type 1 where
  pub Float : Type 0
  pub Double : Type 0
  pub of_int : ℤ → Float
  pub add : Float → Float → Float
  pub sub : Float → Float → Float
  pub mul : Float → Float → Float
  pub div : Float → Float → Float
  pub widen : Float → Double
  pub narrow : Double → Float
  pub tenth : Double
  pub half : Double
  pub add_double : Double → Double → Double
  pub mul_double : Double → Double → Double
  pub div_double : Double → Double → Double
  pub truncate : Double → ℤ

module _ (fs : Floats) where
  open fs use {
    Float, of_int, add, sub, mul, div, widen, narrow, tenth, half, add_double, mul_double,
    div_double, truncate,
  }

  -- The loop for the digits before the point, upwards.
  unfoldable pub integer_part : List ℕ → ℕ → ℕ → Float → Float
  integer_part s zero i inte = inte
  integer_part s (suc rounds) i inte =
      integer_part s rounds (i + 1)
        (sub (add (mul inte (of_int (pos 10))) (of_int (pos (get_or s i 0)))) (of_int (pos b'0')))

  -- The loop for the digits behind the point, downwards; `rounds` is i - p.
  unfoldable pub decimals : List ℕ → ℕ → ℕ → Float → Float
  decimals s p zero deci = deci
  decimals s p (suc rounds) deci = decimals s p rounds (
      narrow (
        add_double (div_double (widen deci) (widen (of_int (pos 10))))
          (mul_double tenth (widen (of_int (sub_ℕ (get_or s (p + rounds + 1) 0) b'0'))))))

  -- TupleSet::float_from_string
  unfoldable pub float_from_string : List ℕ → Float
  unfolding integer_part decimals first_from
  float_from_string s =
      let p : ℕ = elim (first_from (λ i. get_or s i 0 == b'.') (length s) 0) [
        | none ↦ length s
        | some i ↦ i
      ] in
      add (integer_part s p 0 (of_int (pos 0))) (decimals s p (length s - (p + 1)) (of_int (pos 0)))

  -- Avg /= Count, and the rounding to two decimals
  unfoldable pub average : ℕ → Float → Float
  average n sum =
      let mean = div sum (of_int (pos n)) in
      let temp = truncate (add_double (widen (mul mean (of_int (pos 100)))) half) in
      narrow (div_double (widen (of_int temp)) (widen (of_int (pos 100))))

-- What group_by asks of values: their text, and new values.
pub record Printing (vs : Values) (fs : Floats) : Type 1 where
  pub to_string : Values.Value vs → List ℕ
  pub int_value : ℕ → Values.Value vs
  pub float_value : Floats.Float fs → Values.Value vs
  pub string_value : List ℕ → Values.Value vs

module _ (vs : Values) where
  open vs use {Value, compare}

  -- The loop over the earlier tuples: the group of the first one that is equal.
  unfoldable pub find_group : List ℕ → Tuple vs → List (Tuple vs × ℕ) → Option ℕ
  find_group columns t [] = none
  find_group columns t ((u, id) ∷ earlier) =
      let rest = find_group columns t earlier in
      if tuple_compare vs columns t u then some id else rest

  -- Pass 2: the tuples with their group_id, and group_cnt. `earlier` are the tuples before.
  unfoldable pub make_groups :
      List ℕ → List (Tuple vs × ℕ) → ℕ → List (Tuple vs) → List (Tuple vs × ℕ) × ℕ
  make_groups columns earlier group_cnt [] = (earlier, group_cnt)
  make_groups columns earlier group_cnt (t ∷ ts) =
      let group = find_group columns t earlier in
      make_groups columns (earlier ++ ((t, elim group [ none ↦ group_cnt | some id ↦ id ]) ∷ []))
        (elim group [ none ↦ group_cnt + 1 | some id ↦ group_cnt ]) ts

  -- tuples_group
  unfoldable pub members : ℕ → List (Tuple vs × ℕ) → List (Tuple vs)
  members i [] = []
  members i ((t, id) ∷ ts) = let rest = members i ts in if id == i then t ∷ rest else rest

  abbrev pub larger : Option Value → Value → Option Value
  larger none v = some v
  larger (some m) v = some (if ltb_ℤ (compare m v) (pos 0) then v else m)

  abbrev pub smaller : Option Value → Value → Option Value
  smaller none v = some v
  smaller (some m) v = some (if ltb_ℤ (pos 0) (compare m v) then v else m)

  module _ (fs : Floats) (printing : Printing vs fs) where
    open fs use {Float, of_int, add}
    open printing use {to_string, int_value, float_value, string_value}

    pub record Sums : Type 0 where
      pub counted : ℕ
      pub greatest : Option Value
      pub least : Option Value
      pub total : Float
      pub null_avg : Bool

    abbrev pub no_sums : Sums
    no_sums = record {
      counted = 0;
      greatest = none;
      least = none;
      total = of_int (pos 0);
      null_avg = true;
    }

    -- The switch in the loop over the tuples of a group
    unfoldable pub take_in : Aggregate → Sums → Value → Sums
    take_in count sums v = record sums { counted = sums.counted + 1 }
    take_in max sums v = record sums {
      counted = sums.counted + 1;
      greatest = larger sums.greatest v;
    }
    take_in min sums v = record sums { counted = sums.counted + 1; least = smaller sums.least v }
    take_in avg sums v = record sums {
      counted = sums.counted + 1;
      total = add sums.total (float_from_string fs (to_string v));
      null_avg = false;
    }

    -- The loop over the tuples of a group
    unfoldable pub sum_up : Aggregate → ℕ → Sums → List (Tuple vs) → Sums
    sum_up func loc sums [] = sums
    sum_up func loc sums (t ∷ ts) =
        sum_up func loc
          (if is_null_text (to_string (t loc)) then sums else take_in func sums (t loc)) ts

    abbrev pub or_null : Option Value → Value
    or_null none = string_value null_string
    or_null (some v) = v

    -- What is added to the new tuple
    unfoldable pub result_of : Aggregate → Sums → Value
    result_of count sums = int_value sums.counted
    result_of max sums = or_null sums.greatest
    result_of min sums = or_null sums.least
    result_of avg sums =
        if sums.null_avg
        then string_value null_string
        else float_value
            (if sums.counted == 0 then sums.total else average fs sums.counted sums.total)

    -- One value of the new tuple of a group
    unfoldable pub new_value : List (Tuple vs) → Tuple vs → Option Aggregate → ℕ → Value
    new_value group first none loc = first loc
    new_value group first (some func) loc = result_of func (sum_up func loc no_sums group)

    unfoldable pub new_values :
        List (Tuple vs) → Tuple vs → List RelAttr → List (ℕ × TupleField) → List Value
    new_values group first (attr ∷ attrs) ((loc, f) ∷ locs) =
        new_value group first attr.aggregate_func loc ∷ new_values group first attrs locs
    new_values group first _ _ = []

    -- The new tuple of a group; an empty group has no first tuple.
    unfoldable pub new_tuple :
        List RelAttr → List (ℕ × TupleField) → List (Tuple vs) → Step (List Value)
    new_tuple attrs locs [] = unset
    new_tuple attrs locs (first ∷ group) = ok (new_values (first ∷ group) first attrs locs)

    -- Pass 3, from the group `i` on
    unfoldable pub new_tuples :
        List RelAttr
        → List (ℕ × TupleField)
        → List (Tuple vs × ℕ)
        → ℕ
        → ℕ
        → Step (List (List Value))
    new_tuples attrs locs ts zero i = ok []
    new_tuples attrs locs ts (suc rounds) i = do
      t ← new_tuple attrs locs (members i ts)
      later ← new_tuples attrs locs ts rounds (i + 1)
      ok (t ∷ later)

    -- What group_by leaves: the tuple set as it was, or a new schema and new tuples.
    pub data Grouped : Type 0 where
      as_was : Rc → Grouped
      remade : List TupleField → List (List Value) → Grouped
      not_set : Grouped

    abbrev pub grouped : Step Grouped → Grouped
    grouped (ok g) = g
    grouped invalid = as_was invalid_argument
    grouped unset = not_set

    -- The three passes
    unfoldable pub remake :
        List TupleField → List (Tuple vs) → List RelAttr → List ℕ → List Field → Step Grouped
    remake fields ts attrs first_relation group_attrs = do
      locs ← remake_schema fields first_relation attrs
      columns ← group_columns fields group_attrs
      let groups = make_groups columns [] 0 ts
      rows ← new_tuples attrs locs groups.0 groups.1 0
      ok (remade (map (λ l. l.1) locs) rows)

    -- TupleSet::group_by
    unfoldable pub group_by :
        List TupleField → List (Tuple vs) → List RelAttr → List ℕ → List Field → Grouped
    group_by fields ts attrs first_relation group_attrs =
        if agg_flag attrs
        then grouped (remake fields ts attrs first_relation group_attrs)
        else as_was success
