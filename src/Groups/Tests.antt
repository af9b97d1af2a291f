-- ===== src/Groups/Tests.antt =====
-- Tuples of numbers below 10, of which 0 prints as NULL, grouped and aggregated.
use oceanbase.Base.{
  ℕ, ◌+◌, ◌-◌, ◌*◌, ◌/◌, ◌≡◌, refl, none, some, List, [], ◌∷◌, map, if◌then◌else◌, ◌==◌,
}
use oceanbase.Base.Int.{pos, pos_part, sub_ℕ, sub_ℕ_le, sub_ℕ_ge, sub_ℕ_trans}
use oceanbase.Tuples.{Values, Field, Tuple, tuple_compare}
use oceanbase.Filter.{ints}
use oceanbase.Groups.{
  Floats, Printing, RelAttr, TupleField, Aggregate, count, max, avg, ok, group_by, remade,
  remake_schema, group_columns, agg_flag, make_groups, null_string, remake, new_tuples, new_values,
  sum_up, take_in, result_of, average, new_field, find_group, members, new_tuple, new_value,
  float_from_string,
}
use oceanbase.Groups.Ids.{IsGrouping, make_groups_lem}
use oceanbase.Groups.Rows.{group_by-whole_row}

abbrev numbers : Values
numbers = record {
  Value = ℕ;
  compare = sub_ℕ;
  compare_le = sub_ℕ_le;
  compare_ge = sub_ℕ_ge;
  compare_trans = sub_ℕ_trans;
}

-- Numbers with two decimals, in hundredths.
abbrev hundredths : Floats
hundredths = record {
  Float = ℕ;
  Double = ℕ;
  of_int = λ z. pos_part z * 100;
  add = λ a b. a + b;
  sub = λ a b. a - b;
  mul = λ a b. a * b / 100;
  div = λ a b. a * 100 / b;
  widen = λ a. a;
  narrow = λ a. a;
  tenth = 10;
  half = 50;
  add_double = λ a b. a + b;
  mul_double = λ a b. a * b / 100;
  div_double = λ a b. a * 100 / b;
  truncate = λ a. pos (a / 100);
}

abbrev digits : Printing numbers hundredths
digits = record {
  to_string = λ n. if n == 0 then null_string else (n + b'0') ∷ [];
  int_value = λ n. n;
  float_value = λ f. f;
  string_value = λ s. 0;
}

abbrev name_of : ℕ → List ℕ
name_of n = n ∷ []

abbrev field_of : ℕ → TupleField
field_of n = record {
  attr_type = ints;
  field = record { table_name = name_of b't'; field_name = name_of n };
  agg_name = none;
}

abbrev fields : List TupleField
fields = field_of b'a' ∷ field_of b'b' ∷ []

abbrev plain : ℕ → RelAttr
plain n = record {
  relation_name = some (name_of b't');
  attribute_name = name_of n;
  aggregate_func = none;
  aggregate_func_name = none;
}

abbrev aggregate : ℕ → Aggregate → RelAttr
aggregate n func = record {
  relation_name = none;
  attribute_name = name_of n;
  aggregate_func = some func;
  aggregate_func_name = none;
}

-- SELECT a, COUNT(*), MAX(b), AVG(b)
abbrev attrs : List RelAttr
attrs = plain b'a' ∷ aggregate b'*' count ∷ aggregate b'b' max ∷ aggregate b'b' avg ∷ []

abbrev tuple_of : ℕ → ℕ → Tuple numbers
tuple_of a b i = if i == 0 then a else b

abbrev tuples : List (Tuple numbers)
tuples = tuple_of 1 5 ∷ tuple_of 2 0 ∷ tuple_of 1 8 ∷ []

abbrev by_a : List Field
by_a = record { table_name = name_of b't'; field_name = name_of b'a' } ∷ []

abbrev located : List (ℕ × TupleField)
located =
    (0, field_of b'a')
    ∷ (0, new_field (aggregate b'*' count) (name_of b't') (some count) (field_of b'a'))
    ∷ (1, new_field (aggregate b'b' max) (name_of b't') (some max) (field_of b'b'))
    ∷ (1, new_field (aggregate b'b' avg) (name_of b't') (some avg) (field_of b'b'))
    ∷ []

attrs-located : remake_schema fields (name_of b't') attrs ≡ ok located
unfolding remake_schema
attrs-located = refl

two_groups :
    group_by numbers hundredths digits fields tuples attrs (name_of b't') by_a
    ≡ remade (map (λ l. l.1) located) ((1 ∷ 2 ∷ 8 ∷ 650 ∷ []) ∷ (2 ∷ 1 ∷ 0 ∷ 0 ∷ []) ∷ [])
unfolding group_by remake remake_schema group_columns make_groups find_group tuple_compare members
    new_tuple new_tuples new_values new_value sum_up take_in result_of average float_from_string
    agg_flag
two_groups = refl

make_groups_lem_example :
    let groups = make_groups numbers (0 ∷ []) [] 0 tuples in
    IsGrouping numbers (0 ∷ []) groups.0 groups.1 × (map (λ p. p.0) groups.0 ≡ tuples)
make_groups_lem_example = make_groups_lem numbers (0 ∷ []) tuples

group_by-whole_row_example :
    group_by numbers hundredths digits fields [] attrs (name_of b't') []
    ≡ remade (map (λ l. l.1) located) []
unfolding agg_flag
group_by-whole_row_example =
    group_by-whole_row numbers hundredths digits fields [] attrs (name_of b't') refl attrs-located
