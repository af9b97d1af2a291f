-- ===== src/Select/Tests.antt =====
-- Three tables of small numbers joined, and attributes attached to tables.
use oceanbase.Base.{ℕ, ◌+◌, ◌≡◌, refl, Option, none, some, List, [], ◌∷◌}
use oceanbase.Base.Int.{pos_part, sub_ℕ, sub_ℕ_le, sub_ℕ_ge, sub_ℕ_trans}
use oceanbase.Tuples.{Values, Field}
use oceanbase.Filter.{ints, equal_to, less_than}
use oceanbase.Groups.{TupleField}
use oceanbase.Select.{
  Literals, Arbiter, column, Condition, attribute, TupleSet, ValueRow, join, make_arbiters,
  dfs_cartesian,
}
use oceanbase.Select.Product.{product, passing, walked, reached, dfs_cartesian-reached}
use oceanbase.Select.Join.{all_columns, tuples_of, join-passing}
use oceanbase.Select.Scopes.{
  Table, resolve_tables, resolved, attached, headless, has_field, resolve_tables-first,
}

abbrev numbers : Values
numbers = record {
  Value = ℕ;
  compare = sub_ℕ;
  compare_le = sub_ℕ_le;
  compare_ge = sub_ℕ_ge;
  compare_trans = sub_ℕ_trans;
}

abbrev literals : Literals numbers
literals = record {
  to_string = λ n. (n + b'0') ∷ [];
  string_value = λ m. 0;
  int_value = pos_part;
  float_value = λ m. 0;
}

abbrev field : ℕ → ℕ → Field
field t a = record { table_name = t ∷ []; field_name = a ∷ [] }

abbrev tuple_field : ℕ → ℕ → TupleField
tuple_field t a = record { attr_type = ints; field = field t a; agg_name = none }

abbrev set_of : ℕ → List (ValueRow numbers) → TupleSet numbers literals
set_of t rows = record { schema = tuple_field t b'a' ∷ tuple_field t b'b' ∷ []; tuples = rows }

abbrev first : TupleSet numbers literals
first = set_of b'r' ((1 ∷ 2 ∷ []) ∷ (3 ∷ 4 ∷ []) ∷ [])

abbrev next : TupleSet numbers literals
next = set_of b's' ((1 ∷ 5 ∷ []) ∷ (3 ∷ 2 ∷ []) ∷ [])

abbrev last : TupleSet numbers literals
last = set_of b't' ((6 ∷ 1 ∷ []) ∷ (3 ∷ 3 ∷ []) ∷ [])

-- WHERE r.a = s.a AND s.b < t.a
abbrev conditions : List Condition
conditions =
    record {
      comp = equal_to;
      left = attribute (field b'r' b'a');
      right = attribute (field b's' b'a');
    }
    ∷ record {
      comp = less_than;
      left = attribute (field b's' b'b');
      right = attribute (field b't' b'a');
    }
    ∷ []

abbrev arbiters : List (Option (Arbiter numbers))
arbiters =
    some (record { left = column 0; right = column 2; cmpop = equal_to })
    ∷ some (record { left = column 3; right = column 4; cmpop = less_than })
    ∷ []

arbiters_made :
    make_arbiters numbers literals
      (all_columns numbers literals first (next ∷ last ∷ []))
      conditions
    ≡ some arbiters
unfolding make_arbiters
arbiters_made = refl

three_rows :
    join numbers literals conditions first (next ∷ last ∷ [])
    ≡ some (record {
      schema = all_columns numbers literals first (next ∷ last ∷ []);
      tuples =
          (1 ∷ 2 ∷ 1 ∷ 5 ∷ 6 ∷ 1 ∷ [])
          ∷ (3 ∷ 4 ∷ 3 ∷ 2 ∷ 6 ∷ 1 ∷ [])
          ∷ (3 ∷ 4 ∷ 3 ∷ 2 ∷ 3 ∷ 3 ∷ [])
          ∷ [];
    })
unfolding join
three_rows = refl

join-passing_example :
    (out : List (ValueRow numbers)) × (join numbers literals conditions first (next ∷ last ∷ [])
      ≡ some
          (record { schema = all_columns numbers literals first (next ∷ last ∷ []); tuples = out }))
    × (passing numbers literals arbiters
          (product numbers (first.tuples ∷ tuples_of numbers literals (next ∷ last ∷ [])))
        ≡ some out)
join-passing_example =
    join-passing numbers literals conditions first next (last ∷ []) arbiters (refl, (refl, tt))
      (refl, (refl, tt)) ((refl, (refl, tt)), ((refl, (refl, tt)), tt)) arbiters_made

dfs_cartesian-reached_example :
    dfs_cartesian numbers literals arbiters (first.tuples ∷ next.tuples ∷ last.tuples ∷ []) ([], [])
    ≡ walked numbers literals
        ([], [])
        (reached numbers literals arbiters (first.tuples ∷ next.tuples ∷ last.tuples ∷ []) [])
dfs_cartesian-reached_example =
    dfs_cartesian-reached numbers literals arbiters (first.tuples ∷ next.tuples ∷ last.tuples ∷ [])
      [] []

abbrev table_with : ℕ → List (List ℕ) → Table
table_with name fields = record { name = name ∷ []; fields = fields }

abbrev tables : List Table
tables =
    table_with b'r' ((b'a' ∷ []) ∷ [])
    ∷ table_with b's' ((b'a' ∷ []) ∷ (b'b' ∷ []) ∷ [])
    ∷ table_with b't' ((b'b' ∷ []) ∷ [])
    ∷ []

-- Both r and s have a field a, both s and t a field b.
resolve_tables-first_example :
    resolve_tables tables (headless (b'b' ∷ []) ∷ headless (b'*' ∷ []) ∷ headless (b'a' ∷ []) ∷ [])
    ≡ resolved (
        attached (headless (b'b' ∷ [])) (b's' ∷ [])
        ∷ headless (b'*' ∷ [])
        ∷ attached (headless (b'a' ∷ [])) (b'r' ∷ [])
        ∷ [])
unfolding has_field
resolve_tables-first_example =
    resolve_tables-first tables ((b'b' ∷ []) ∷ (b'*' ∷ []) ∷ (b'a' ∷ []) ∷ [])
      ((refl, (refl, tt)), ((refl, tt), (tt, tt)))
