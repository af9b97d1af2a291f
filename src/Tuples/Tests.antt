-- ===== src/Tuples/Tests.antt =====
-- Tuples of small ints, and the theorems about the order of tuples applied to them.
use oceanbase.Base.{
  ℕ, ◌^◌, ◌<◌, ◌≡◌, refl, Bool, true, false, some, List, [], ◌∷◌, arith, if◌then◌else◌, ◌==◌,
}
use oceanbase.Base.Int.{ℤ, pos, ◌-ℤ◌}
use oceanbase.Tuples.{
  Values, Field, Tuple, int_compare, order_by, order_columns, field_index, tuple_cmp, wrap32,
}
use oceanbase.Tuples.Compare.{IsSmall, int_compare-order}
use oceanbase.Tuples.Bubble.{Ordered, order_by-Ordered}

-- IntValue, of 31 bits.
record SmallInt : Type 0 where
  value : ℤ
  small : IsSmall value

abbrev small_compare : SmallInt → SmallInt → ℤ
small_compare a b = int_compare a.value b.value

abbrev small_ints : Values
small_ints = record {
  Value = SmallInt;
  compare = small_compare;
  compare_le = λ a b h.
      (int_compare-order b.value a.value b.small a.small).1.1
        ((int_compare-order a.value b.value a.small b.small).0.0 h);
  compare_ge = λ a b h.
      (int_compare-order b.value a.value b.small a.small).0.1
        ((int_compare-order a.value b.value a.small b.small).1.0 h);
  compare_trans = λ a b c h k.
      let ab = (int_compare-order a.value b.value a.small b.small).0.0 h in
      let bc = (int_compare-order b.value c.value b.small c.small).0.0 k in
      (int_compare-order a.value c.value a.small c.small).0.1 (omega arith);
}

abbrev field_of : ℕ → Field
field_of n = record { table_name = 116 ∷ []; field_name = n ∷ [] }

abbrev small_int : (n : ℕ) → n < 2 ^ 30 → SmallInt
small_int n h = record { value = pos n; small = (h, omega arith) }

abbrev tuple_of : (n m : ℕ) → n < 2 ^ 30 → m < 2 ^ 30 → Tuple small_ints
tuple_of n m h k i = if i == 0 then small_int n h else small_int m k

abbrev three_tuples : List (Tuple small_ints)
three_tuples =
    tuple_of 2 5 (omega arith) (omega arith)
    ∷ tuple_of 1 6 (omega arith) (omega arith)
    ∷ tuple_of 2 7 (omega arith) (omega arith)
    ∷ []

-- ORDER BY the second column, descending, then the first one.
abbrev two_attrs : List (Field × Bool)
two_attrs = (field_of 98, true) ∷ (field_of 97, false) ∷ []

two_columns :
    order_columns (field_of 97 ∷ field_of 98 ∷ []) two_attrs ≡ some ((1, true) ∷ (0, false) ∷ [])
unfolding order_columns field_index
two_columns = refl

last_is_first :
    tuple_cmp small_ints
      ((1, true) ∷ [])
      (tuple_of 2 5 (omega arith) (omega arith))
      (tuple_of 1 6 (omega arith) (omega arith))
    ≡ true
unfolding tuple_cmp int_compare wrap32 ◌-ℤ◌
last_is_first = refl

order_by-Ordered_example :
    Ordered small_ints
      (field_of 97 ∷ field_of 98 ∷ [])
      two_attrs
      three_tuples
      (order_by small_ints (field_of 97 ∷ field_of 98 ∷ []) two_attrs three_tuples)
order_by-Ordered_example =
    order_by-Ordered small_ints (field_of 97 ∷ field_of 98 ∷ []) two_attrs three_tuples
