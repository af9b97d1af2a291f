-- ===== src/Filter/Tests.antt =====
-- Conditions on a small record, and the theorems about filters applied to them.
use oceanbase.Base.{
  ℕ, ◌≡◌, ◌↔◌, refl, true, false, List, [], ◌∷◌, arith, get_elem?, Option, some, none,
}
use oceanbase.Base.Int.{ℤ, pos}
use oceanbase.Base.Memory.{Memory}
use oceanbase.Rc.{invalid_argument}
use oceanbase.Filter.{
  AttrType, ints, undefined, CompOp, equal_to, less_than, ConDesc, Filter, init, read_int, filter,
}
use oceanbase.Filter.Compare.{Less, filter-ints}

abbrev byte_or_zero : Option ℕ → ℕ
byte_or_zero none = 0
byte_or_zero (some b) = b

abbrev bytes_of : List ℕ → Memory
bytes_of bs a = byte_or_zero (get_elem? bs a)

-- An int 5 and the string "ab".
abbrev small_record : Memory
small_record = bytes_of (5 ∷ 0 ∷ 0 ∷ 0 ∷ 97 ∷ 98 ∷ 0 ∷ [])

abbrev field_at : ℕ → ConDesc
field_at offset = record { is_attr = true; attr_length = 4; attr_offset = offset; value = λ a. 0 }

abbrev constant : List ℕ → ConDesc
constant bs = record { is_attr = false; attr_length = 0; attr_offset = 0; value = bytes_of bs }

abbrev filter_of : ConDesc → ConDesc → AttrType → CompOp → Filter
filter_of left right attr_type comp_op = record {
  left = left;
  right = right;
  attr_type = attr_type;
  comp_op = comp_op;
}

abbrev no_floats : Memory → Memory → ℤ
no_floats l r = pos 0

no_type : init (field_at 0) (constant []) undefined equal_to ≡ (invalid_argument, none)
unfolding init
no_type = refl

-- 5 < 7
filter-ints_example :
    (filter no_floats (filter_of (field_at 0) (constant (7 ∷ [])) ints less_than) small_record
      ≡ true)
    ↔ Less (pos 5) (pos 7)
unfolding read_int
filter-ints_example =
    filter-ints no_floats (filter_of (field_at 0) (constant (7 ∷ [])) ints less_than) small_record
      refl (omega arith, omega arith) (omega arith, omega arith)
