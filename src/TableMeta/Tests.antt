-- ===== src/TableMeta/Tests.antt =====
-- A table of an int, eight characters and a text, and the theorems about its records applied to it.
use oceanbase.Base.{none, ◌≡◌, refl, Option, some, [], ◌∷◌, get_or, if◌then◌else◌, ◌==◌}
use oceanbase.Base.Memory.{Memory}
use oceanbase.Rc.{success, schema_field_type_mismatch, invalid_argument}
use oceanbase.Filter.{chars, ints, texts}
use oceanbase.TableMeta.{
  AttrInfo, TableMeta, Value, TextFile, table_init, trx_field, make_record, are_inside,
  check_values,
}
use oceanbase.TableMeta.Layout.{TableOutcome, field_at, table_init-TableOutcome}

abbrev id : AttrInfo
id = record { name = b'i' ∷ b'd' ∷ []; attr_type = ints; attr_length = 4; nullable = 0 }

abbrev word : AttrInfo
word = record { name = b'w' ∷ []; attr_type = chars; attr_length = 8; nullable = 1 }

abbrev body : AttrInfo
body = record { name = b'b' ∷ []; attr_type = texts; attr_length = 4; nullable = 0 }

abbrev words : TableMeta
words = record {
  name = b't' ∷ [];
  sys_field = trx_field;
  fields = field_at 4 id ∷ field_at 8 word ∷ field_at 16 body ∷ [];
  record_size = 20;
}

-- The length of the second field is negative as an int.
init_negative :
    table_init (b't' ∷ []) (id ∷ record word { attr_length = 3000000000 } ∷ [])
    ≡ (invalid_argument, Option.none)
unfolding table_init
init_negative = refl

-- The size of the records may be negative: 4 + 1500000000 + 1500000000 is not below 2 ^ 31.
abbrev wide : AttrInfo
wide = record word { attr_length = 1500000000 }

init_wide : table_init (b't' ∷ []) (wide ∷ wide ∷ []) ≡ (
  success,
  some (record {
    name = b't' ∷ [];
    sys_field = trx_field;
    fields = field_at 4 wide ∷ field_at 1500000004 wide ∷ [];
    record_size = 3000000004;
  }),
)
unfolding table_init
init_wide = refl

abbrev seven : Value
seven = record { attr_type = ints; size = 4; content = λ k. if k == 0 then 7 else 0 }

-- A string with its final zero
abbrev hello : Value
hello = record {
  attr_type = chars;
  size = 9;
  content = λ k. get_or (b'h' ∷ b'e' ∷ b'l' ∷ b'l' ∷ b'o' ∷ b' ' ∷ b'y' ∷ b'o' ∷ []) k 0;
}

abbrev hi : Value
hi = record { attr_type = chars; size = 3; content = λ k. get_or (b'h' ∷ b'i' ∷ []) k 0 }

abbrev essay : Value
essay = record { attr_type = chars; size = 4096; content = λ k. get_or (b'h' ∷ b'i' ∷ []) k 0 }

abbrev no_text : TextFile
no_text = record { size = 0; bytes = λ _. 0 }

abbrev heap : Memory
heap = λ _. 255

swapped : check_values words.fields (hi ∷ seven ∷ hi ∷ []) ≡ some schema_field_type_mismatch
unfolding check_values
swapped = refl

-- A string that is shorter than its field is read behind its end.
too_short : make_record words heap no_text (seven ∷ hi ∷ essay ∷ []) ≡ none
unfolding make_record check_values are_inside
too_short = refl

table_init-TableOutcome_example :
    TableOutcome
      (b't' ∷ [])
      (id ∷ word ∷ body ∷ [])
      (table_init (b't' ∷ []) (id ∷ word ∷ body ∷ []))
table_init-TableOutcome_example = table_init-TableOutcome (b't' ∷ []) (id ∷ word ∷ body ∷ [])
