-- ===== src/TableMeta.antt =====
-- src/observer/storage/common/table_meta.cpp, field_meta.cpp and Table::make_record of table.cpp: where
-- the columns of a table stand in its records, and a record made of values.
--
-- A name is the list of its bytes, and an int its 32 bits, so that a length of the statement, which is
-- a size_t, is cut to 32 bits and an offset wraps. A value's data is a block of a size,
-- and `size` bytes of the memory `content` may be read. The text file of a table
-- is its size and its bytes; it can always be written. What new leaves in a record and what stands on
-- the stack behind an int is an argument, `garbage`. Log output is left out.

pub mod Layout
pub mod Copied
pub mod Texts
pub mod Stored
mod Tests
use oceanbase.Base.{
  ℕ, zero, suc, ◌+◌, ◌-◌, ◌%◌, ◌^◌, Bool, true, false, not, ◌&&◌, ◌||◌, Option, none, some, List,
  [], ◌∷◌, ◌==◌, ltb, leb, if◌then◌else◌, length,
}
use oceanbase.Base.Memory.{Memory, memcpy}
use oceanbase.BufferPool.{read32, write32}
use oceanbase.Bplus.{signed32}
use oceanbase.Rc.{
  Rc, success, is_success, invalid_argument, schema_field_missing, schema_field_type_mismatch,
}
use oceanbase.Filter.{AttrType, undefined, chars, ints, floats, dates, nulls, texts}
use oceanbase.Select.{type_number}
use oceanbase.Dates.{check_dates}

pub record AttrInfo : Type 0 where
  pub name : List ℕ
  pub attr_type : AttrType
  pub attr_length : ℕ
  pub nullable : ℕ

pub record FieldMeta : Type 0 where
  pub name : List ℕ
  pub attr_type : AttrType
  pub attr_offset : ℕ
  pub attr_len : ℕ
  pub visible : Bool
  pub nullable : ℕ

pub record TableMeta : Type 0 where
  pub name : List ℕ
  pub sys_field : FieldMeta
  pub fields : List FieldMeta
  pub record_size : ℕ

abbrev pub is_named : List ℕ → Bool
is_named [] = false
is_named (zero ∷ cs) = false
is_named (suc c ∷ cs) = true

abbrev pub same_type : AttrType → AttrType → Bool
same_type a b = type_number a == type_number b

-- The conditions of FieldMeta::init on an int: at least 0, more than 0
abbrev pub is_offset : ℕ → Bool
is_offset word = ltb word (2 ^ 31)

abbrev pub is_len : ℕ → Bool
is_len word = ltb 0 word && ltb word (2 ^ 31)

-- FieldMeta::init; `none` is a field that is left as it was.
unfoldable pub field_init : List ℕ → AttrType → ℕ → ℕ → Bool → ℕ → Rc × Option FieldMeta
field_init name attr_type attr_offset attr_len visible nullable =
    if not (is_named name)
    then (invalid_argument, none)
    else if same_type undefined attr_type || not (is_offset attr_offset) || not (is_len attr_len)
    then (invalid_argument, none)
    else (
      success,
      some (record {
        name = name;
        attr_type = attr_type;
        attr_offset = attr_offset;
        attr_len = attr_len;
        visible = visible;
        nullable = nullable;
      }),
    )

abbrev pub next_offset : ℕ → ℕ → ℕ
next_offset field_offset attr_length = (field_offset + attr_length) % 2 ^ 32

abbrev pub add_field :
    Rc × Option FieldMeta → Rc × Option (List FieldMeta × ℕ) → Rc × Option (List FieldMeta × ℕ)
add_field (rc, none) rest = (rc, none)
add_field (rc, some f) (rc', none) = (rc', none)
add_field (rc, some f) (rc', some (fields, size)) = (rc', some (f ∷ fields, size))

-- The loop of TableMeta::init over the attributes, from an offset on. A table whose init fails is not
-- used, so that its fields are `none`.
unfoldable pub init_fields : ℕ → List AttrInfo → Rc × Option (List FieldMeta × ℕ)
unfolding field_init
init_fields field_offset [] = (success, some ([], field_offset))
init_fields field_offset (a ∷ attributes) =
    add_field (field_init a.name a.attr_type field_offset (a.attr_length % 2 ^ 32) true a.nullable)
      (init_fields (next_offset field_offset a.attr_length) attributes)

-- The field of TableMeta::init_sys_fields: __trx, an int
abbrev pub trx_field : FieldMeta
trx_field = record {
  name = b'_' ∷ b'_' ∷ b't' ∷ b'r' ∷ b'x' ∷ [];
  attr_type = ints;
  attr_offset = 0;
  attr_len = 4;
  visible = false;
  nullable = 0;
}

abbrev pub named_table : List ℕ → Rc × Option (List FieldMeta × ℕ) → Rc × Option TableMeta
named_table name (rc, none) = (rc, none)
named_table name (rc, some (fields, size)) =
    (rc, some (record { name = name; sys_field = trx_field; fields = fields; record_size = size }))

-- TableMeta::init
unfoldable pub table_init : List ℕ → List AttrInfo → Rc × Option TableMeta
unfolding init_fields
table_init name attributes =
    if not (is_named name)
    then (invalid_argument, none)
    else if length attributes == 0
    then (invalid_argument, none)
    else named_table name (init_fields 4 attributes)

pub record Value : Type 0 where
  pub attr_type : AttrType
  pub size : ℕ
  pub content : Memory

pub record TextFile : Type 0 where
  pub size : ℕ
  pub bytes : Memory

abbrev pub accepts : FieldMeta → Value → Bool
accepts f v =
    same_type f.attr_type v.attr_type
    || (f.nullable == 1 && same_type v.attr_type nulls)
    || (same_type f.attr_type texts && same_type v.attr_type chars)

-- A value that make_record hands to check_dates, which refuses it
abbrev pub is_bad_date : Value → Bool
is_bad_date v =
    same_type v.attr_type dates && not (is_success (check_dates (signed32 (read32 v.content 0))))

-- The first loop of Table::make_record, for as many values as fields; `none` is a read of a date of less
-- than four bytes, which is undefined behaviour.
unfoldable pub check_values : List FieldMeta → List Value → Option Rc
check_values [] vs = some success
check_values (f ∷ fs) [] = some success
check_values (f ∷ fs) (v ∷ vs) =
    let rest = check_values fs vs in
    if not (accepts f v)
    then some schema_field_type_mismatch
    else if same_type v.attr_type dates && ltb v.size 4
    then none
    else if is_bad_date v
    then some invalid_argument
    else rest

-- Does what is copied from a value, or from the offset of its text, lie in the block it is read from?
abbrev pub is_inside : FieldMeta → Value → Bool
is_inside f v =
    if same_type f.attr_type texts
    then leb f.attr_len 4 && leb 4096 v.size
    else leb f.attr_len v.size

unfoldable pub are_inside : List FieldMeta → List Value → Bool
are_inside [] vs = true
are_inside (f ∷ fs) [] = true
are_inside (f ∷ fs) (v ∷ vs) = let rest = are_inside fs vs in is_inside f v && rest

-- tellg gives -1 for a file that is not there.
abbrev pub text_offset : TextFile → ℕ
text_offset t = let offset = t.size % 2 ^ 32 in if offset == 4294967295 then 0 else offset

abbrev pub append_text : TextFile → Memory → TextFile
append_text t content = record { size = t.size + 4096; bytes = memcpy t.bytes t.size content 4096 }

-- What the second loop of Table::make_record copies into a field
abbrev pub source_of : Memory → TextFile → FieldMeta → Value → Memory
source_of garbage t f v =
    if same_type f.attr_type texts then write32 garbage 0 (text_offset t) else v.content

abbrev pub text_after : TextFile → FieldMeta → Value → TextFile
text_after t f v = if same_type f.attr_type texts then append_text t v.content else t

-- The second loop of Table::make_record
unfoldable pub copy_values :
    Memory → Memory → TextFile → List FieldMeta → List Value → Memory × TextFile
copy_values garbage r t [] vs = (r, t)
copy_values garbage r t (f ∷ fs) [] = (r, t)
copy_values garbage r t (f ∷ fs) (v ∷ vs) =
    copy_values garbage (memcpy r f.attr_offset (source_of garbage t f v) f.attr_len)
      (text_after t f v) fs vs

abbrev pub made : Memory × TextFile → Rc × Option Memory × TextFile
made (r, t) = (success, some r, t)

-- Table::make_record; `none` is undefined behaviour: a read behind the data of a value or behind an int,
-- and a record whose size is a negative int.
unfoldable pub make_record :
    TableMeta → Memory → TextFile → List Value → Option (Rc × Option Memory × TextFile)
unfolding check_values are_inside copy_values
make_record m garbage t vs =
    if not (length vs + 1 == length m.fields + 1)
    then some (schema_field_missing, none, t)
    else elim (check_values m.fields vs) [
      | none ↦ none
      | some rc ↦
          if not (is_success rc)
          then some (rc, none, t)
          else if is_offset m.record_size && are_inside m.fields vs
          then some (made (copy_values garbage garbage t m.fields vs))
          else none
    ]
