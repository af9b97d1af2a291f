-- ===== src/Filter.antt =====
-- src/observer/storage/common/condition_filter.cpp: does a record meet a condition?
--
-- The data of a record and the value of a condition are memories, and a side of a condition is the
-- memory from where its value starts. `strcmp` and `strcasecmp` go through at most `max_string` bytes.
-- The conversion of a difference of floats is a parameter. Log output is left out.
pub mod Strings
pub mod Compare
mod Tests
use oceanbase.Base.{
  ℕ, zero, suc, ◌+◌, ◌-◌, ◌^◌, ◌<◌, ◌≡◌, Bool, true, false, not, ◌&&◌, ◌||◌, Option, none, some,
  List, [], ◌∷◌, ◌==◌, ltb, leb, if◌then◌else◌,
}
use oceanbase.Base.Int.{ℤ, pos, negsuc, sub_ℕ, ◌-ℤ◌}
use oceanbase.Base.Memory.{Memory}
use oceanbase.Rc.{Rc, success, invalid_argument}
use oceanbase.BufferPool.{read32}
use oceanbase.Tuples.{int_compare, is_zero, is_positive}

pub data AttrType : Type 0 where
  undefined chars ints floats dates nulls texts : AttrType

pub data CompOp : Type 0 where
  equal_to less_equal not_equal less_than great_equal great_than is_null is_not_null no_op : CompOp

pub record ConDesc : Type 0 where
  pub is_attr : Bool
  pub attr_length : ℕ
  pub attr_offset : ℕ
  pub value : Memory

pub record Filter : Type 0 where
  pub left : ConDesc
  pub right : ConDesc
  pub attr_type : AttrType
  pub comp_op : CompOp

-- attr_type < CHARS || attr_type > TEXTS
abbrev is_undefined : AttrType → Bool
is_undefined undefined = true
is_undefined _ = false

-- comp_op >= NO_OP
abbrev is_no_op : CompOp → Bool
is_no_op no_op = true
is_no_op _ = false

-- DefaultConditionFilter::init; `none` leaves the filter as it was.
unfoldable pub init : ConDesc → ConDesc → AttrType → CompOp → Rc × Option Filter
init left right attr_type comp_op =
    if is_undefined attr_type
    then (invalid_argument, none)
    else if is_no_op comp_op
    then (invalid_argument, none)
    else (
      success,
      some (record { left = left; right = right; attr_type = attr_type; comp_op = comp_op }),
    )

abbrev pub max_string : ℕ
max_string = 4096

abbrev pub to_lower : ℕ → ℕ
to_lower c = if leb 65 c && leb c 90 then c + 32 else c

-- The loop of strcmp and strcasecmp, with the rounds left.
unfoldable pub compare_bytes : (ℕ → ℕ) → ℕ → Memory → Memory → ℕ → ℤ
compare_bytes f zero l r i = pos 0
compare_bytes f (suc rounds) l r i =
    let rest = compare_bytes f rounds l r (i + 1) in
    if f (l i) == f (r i) then if l i == 0 then pos 0 else rest else sub_ℕ (f (l i)) (f (r i))

abbrev pub strcmp : Memory → Memory → ℤ
strcmp l r = compare_bytes (λ c. c) max_string l r 0

abbrev pub strcasecmp : Memory → Memory → ℤ
strcasecmp l r = compare_bytes to_lower max_string l r 0

-- *(int *)value
unfoldable pub read_int : Memory → ℤ
read_int m =
    if ltb (read32 m 0) (2 ^ 31) then pos (read32 m 0) else negsuc (2 ^ 32 - 1 - read32 m 0)

-- left_value, right_value
abbrev pub value_of : ConDesc → Memory → Memory
value_of c rec = if c.is_attr then (λ i. rec (c.attr_offset + i)) else c.value

-- The switch over the operation. The last three are a panic of the log, and the result as a bool.
unfoldable pub meets : CompOp → ℤ → Bool
meets equal_to c = is_zero c
meets less_equal c = not (is_positive c)
meets not_equal c = not (is_zero c)
meets less_than c = not (is_positive c) && not (is_zero c)
meets great_equal c = is_positive c || is_zero c
meets great_than c = is_positive c
meets _ c = not (is_zero c)

-- The case of `NULLS`.
unfoldable pub null_test : CompOp → ℤ → Bool
null_test is_null c = is_zero c
null_test is_not_null c = not (is_zero c)
null_test _ c = false

-- `float_result l r` is (int)(100.0*(l - r)) of the floats with the bytes `l` and `r`.
module _ (float_result : Memory → Memory → ℤ) where
  unfoldable pub filter_values : AttrType → CompOp → Memory → Memory → Bool
  filter_values chars op l r = meets op (strcmp l r)
  filter_values ints op l r = meets op (int_compare (read_int l) (read_int r))
  filter_values floats op l r = meets op (float_result l r)
  filter_values dates op l r = meets op (int_compare (read_int l) (read_int r))
  filter_values nulls op l r = null_test op (strcasecmp l r)
  filter_values texts op l r = meets op (pos 0)
  filter_values undefined op l r = meets op (pos 0)

  -- DefaultConditionFilter::filter
  unfoldable pub filter : Filter → Memory → Bool
  filter f rec = filter_values f.attr_type f.comp_op (value_of f.left rec) (value_of f.right rec)

  -- CompositeConditionFilter::filter
  unfoldable pub filter_all : List Filter → Memory → Bool
  filter_all [] rec = true
  filter_all (f ∷ fs) rec =
      let rest = filter_all fs rec in if not (filter f rec) then false else rest
