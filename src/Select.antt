-- ===== src/Select.antt =====
-- src/observer/sql/executor/execute_stage.cpp: how a SELECT over several tables joins their tuples.
--
-- A tuple is the list of its values. What is asked of values is `Values`, with the text of a value and
-- the values that a constant in a condition makes, the interface `Literals`. A table is its name and
-- fields; its name stands for the pointer to it. A failed assertion, a function that ends without a
-- `return`, and a value read behind the end of a tuple are `none`. Log output is left out.
pub mod Product
pub mod Arbiters
pub mod Steps
pub mod Join
pub mod Scopes
mod Tests
use oceanbase.Base.{
  ℕ, zero, suc, ◌+◌, ◌-◌, ◌≡◌, Bool, true, false, not, ◌&&◌, ◌||◌, Option, none, some, List, [],
  ◌∷◌, ◌++◌, ◌==◌, if◌then◌else◌, length, get_elem?,
}
use oceanbase.Base.Int.{ℤ, pos, ltb_ℤ}
use oceanbase.Base.Memory.{Memory}
use oceanbase.Rc.{Rc, success, schema_field_not_exist, schema_field_redundan}
use oceanbase.Tuples.{Values, Field, name_eq, is_zero, is_positive}
use oceanbase.Filter.{
  AttrType, undefined, chars, ints, floats, dates, nulls, texts, CompOp, equal_to, less_equal,
  not_equal, less_than, great_equal, great_than, is_null, is_not_null, no_op, read_int,
}
use oceanbase.Groups.{TupleField, is_star}
use oceanbase.Groups

infixl 5 ◌>>=◌
abbrev pub ◌>>=◌ {ℓ κ} : {A : Type ℓ} {B : Type κ} → Option A → (A → Option B) → Option B
none >>= f = none
some a >>= f = f a

-- match_result
unfoldable pub match_result : CompOp → ℤ → Option Bool
match_result equal_to c = some (is_zero c)
match_result less_equal c = some (not (ltb_ℤ (pos 0) c))
match_result not_equal c = some (not (is_zero c))
match_result less_than c = some (ltb_ℤ c (pos 0))
match_result great_equal c = some (not (ltb_ℤ c (pos 0)))
match_result great_than c = some (ltb_ℤ (pos 0) c)
match_result _ c = none

-- The numbers of AttrType
abbrev pub type_number : AttrType → ℕ
type_number undefined = 0
type_number chars = 1
type_number ints = 2
type_number floats = 3
type_number dates = 4
type_number nulls = 5
type_number texts = 6

-- A constant of a condition: its type and its bytes.
pub record Immediate : Type 0 where
  pub attr_type : AttrType
  pub bytes : Memory

-- The loop of Arbiter::Arbiter that looks for a field
unfoldable pub column_of : List TupleField → Field → ℕ → Option ℕ
column_of [] attr i = none
column_of (f ∷ fields) attr i =
    let rest = column_of fields attr (i + 1) in
    if name_eq f.field.field_name attr.field_name && name_eq f.field.table_name attr.table_name
    then some i
    else rest

-- One side of a condition
pub data Side : Type 0 where
  attribute : Field → Side
  constant : Immediate → Side

pub record Condition : Type 0 where
  pub comp : CompOp
  pub left : Side
  pub right : Side

-- What the condition needs of values beyond their order.
pub record Literals (vs : Values) : Type 0 where
  pub to_string : Values.Value vs → List ℕ
  pub string_value : Memory → Values.Value vs
  pub int_value : ℤ → Values.Value vs
  pub float_value : Memory → Values.Value vs

module _ (vs : Values) where
  open vs use {Value, compare}

  abbrev pub ValueRow : Type 0
  ValueRow = List Value

  -- `lhs` and `rhs` of an Arbiter, with `ltv` and `rtv`
  pub data Operand : Type 0 where
    column : ℕ → Operand
    value : Value → Operand

  pub record Arbiter : Type 0 where
    pub left : Operand
    pub right : Operand
    pub cmpop : CompOp

  unfoldable pub pop_back : ValueRow → ValueRow
  pop_back [] = []
  pop_back (v ∷ []) = []
  pop_back (v ∷ w ∷ rest) = v ∷ pop_back (w ∷ rest)

  unfoldable pub pop_all : ℕ → ValueRow → ValueRow
  unfolding pop_back
  pop_all zero tup = tup
  pop_all (suc n) tup = pop_all n (pop_back tup)

  -- What dfs_cartesian works on: `current_tuple` and `output`.
  abbrev pub Walk : Type 0
  Walk = ValueRow × List ValueRow

  -- The loop over the tuples of one set, with the recursive call.
  unfoldable pub each_tuple : (Walk → Option Walk) → List ValueRow → Walk → Option Walk
  unfolding pop_all
  each_tuple deeper [] w = some w
  each_tuple deeper (t ∷ ts) (current, output) = do
    w ← deeper (current ++ t, output)
    each_tuple deeper ts (pop_all (length t) w.0, w.1)

  abbrev pub put_out : Walk → Option Bool → Option Walk
  put_out w none = none
  put_out (current, output) (some passes) =
      some (current, if passes then output ++ (current ∷ []) else output)

  module _ (ls : Literals vs) where
    open ls use {to_string, string_value, int_value, float_value}

    unfoldable pub build_value : Immediate → Option Value
    build_value v = elim v.attr_type [
      | chars ↦ some (string_value v.bytes)
      | ints ↦ some (int_value (read_int v.bytes))
      | floats ↦ some (float_value v.bytes)
      | _ ↦ none
    ]

    -- A side of a condition, looked up: a field that is not there, a constant that cannot be built, or
    -- an operand with its type.
    pub data Ready : Type 0 where
      absent bad : Ready
      ready : Operand → AttrType → Ready

    abbrev pub field_ready : ℕ → Option TupleField → Ready
    field_ready i none = bad
    field_ready i (some f) = ready (column i) f.attr_type

    abbrev pub column_ready : List TupleField → Option ℕ → Ready
    column_ready fields none = absent
    column_ready fields (some i) = field_ready i (get_elem? fields i)

    abbrev pub value_ready : AttrType → Option Value → Ready
    value_ready t none = bad
    value_ready t (some v) = ready (value v) t

    unfoldable pub look_up : List TupleField → Side → Ready
    unfolding build_value column_of
    look_up fields (attribute attr) = column_ready fields (column_of fields attr 0)
    look_up fields (constant v) = value_ready v.attr_type (build_value v)

    -- The outcome of the constructor of an arbiter: not valid, valid, or a failed assertion. One that is not
    -- valid is printed, for which the constant on its other side is built.
    abbrev pub settle_sides : CompOp → Ready → Ready → Option (Option Arbiter)
    settle_sides op absent absent = some none
    settle_sides op absent bad = none
    settle_sides op absent (ready b u) = some none
    settle_sides op bad r = none
    settle_sides op (ready a t) absent = some none
    settle_sides op (ready a t) bad = none
    settle_sides op (ready a t) (ready b u) =
        if type_number t == type_number u
        then some (some (record { left = a; right = b; cmpop = op }))
        else none

    -- Arbiter::Arbiter; an arbiter that is not valid is `some none`.
    unfoldable pub make_arbiter : List TupleField → Condition → Option (Option Arbiter)
    unfolding look_up
    make_arbiter fields rule =
        settle_sides rule.comp (look_up fields rule.left) (look_up fields rule.right)

    abbrev pub operand_value : ValueRow → Operand → Option Value
    operand_value tup (column i) = get_elem? tup i
    operand_value tup (value v) = some v

    abbrev pub prints_null : Value → Bool
    prints_null v = Groups.is_null_text (to_string v)

    -- The tests for NULL in Arbiter::judge; `compared` is the outcome of the comparison.
    unfoldable pub judge_nulls : CompOp → Bool → Bool → Option Bool → Option Bool
    judge_nulls is_null true true compared = some true
    judge_nulls is_null true false compared = some false
    judge_nulls is_null false true compared = some false
    judge_nulls is_not_null true true compared = some false
    judge_nulls is_not_null true false compared = some true
    judge_nulls is_not_null false true compared = some true
    judge_nulls op lnull rnull compared = if lnull || rnull then some false else compared

    unfoldable pub judge : Option Arbiter → ValueRow → Option Bool
    unfolding judge_nulls match_result
    judge none tup = some true
    judge (some a) tup = do
      lval ← operand_value tup a.left
      rval ← operand_value tup a.right
      judge_nulls a.cmpop (prints_null lval) (prints_null rval)
          (match_result a.cmpop (compare lval rval))

    abbrev pub if_passed : Option Bool → Option Bool → Option Bool
    if_passed none rest = none
    if_passed (some true) rest = rest
    if_passed (some false) rest = some false

    -- The loop over the arbiters in dfs_cartesian, which ends at the first one that refuses.
    unfoldable pub judge_all : List (Option Arbiter) → ValueRow → Option Bool
    unfolding judge
    judge_all [] tup = some true
    judge_all (a ∷ arbiters) tup = if_passed (judge a tup) (judge_all arbiters tup)

    -- dfs_cartesian over the sets from `ts_depth` on
    unfoldable pub dfs_cartesian : List (Option Arbiter) → List (List ValueRow) → Walk → Option Walk
    unfolding each_tuple judge_all
    dfs_cartesian arbiters [] w = put_out w (judge_all arbiters w.0)
    dfs_cartesian arbiters (s ∷ sets) w = each_tuple (dfs_cartesian arbiters sets) s w

    -- TupleSet, as the columns of its schema and its tuples
    pub record TupleSet : Type 0 where
      pub schema : List TupleField
      pub tuples : List ValueRow

    -- The arbiters of the conditions that are not local to one table
    unfoldable pub make_arbiters : List TupleField → List Condition → Option (List (Option Arbiter))
    unfolding make_arbiter
    make_arbiters fields [] = some []
    make_arbiters fields (c ∷ conds) = do
      a ← make_arbiter fields c
      arbiters ← make_arbiters fields conds
      some (a ∷ arbiters)

    -- One round of the loop in manual_do_select over the sets of tuples
    unfoldable pub join_two : List Condition → TupleSet → TupleSet → Option TupleSet
    unfolding make_arbiters dfs_cartesian
    join_two conds first second = do
      arbiters ← make_arbiters (first.schema ++ second.schema) conds
      w ← dfs_cartesian arbiters (first.tuples ∷ second.tuples ∷ []) ([], [])
      some (record { schema = first.schema ++ second.schema; tuples = w.1 })

    unfoldable pub join : List Condition → TupleSet → List TupleSet → Option TupleSet
    unfolding join_two
    join conds first [] = some first
    join conds first (second ∷ more) = do
      joined ← join_two conds first second
      join conds joined more
