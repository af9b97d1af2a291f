-- ===== src/Bplus.antt =====
-- src/observer/storage/common/bplus_tree.cpp with bplus_tree.h: the B+ tree of an index.
--
-- A `Node` is the content of a page behind the file header: `keys` and `rids` are the two arrays that
-- `get_index_node` finds there, so a write to one is no write to the other. An attribute is a value of
-- the interface `Values`, which stands for `CompareKey` at the type of the index. Numbers of pages and
-- slots are 32-bit words, and -1 is `minus_one`; the parent -1 is `none`. `order` is the field of the
-- file header. A handler keeps the root page. Memory for temporary arrays can be had. Log output is
-- left out.
pub mod Compare
pub mod Order
pub mod Entries
pub mod Arrays
pub mod Create
pub mod Find
pub mod Paths
pub mod Insert
pub mod Delete
pub mod Scanner
mod Tests
use oceanbase.Base.{
  ℕ, zero, suc, ◌+◌, ◌-◌, ◌^◌, Bool, true, false, not, ◌&&◌, ◌||◌, Option, none, some, ◌==◌, ltb,
  leb, if◌then◌else◌,
}
use oceanbase.Base.First.{first_from}
use oceanbase.Base.Int.{ℤ, pos, negsuc, ltb_ℤ}
use oceanbase.Rc.{Rc}
use oceanbase.RecordPage.{Rid}
use oceanbase.Tuples.{Values, is_zero}
use oceanbase.Pages.{File, M, update}

abbrev pub minus_one : ℕ
minus_one = 2 ^ 32 - 1

-- An int, from its 32 bits.
abbrev pub signed32 : ℕ → ℤ
signed32 n = if ltb n (2 ^ 31) then pos n else negsuc (2 ^ 32 - 1 - n)

-- CmpRid
unfoldable pub cmp_rid : Rid → Rid → ℤ
cmp_rid a b =
    if ltb_ℤ (signed32 b.page_num) (signed32 a.page_num)
    then pos 1
    else if ltb_ℤ (signed32 a.page_num) (signed32 b.page_num)
    then negsuc 0
    else if ltb_ℤ (signed32 b.slot_num) (signed32 a.slot_num)
    then pos 1
    else if ltb_ℤ (signed32 a.slot_num) (signed32 b.slot_num)
    then negsuc 0
    else pos 0

abbrev pub is_negative : ℤ → Bool
is_negative (pos n) = false
is_negative (negsuc n) = true

-- tmp == -2
abbrev pub is_error : ℤ → Bool
is_error (pos n) = false
is_error (negsuc n) = n == 1

-- The state of a BplusTreeHandler that changes while it is open.
pub record Handler : Type 0 where
  pub opened : Bool
  pub root_page : ℕ
  pub header_dirty : Bool

-- An array `a` with entries `a[i - 1]`, ..., `a[i - rounds]` moved up by one, the last one first:
-- for (i = n; i > pos; i--) a[i] = a[i - 1], which goes n - pos rounds.
unfoldable pub shift_up : {A : Type 0} → ℕ → ℕ → (ℕ → A) → ℕ → A
shift_up zero i a = a
shift_up (suc rounds) i a = shift_up rounds (i - 1) (update a i (a (i - 1)))

-- for (i = pos; i < n; i++) a[i] = a[i + 1], which goes n - pos rounds.
unfoldable pub shift_down : {A : Type 0} → ℕ → ℕ → (ℕ → A) → ℕ → A
shift_down zero i a = a
shift_down (suc rounds) i a = shift_down rounds (i + 1) (update a i (a (i + 1)))

-- for (k = 0; k < rounds; k++) a[i + k] = b[j + k]
unfoldable pub copy : {A : Type 0} → ℕ → (ℕ → A) → ℕ → (ℕ → A) → ℕ → ℕ → A
copy zero a i b j = a
copy (suc rounds) a i b j = copy rounds (update a i (b j)) (i + 1) b (j + 1)

-- for (i = 0; i < n; i++) if (test(i)) break;
unfoldable pub position : (ℕ → Bool) → ℕ → ℕ
position test n = elim (first_from test n 0) [ none ↦ n | some i ↦ i ]

module _ (vs : Values) where
  open vs use {Value, compare}

  -- pkey: the attribute, and the record behind it.
  pub record Key : Type 0 where
    pub attr : Value
    pub rid : Rid

  -- CmpKey
  unfoldable pub cmp_key : Key → Key → ℤ
  cmp_key a b =
      let result = compare a.attr b.attr in if is_zero result then cmp_rid a.rid b.rid else result

  pub record Node : Type 0 where
    pub is_leaf : Bool
    pub key_num : ℕ
    pub parent : Option ℕ
    pub keys : ℕ → Key
    pub rids : ℕ → Rid

  -- The page that a pointer of an inner node names.
  abbrev pub child : Node → ℕ → ℕ
  child node i = (node.rids i).page_num

  abbrev pub Tree : Type 0
  Tree = File Node Handler

  abbrev pub Op : Type 0 → Type 0
  Op = M Node Handler

  -- What the operations rely on: the order of the tree, what the pool answers, and what is found in
  -- new pages and in memory from malloc.
  pub record Config : Type 0 where
    pub order : ℕ
    pub answer : Tree → ℕ → Rc
    pub blank : Node
    pub junk_keys : ℕ → Key
    pub junk_rids : ℕ → Rid
