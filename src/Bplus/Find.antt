-- ===== src/Bplus/Find.antt =====
-- bplus_tree.cpp: from the root to a leaf, and to an entry.
pub mod Route
pub mod Descent
pub mod Lookup
use oceanbase.Base.{
  ℕ, zero, suc, ◌+◌, ◌-◌, ◌/◌, ◌^◌, Bool, true, false, not, ◌&&◌, ◌||◌, Option, none, some, ◌==◌,
  ltb, leb, if◌then◌else◌,
}
use oceanbase.Base.First.{first_from}
use oceanbase.Base.Int.{ℤ, pos, negsuc}
use oceanbase.Rc.{
  Rc, success, invalid_argument, record_closed, record_eof, record_invalid_key,
  record_duplicate_key,
}
use oceanbase.RecordPage.{Rid}
use oceanbase.Tuples.{Values, is_zero, is_positive}
use oceanbase.Filter.{CompOp, equal_to, less_equal, not_equal, less_than, great_equal, great_than}
use oceanbase.Pages.{
  File, Result, ok, err, out_of_rounds, M, pure, fail, stop, ◌>>=◌, ◌>>◌, update, read_page,
  write_page, read_handler, write_handler, unpin_page, dispose_page, get_this_page, allocate_page,
}
use oceanbase.Bplus.{
  minus_one, is_negative, is_error, Handler, shift_up, shift_down, copy, position, Key, Node, child,
  Tree, Op, Config, cmp_key,
}

module _ (vs : Values) where
  -- The pointer that a search follows: behind the last key that is not greater.
  abbrev pub route : Key vs → Node vs → ℕ
  route key node = position (λ i. is_negative (cmp_key vs key (node.keys i))) node.key_num

module _ (vs : Values) (c : Config vs) where
  open vs use {Value, compare}
  open c use {order, answer}

  abbrev pub get_page : ℕ → Op vs (Unit {0})
  get_page = get_this_page answer

  -- The loop of `find_leaf`, from a page that is pinned.
  unfoldable pub descend : ℕ → Key vs → ℕ → Op vs ℕ
  descend zero key page = stop
  descend (suc rounds) key page = do
    node ← read_page page
    unpin_page page
    let next = child vs node (route vs key node)
    let rest = get_page next >> descend rounds key next
    if node.is_leaf then pure page else rest

  unfoldable pub find_leaf : ℕ → Key vs → Op vs ℕ
  unfolding descend
  find_leaf rounds key = do h ← read_handler; get_page h.root_page; descend rounds key h.root_page

  -- tmp == 0 || tmp == -2, for the attribute alone
  abbrev pub is_taken : Key vs → Key vs → Bool
  is_taken key k = is_zero (compare key.attr k.attr) || is_error (compare key.attr k.attr)

  -- The loop of `find_leaf_unique`. What it refuses leaves the page pinned.
  unfoldable pub descend_unique : ℕ → Key vs → ℕ → Op vs ℕ
  descend_unique zero key page = stop
  descend_unique (suc rounds) key page = do
    node ← read_page page
    let i =
        position
          (λ i. is_taken key (node.keys i) || is_negative (compare key.attr (node.keys i).attr))
          node.key_num
    let next = child vs node i
    let rest = unpin_page page >> (get_page next >> descend_unique rounds key next)
    let inner =
        if ltb i node.key_num && is_taken key (node.keys i) then fail invalid_argument else rest
    let taken = ltb (position (λ i. is_taken key (node.keys i)) node.key_num) node.key_num
    let leaf = if taken then fail invalid_argument else unpin_page page >> pure page
    if node.is_leaf then leaf else inner

  unfoldable pub find_leaf_unique : ℕ → Key vs → Op vs ℕ
  unfolding descend_unique
  find_leaf_unique rounds key = do
    h ← read_handler
    get_page h.root_page
    descend_unique rounds key h.root_page

  -- The leaf that `get_entry` looks into stays pinned.
  unfoldable pub get_entry : ℕ → Key vs → Op vs Rid
  unfolding find_leaf
  get_entry rounds key = do
    page ← find_leaf rounds key
    get_page page
    leaf ← read_page page
    let i = position (λ i. is_zero (cmp_key vs key (leaf.keys i))) leaf.key_num
    if ltb i leaf.key_num then pure (leaf.rids i) else fail record_invalid_key

  -- The loop of `get_first_leaf_page`.
  unfoldable pub descend_first : ℕ → ℕ → Op vs ℕ
  descend_first zero page = stop
  descend_first (suc rounds) page = do
    node ← read_page page
    unpin_page page
    let next = child vs node 0
    let rest = get_page next >> descend_first rounds next
    if node.is_leaf then pure page else rest

  unfoldable pub get_first_leaf_page : ℕ → Op vs ℕ
  unfolding descend_first
  get_first_leaf_page rounds = do
    h ← read_handler
    get_page h.root_page
    descend_first rounds h.root_page

  -- Does the scan start at a key that compares like this with the value?
  abbrev pub starts : CompOp → ℤ → Bool
  starts equal_to tmp = not (is_negative tmp)
  starts great_equal tmp = not (is_negative tmp)
  starts great_than tmp = is_positive tmp
  starts _ tmp = false

  -- The loop over the leaves; each one that holds no such key stays pinned, the last one apart.
  unfoldable pub first_in_leaves : ℕ → CompOp → Value → ℕ → ℕ → Op vs (ℕ × ℕ)
  first_in_leaves zero op value last next = stop
  first_in_leaves (suc rounds) op value last next =
      let search = do
        get_page next
        node ← read_page next
        elim (first_from (λ i. starts op (compare (node.keys i).attr value)) node.key_num 0) [
          | some i ↦ (unpin_page next >> pure (next, i))
          | none ↦ first_in_leaves rounds op value next (child vs node (order - 1))
        ]
      in if ltb 0 next && ltb next (2 ^ 31) then search else unpin_page last >> fail record_eof

  unfoldable pub find_first_index_satisfied : ℕ → CompOp → Value → Op vs (ℕ × ℕ)
  unfolding get_first_leaf_page find_leaf first_in_leaves
  find_first_index_satisfied rounds op value =
      let from_first = do page ← get_first_leaf_page rounds; pure (page, 0)
      in let from_key = do
        page ←
            find_leaf rounds
              (record { attr = value; rid = record { page_num = minus_one; slot_num = minus_one } })
        first_in_leaves rounds op value page page
        in elim op [
          | less_than ↦ from_first
          | less_equal ↦ from_first
          | not_equal ↦ from_first
          | _ ↦ from_key
        ]
