-- ===== src/Bplus/Delete.antt =====
-- bplus_tree.cpp: deletion, with nodes that are merged with a neighbour or take an entry from it.
pub mod Entry
pub mod Plenty
pub mod Merge
pub mod Neighbours
use oceanbase.Base.{
  ℕ, zero, suc, ◌+◌, ◌-◌, ◌/◌, ◌^◌, Bool, true, false, not, ◌&&◌, ◌||◌, Option, none, some, ◌==◌,
  ltb, leb, if◌then◌else◌,
}
use oceanbase.Base.First.{first_from}
use oceanbase.Base.Int.{ℤ, pos, negsuc}
use oceanbase.Rc.{
  Rc, success, invalid_argument, record_closed, record_eof, record_invalid_key,
  record_duplicate_key,
}
use oceanbase.RecordPage.{Rid}
use oceanbase.Tuples.{Values, is_zero, is_positive}
use oceanbase.Filter.{CompOp, equal_to, less_equal, not_equal, less_than, great_equal, great_than}
use oceanbase.Pages.{
  File, Result, ok, err, out_of_rounds, M, pure, fail, stop, ◌>>=◌, ◌>>◌, update, read_page,
  write_page, read_handler, write_handler, unpin_page, dispose_page, get_this_page, allocate_page,
}
use oceanbase.Bplus.{
  minus_one, is_negative, Handler, shift_up, shift_down, copy, position, Key, Node, child, Tree, Op,
  Config, cmp_key,
}
use oceanbase.Bplus.Find.{find_leaf}
use oceanbase.Bplus.Insert.{set_parent, adopt}

module _ (vs : Values) where
  -- What `delete_entry_from_node` does to the node: the entry at `i`, and in an inner node the pointer
  -- behind it.
  unfoldable pub node_delete : Node vs → ℕ → Node vs
  node_delete node i = record node {
    keys = shift_down (node.key_num - 1 - i) i node.keys;
    rids =
        if node.is_leaf
        then shift_down (node.key_num - 1 - i) i node.rids
        else shift_down (node.key_num - (i + 1)) (i + 1) node.rids;
    key_num = node.key_num - 1;
  }

  -- The place of a page in its parent.
  abbrev pub place_of : ℕ → Node vs → ℕ
  place_of page parent = position (λ k. child vs parent k == page) parent.key_num

  -- What `coalesce_node` makes of two leaves, and of two inner nodes with the key between them.
  unfoldable pub merge_leaves : ℕ → Node vs → Node vs → Node vs
  merge_leaves order left right = record left {
    keys = copy right.key_num left.keys left.key_num right.keys 0;
    rids =
        update (copy right.key_num left.rids left.key_num right.rids 0) (order - 1)
          (right.rids (order - 1));
    key_num = left.key_num + right.key_num;
  }

  unfoldable pub merge_inner : Node vs → Key vs → Node vs → Node vs
  merge_inner left between right =
      let start = left.key_num + 1 in
      record left {
        keys = copy right.key_num (update left.keys left.key_num between) start right.keys 0;
        rids =
            update (copy right.key_num left.rids start right.rids 0) (start + right.key_num)
              (right.rids right.key_num);
        key_num = start + right.key_num;
      }

  -- The four cases of `redistribute_nodes`: the two nodes, and the key between them in the parent. The
  -- first entry of the right leaf goes left.
  unfoldable pub leaf_from_right : Node vs → Node vs → Node vs × Key vs × Node vs
  leaf_from_right left right =
      let keys = shift_down (right.key_num - 1) 0 right.keys in
      (
        record left {
          keys = update left.keys left.key_num (right.keys 0);
          rids = update left.rids left.key_num (right.rids 0);
          key_num = left.key_num + 1;
        },
        keys 0,
        record right {
          keys = keys;
          rids = shift_down (right.key_num - 1) 0 right.rids;
          key_num = right.key_num - 1;
        },
      )

  -- The last key of the left leaf goes right; the record of it does not.
  unfoldable pub leaf_from_left : Node vs → Node vs → Node vs × Key vs × Node vs
  leaf_from_left left right =
      let keys =
        update (shift_up right.key_num right.key_num right.keys) 0 (left.keys (left.key_num - 1)) in
      (
        record left { key_num = left.key_num - 1 },
        keys 0,
        record right {
          keys = keys;
          rids = shift_up right.key_num right.key_num right.rids;
          key_num = right.key_num + 1;
        },
      )

  -- The first pointer of the right inner node goes left.
  unfoldable pub inner_from_right : Node vs → Key vs → Node vs → Node vs × Key vs × Node vs
  inner_from_right left between right = (
    record left {
      keys = update left.keys left.key_num between;
      rids = update left.rids (left.key_num + 1) (right.rids 0);
      key_num = left.key_num + 1;
    },
    right.keys 0,
    record right {
      keys = shift_down (right.key_num - 1) 0 right.keys;
      rids = shift_down (right.key_num - 1) 0 right.rids;
      key_num = right.key_num - 1;
    },
  )

  -- The last pointer of the left inner node goes right.
  unfoldable pub inner_from_left : Node vs → Key vs → Node vs → Node vs × Key vs × Node vs
  inner_from_left left between right = (
    record left { key_num = left.key_num - 1 },
    left.keys (left.key_num - 1),
    record right {
      keys = update (shift_up right.key_num right.key_num right.keys) 0 between;
      rids = update (shift_up right.key_num right.key_num right.rids) 0 (left.rids left.key_num);
      key_num = right.key_num + 1;
    },
  )

  -- A node with fewer keys is to be filled up.
  abbrev pub min_key : ℕ → Node vs → ℕ
  min_key order node = if node.is_leaf then order / 2 else (order + 1) / 2 - 1

module _ (vs : Values) (c : Config vs) where
  open c use {order, answer}

  abbrev get_page : ℕ → Op vs (Unit {0})
  get_page = get_this_page answer

  abbrev parent_page : Node vs → ℕ
  parent_page node = elim (node.parent) [ none ↦ minus_one | some page ↦ page ]

  unfoldable pub delete_entry_from_node : ℕ → Key vs → Op vs (Unit {0})
  unfolding node_delete
  delete_entry_from_node page key = do
    get_page page
    node ← read_page page
    let i = position (λ i. is_zero (cmp_key vs key (node.keys i))) node.key_num
    let deleted = write_page page (node_delete vs node i) >> unpin_page page
    if leb node.key_num i then fail record_invalid_key else deleted

  -- `up` is the call of `delete_entry_internal`.
  unfoldable pub coalesce_node : (ℕ → Key vs → Op vs (Unit {0})) → ℕ → ℕ → Op vs (Unit {0})
  unfolding merge_leaves merge_inner
  coalesce_node up left_page right_page = do
    get_page left_page
    left ← read_page left_page
    get_page right_page
    right ← read_page right_page
    let parent = parent_page left
    get_page parent
    node ← read_page parent
    let between = node.keys (place_of vs left_page node)
    let merged =
        if left.is_leaf then merge_leaves vs order left right else merge_inner vs left between right
    write_page left_page merged
    (if left.is_leaf
        then pure tt
        else adopt vs c (right.key_num + 1) (left.key_num + 1) merged left_page)
    unpin_page left_page
    unpin_page right_page
    dispose_page right_page
    unpin_page parent
    up parent between

  unfoldable pub redistribute_nodes : ℕ → ℕ → Op vs (Unit {0})
  unfolding leaf_from_right leaf_from_left inner_from_right inner_from_left
  redistribute_nodes left_page right_page = do
    get_page left_page
    left ← read_page left_page
    get_page right_page
    right ← read_page right_page
    let parent = parent_page left
    get_page parent
    node ← read_page parent
    let k = place_of vs left_page node
    let to_left = ltb left.key_num (min_key vs order left)
    let parts =
        if left.is_leaf
        then if to_left then leaf_from_right vs left right else leaf_from_left vs left right
        else if to_left
        then inner_from_right vs left (node.keys k) right
        else inner_from_left vs left (node.keys k) right
    write_page left_page parts.0
    write_page right_page parts.2
    write_page parent (record node { keys = update node.keys k parts.1 })
    (if left.is_leaf
        then pure tt
        else if to_left
        then set_parent vs c (child vs parts.0 parts.0.key_num) (some left_page)
        else set_parent vs c (child vs parts.2 0) (some right_page))
    unpin_page left_page
    unpin_page right_page
    unpin_page parent

  -- A root without keys gives way to its only child.
  unfoldable pub shrink_root : ℕ → Node vs → Op vs (Unit {0})
  shrink_root page node = do
    set_parent vs c (child vs node 0) none
    h ← read_handler
    write_handler (record h { root_page = child vs node 0; header_dirty = true })
    unpin_page page
    dispose_page page

  -- A node with too few keys, whose parent is there: look at a neighbour.
  unfoldable pub refill : (ℕ → ℕ → Op vs (Unit {0})) → ℕ → Node vs → ℕ → Op vs (Unit {0})
  unfolding redistribute_nodes
  refill coalesce page node parent = do
    get_page parent
    up ← read_page parent
    let i = position (λ i. child vs up i == page) (up.key_num + 1)
    let other = if i == 0 then child vs up (i + 1) else child vs up (i - 1)
    get_page other
    neighbour ← read_page other
    unpin_page page
    unpin_page parent
    unpin_page other
    let left = if i == 0 then page else other
    let right = if i == 0 then other else page
    if ltb (min_key vs order node) neighbour.key_num
        then redistribute_nodes left right
        else coalesce left right

  -- What follows the deletion from a node; `up` is the call of `delete_entry_internal`.
  unfoldable pub settle : (ℕ → Key vs → Op vs (Unit {0})) → ℕ → Op vs (Unit {0})
  unfolding coalesce_node shrink_root refill
  settle up page = do
    get_page page
    node ← read_page page
    let at_root =
        if node.key_num == 0 && not node.is_leaf then shrink_root page node else unpin_page page
    let below = λ (parent : ℕ). refill (coalesce_node up) page node parent
    elim (node.parent) [
      | none ↦ at_root
      | some parent ↦
          if leb (min_key vs order node) node.key_num then unpin_page page else below parent
    ]

  -- The rounds are the levels that the deletion may go up.
  unfoldable pub delete_entry_internal : ℕ → ℕ → Key vs → Op vs (Unit {0})
  unfolding delete_entry_from_node settle
  delete_entry_internal zero page key = stop
  delete_entry_internal (suc rounds) page key = do
    delete_entry_from_node page key
    settle (delete_entry_internal rounds) page

  unfoldable pub delete_entry : ℕ → Key vs → Op vs (Unit {0})
  unfolding delete_entry_internal
  delete_entry rounds key = do
    page ← find_leaf vs c rounds key
    delete_entry_internal rounds page key
