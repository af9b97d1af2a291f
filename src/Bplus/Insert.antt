-- ===== src/Bplus/Insert.antt =====
-- bplus_tree.cpp: insertion into leaves and inner nodes, with and without a split.
pub mod Inserted
pub mod Leaf
pub mod Room
pub mod Split
pub mod Halves
use oceanbase.Base.{
  ℕ, zero, suc, ◌+◌, ◌-◌, ◌/◌, ◌^◌, Bool, true, false, not, ◌&&◌, ◌||◌, Option, none, some, ◌==◌,
  ltb, leb, if◌then◌else◌,
}
use oceanbase.Base.First.{first_from}
use oceanbase.Base.Int.{ℤ, pos, negsuc}
use oceanbase.Rc.{
  Rc, success, invalid_argument, record_closed, record_eof, record_invalid_key,
  record_duplicate_key,
}
use oceanbase.RecordPage.{Rid}
use oceanbase.Tuples.{Values, is_zero, is_positive}
use oceanbase.Filter.{CompOp, equal_to, less_equal, not_equal, less_than, great_equal, great_than}
use oceanbase.Pages.{
  File, Result, ok, err, out_of_rounds, M, pure, fail, stop, ◌>>=◌, ◌>>◌, update, read_page,
  write_page, read_handler, write_handler, unpin_page, dispose_page, get_this_page, allocate_page,
}
use oceanbase.Bplus.{
  minus_one, is_negative, Handler, shift_up, shift_down, copy, position, Key, Node, child, Tree, Op,
  Config, cmp_key,
}
use oceanbase.Bplus.Find.{find_leaf, find_leaf_unique}

-- for (i = 0, j = 0; i < rounds; i++, j++) { if (j == gap) j++; temp[j] = a[i]; }
unfoldable pub spread : {A : Type 0} → ℕ → ℕ → ℕ → ℕ → (ℕ → A) → (ℕ → A) → ℕ → A
spread zero i j gap temp a = temp
spread (suc rounds) i j gap temp a =
    let j' = if j == gap then j + 1 else j in
    spread rounds (i + 1) (j' + 1) gap (update temp j' (a i)) a

module _ (vs : Values) where
  abbrev pub pointer : ℕ → Rid
  pointer page = record { page_num = page; slot_num = minus_one }

  -- What `insert_into_leaf` does to the node, at the place it has found.
  unfoldable pub leaf_insert : Node vs → ℕ → Key vs → Rid → Node vs
  leaf_insert node i key rid = record node {
    keys = update (shift_up (node.key_num - i) node.key_num node.keys) i key;
    rids = update (shift_up (node.key_num - i) node.key_num node.rids) i rid;
    key_num = node.key_num + 1;
  }

  -- The place of a key that is not to be stored twice: the first key that is equal or greater.
  abbrev pub leaf_place : Key vs → Node vs → ℕ
  leaf_place key node =
      position
        (λ i. is_zero (cmp_key vs key (node.keys i)) || is_negative (cmp_key vs key (node.keys i)))
        node.key_num

  -- What `insert_intern_node` does to the node: the new page is to stand behind `left`.
  unfoldable pub inner_insert : Node vs → ℕ → ℕ → Key vs → Node vs
  inner_insert node left right key =
      let i = position (λ i. child vs node i == left) (node.key_num + 1) in
      record node {
        keys = update (shift_up (node.key_num - i) node.key_num node.keys) i key;
        rids =
            update (shift_up (node.key_num - i) (node.key_num + 1) node.rids) (i + 1)
              (pointer right);
        key_num = node.key_num + 1;
      }

module _ (vs : Values) (c : Config vs) where
  open c use {order, answer, blank, junk_keys, junk_rids}

  abbrev get_page : ℕ → Op vs (Unit {0})
  get_page = get_this_page answer

  unfoldable pub insert_into_leaf : ℕ → Key vs → Rid → Op vs (Unit {0})
  unfolding leaf_insert
  insert_into_leaf page key rid = do
    get_page page
    node ← read_page page
    let i = leaf_place vs key node
    let stored = write_page page (leaf_insert vs node i key rid) >> unpin_page page
    if ltb i node.key_num && is_zero (cmp_key vs key (node.keys i))
        then fail record_duplicate_key
        else stored

  -- The two halves of a full leaf and an entry, the new one on the page `new_page`.
  unfoldable pub split_leaf : Node vs → Node vs → ℕ → Key vs → Rid → Node vs × Node vs
  unfolding spread
  split_leaf leaf fresh new_page key rid =
      let i = position (λ i. is_negative (cmp_key vs key (leaf.keys i))) leaf.key_num in
      let temp_keys = update (spread leaf.key_num 0 0 i junk_keys leaf.keys) i key in
      let temp_rids = update (spread leaf.key_num 0 0 i junk_rids leaf.rids) i rid in
      let split = order / 2 in
      let left = copy split leaf.rids 0 temp_rids 0 in
      let right = copy (order - split) fresh.rids 0 temp_rids split in
      (
        record leaf {
          keys = copy split leaf.keys 0 temp_keys 0;
          rids = update left (order - 1) (pointer vs new_page);
          key_num = split;
        },
        record {
          is_leaf = true;
          parent = leaf.parent;
          keys = copy (order - split) fresh.keys 0 temp_keys split;
          rids = update right (order - 1) (left (order - 1));
          key_num = order - split;
        },
      )

  -- `up` is the call of `insert_into_parent`.
  unfoldable pub insert_into_leaf_after_split :
      (Option ℕ → ℕ → Key vs → ℕ → Op vs (Unit {0})) → ℕ → Key vs → Rid → Op vs (Unit {0})
  unfolding split_leaf
  insert_into_leaf_after_split up page key rid = do
    get_page page
    leaf ← read_page page
    new_page ← allocate_page answer blank
    fresh ← read_page new_page
    let halves = split_leaf leaf fresh new_page key rid
    write_page page halves.0
    write_page new_page halves.1
    unpin_page page
    unpin_page new_page
    up leaf.parent page (halves.1.keys 0) new_page

  unfoldable pub insert_intern_node : ℕ → ℕ → ℕ → Key vs → Op vs (Unit {0})
  unfolding inner_insert
  insert_intern_node page left right key = do
    get_page page
    node ← read_page page
    write_page page (inner_insert vs node left right key)
    unpin_page page

  -- child_node->parent = page
  unfoldable pub set_parent : ℕ → Option ℕ → Op vs (Unit {0})
  set_parent page parent = do
    get_page page
    node ← read_page page
    write_page page (record node { parent = parent })
    unpin_page page

  -- The loop that gives `rounds` children of a node a new parent.
  unfoldable pub adopt : ℕ → ℕ → Node vs → ℕ → Op vs (Unit {0})
  unfolding set_parent
  adopt zero i node page = pure tt
  adopt (suc rounds) i node page =
      set_parent (child vs node i) (some page) >> adopt rounds (i + 1) node page

  -- The two halves of a full inner node with one more page, and the key between them.
  unfoldable pub split_inner : Node vs → Node vs → ℕ → ℕ → Key vs → Node vs × Key vs × Node vs
  unfolding spread
  split_inner inner fresh left right key =
      let i = position (λ i. child vs inner i == left) (inner.key_num + 1) in
      let temp_rids =
        update (spread (inner.key_num + 1) 0 0 (i + 1) junk_rids inner.rids) (i + 1)
          (pointer vs right) in
      let temp_keys = update (spread inner.key_num 0 0 i junk_keys inner.keys) i key in
      let split = (order + 1) / 2 in
      (
        record inner {
          keys = copy (split - 1) inner.keys 0 temp_keys 0;
          rids = copy split inner.rids 0 temp_rids 0;
          key_num = split - 1;
        },
        temp_keys (split - 1),
        record {
          is_leaf = false;
          parent = inner.parent;
          keys = copy (order - split) fresh.keys 0 temp_keys split;
          rids = copy (order - split + 1) fresh.rids 0 temp_rids split;
          key_num = order - split;
        },
      )

  unfoldable pub insert_intern_node_after_split :
      (Option ℕ → ℕ → Key vs → ℕ → Op vs (Unit {0})) → ℕ → ℕ → ℕ → Key vs → Op vs (Unit {0})
  unfolding split_inner adopt
  insert_intern_node_after_split up page left right key = do
    get_page page
    inner ← read_page page
    new_page ← allocate_page answer blank
    fresh ← read_page new_page
    let parts = split_inner inner fresh left right key
    write_page page parts.0
    write_page new_page parts.2
    adopt (parts.2.key_num + 1) 0 parts.2 new_page
    unpin_page page
    unpin_page new_page
    up inner.parent page parts.1 new_page

  unfoldable pub insert_into_new_root : ℕ → Key vs → ℕ → Op vs (Unit {0})
  unfolding set_parent
  insert_into_new_root left key right = do
    root_page ← allocate_page answer blank
    root ← read_page root_page
    write_page root_page (record {
      is_leaf = false;
      key_num = 1;
      parent = none;
      keys = update root.keys 0 key;
      rids = update (update root.rids 0 (pointer vs left)) 1 (pointer vs right);
    })
    unpin_page root_page
    set_parent left (some root_page)
    set_parent right (some root_page)
    h ← read_handler
    write_handler (record h { root_page = root_page; header_dirty = true })

  -- The rounds are the levels that the insertion may go up.
  unfoldable pub insert_into_parent : ℕ → Option ℕ → ℕ → Key vs → ℕ → Op vs (Unit {0})
  unfolding insert_into_new_root insert_intern_node insert_intern_node_after_split
  insert_into_parent zero parent left key right = stop
  insert_into_parent (suc rounds) none left key right = insert_into_new_root left key right
  insert_into_parent (suc rounds) (some parent) left key right = do
    get_page parent
    node ← read_page parent
    unpin_page parent
    let split = insert_intern_node_after_split (insert_into_parent rounds) parent left right key
    if ltb node.key_num (order - 1) then insert_intern_node parent left right key else split

  -- A call whose code is not looked at.
  abbrev ignore : Op vs (Unit {0}) → Op vs (Unit {0})
  ignore m f = elim (m f).0 [ out_of_rounds ↦ (out_of_rounds, (m f).1) | _ ↦ (ok tt, (m f).1) ]

  -- Any failure of `find_leaf_unique` becomes INVALID_ARGUMENT.
  abbrev unique_leaf : ℕ → Key vs → Op vs ℕ
  unique_leaf rounds key f = elim (find_leaf_unique vs c rounds key f).0 [
    | err rc ↦ (err invalid_argument, (find_leaf_unique vs c rounds key f).1)
    | other ↦ (other, (find_leaf_unique vs c rounds key f).1)
  ]

  -- The key is made of `pkey` and `rid`; the code of an insertion with a split is dropped.
  unfoldable pub insert_open : ℕ → Key vs → Bool → Op vs (Unit {0})
  unfolding insert_into_leaf insert_into_leaf_after_split insert_into_parent
  insert_open rounds key is_unique = do
    page ← (if is_unique then unique_leaf rounds key else find_leaf vs c rounds key)
    get_page page
    leaf ← read_page page
    unpin_page page
    let split = ignore (insert_into_leaf_after_split (insert_into_parent rounds) page key key.rid)
    if ltb leaf.key_num (order - 1) then insert_into_leaf page key key.rid else split

  unfoldable pub insert_entry : ℕ → Key vs → Bool → Op vs (Unit {0})
  unfolding insert_open
  insert_entry rounds key is_unique = do
    h ← read_handler
    if h.opened then insert_open rounds key is_unique else fail record_closed
