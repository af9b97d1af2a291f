-- ===== src/Bplus/Tests.antt =====
-- A tree of three pages over ints, and the theorems about trees applied to it.
use oceanbase.Base.{
  ℕ, zero, suc, ◌+◌, ◌-◌, ◌/◌, ◌≡◌, ◌≤◌, ◌<◌, ◌⊎◌, ◌↔◌, inr, refl, true, false, none, some, ◌==◌,
  if◌then◌else◌, arith,
}
use oceanbase.Base.Int.{pos}
use oceanbase.Base.Memory.{Memory}
use oceanbase.Rc.{success}
use oceanbase.RecordPage.{Rid}
use oceanbase.Tuples.{Values, is_zero}
use oceanbase.Filter.{equal_to, compare_bytes, read_int}
use oceanbase.Pages.{ok, get_this_page}
use oceanbase.Pages.Laws.{Refused}
use oceanbase.Bplus.{minus_one, cmp_rid, cmp_key, position, Key, Node, child, Tree, Config}
use oceanbase.Bplus.Scanner.{next_entry, get_next_idx_in_memory, find_idx_pages, let_go}
use oceanbase.Bplus.Scanner.NextEntry.{NextOutcome, standing, next_entry-NextOutcome}
use oceanbase.Bplus.Compare.{int_keys, compare_key, compare_typed, is_null}
use oceanbase.Bplus.Order.{Before, Same, NotAfter, Same-NotAfter, NotAfter-Before}
use oceanbase.Bplus.Entries.{IsSorted, Stored}
use oceanbase.Base.First.{first_from}
use oceanbase.Bplus.Paths.{IsApart}
use oceanbase.Bplus.Insert.{insert_entry, split_leaf}
use oceanbase.Bplus.Insert.Halves.{split_leaf-Stored}
use oceanbase.Bplus.Insert.Room.{InsertOutcome, insert_entry-InsertOutcome}
use oceanbase.Bplus.Delete.{delete_entry, merge_leaves, leaf_from_left}
use oceanbase.Bplus.Delete.Merge.{merge_leaves-Stored}
use oceanbase.Bplus.Delete.Neighbours.{leaf_from_left-wrong_rid}
use oceanbase.Bplus.Delete.Plenty.{EndOutcome, delete_entry-RemoveOutcome}
use oceanbase.Bplus.Find.{descend, find_leaf, get_entry}
use oceanbase.Bplus.Find.Route.{lower, upper, IsTree}
use oceanbase.Bplus.Find.Descent.{leaf_of, LeadsTo, find_leaf-LeadsTo}
use oceanbase.Bplus.Find.Lookup.{LookupOutcome, get_entry-LookupOutcome}

-- The attributes of an index on an int column; no two floats are compared.
abbrev int_values : Values
int_values = int_keys (λ _ _. pos 0) 4

abbrev int_attr : ℕ → Memory
int_attr n i = if i == 0 then n else 0

abbrev rid_of : ℕ → Rid
rid_of n = record { page_num = n; slot_num = n }

abbrev key_of : ℕ → Key int_values
key_of n = record { attr = int_attr n; rid = rid_of n }

abbrev page_rid : ℕ → Rid
page_rid n = record { page_num = n; slot_num = minus_one }

abbrev leaf_with : ℕ → ℕ → ℕ → Node int_values
leaf_with n a b = record {
  is_leaf = true;
  key_num = n;
  parent = some 1;
  keys = λ i. if i == 0 then key_of a else key_of b;
  rids = λ i. if i == 0 then rid_of a else rid_of b;
}

abbrev root_node : Node int_values
root_node = record {
  is_leaf = false;
  key_num = 1;
  parent = none;
  keys = λ _. key_of 5;
  rids = λ i. if i == 0 then page_rid 2 else page_rid 3;
}

abbrev small_tree : Tree int_values
small_tree = record {
  page_count = 4;
  in_use = λ _. true;
  content = λ n. if n == 1 then root_node else if n == 2 then leaf_with 2 1 3 else leaf_with 2 5 7;
  pins = λ _. 0;
  handler = record { opened = true; root_page = 1; header_dirty = false };
}

abbrev config : Config int_values
config = record {
  order = 4;
  answer = λ _ _. success;
  blank = leaf_with 0 0 0;
  junk_keys = λ _. key_of 0;
  junk_rids = λ _. rid_of 0;
}

Before-3 : Before int_values (key_of 1) (key_of 3)
unfolding cmp_key compare_key is_null compare_bytes compare_typed read_int cmp_rid
Before-3 = refl

Before-5 : Before int_values (key_of 3) (key_of 5)
unfolding cmp_key compare_key is_null compare_bytes compare_typed read_int cmp_rid
Before-5 = refl

Before-1_5 : Before int_values (key_of 1) (key_of 5)
unfolding cmp_key compare_key is_null compare_bytes compare_typed read_int cmp_rid
Before-1_5 = refl

Before-7 : Before int_values (key_of 5) (key_of 7)
unfolding cmp_key compare_key is_null compare_bytes compare_typed read_int cmp_rid
Before-7 = refl

Same-5 : Same int_values (key_of 5) (key_of 5)
unfolding cmp_key compare_key is_null compare_bytes compare_typed read_int cmp_rid
Same-5 = refl

two-IsSorted :
    (n a b : ℕ)
    → n ≤ 2
    → Before int_values (key_of a) (key_of b)
    → IsSorted int_values (leaf_with n a b)
two-IsSorted n a b h k zero zero lt lt' = absurd (omega arith)
two-IsSorted n a b h k zero (suc zero) lt lt' = k
two-IsSorted n a b h k (suc i) (suc zero) lt lt' = absurd (omega arith)
two-IsSorted n a b h k i (suc (suc j)) lt lt' = absurd (omega arith)
two-IsSorted n a b h k (suc i) zero lt lt' = absurd (omega arith)

left_leaf-IsTree : IsTree int_values 0 small_tree 2 none (some (key_of 5))
left_leaf-IsTree = (refl, refl, (two-IsSorted 2 1 3 (omega arith) Before-3, bounds))
  where
    bounds : (i : ℕ) → i < 2 → Unit {0} × Before int_values ((leaf_with 2 1 3).keys i) (key_of 5)
    bounds zero lt = (tt, Before-1_5)
    bounds (suc zero) lt = (tt, Before-5)
    bounds (suc (suc i)) lt = absurd (omega arith)

right_leaf-IsTree : IsTree int_values 0 small_tree 3 (some (key_of 5)) none
right_leaf-IsTree = (refl, refl, (two-IsSorted 2 5 7 (omega arith) Before-7, bounds))
  where
    bounds : (i : ℕ) → i < 2 → NotAfter int_values (key_of 5) ((leaf_with 2 5 7).keys i) × Unit {0}
    bounds zero lt = ((Same-NotAfter int_values (key_of 5) (key_of 5) Same-5).0, tt)
    bounds (suc zero) lt = (NotAfter-Before int_values (key_of 5) (key_of 7) Before-7, tt)
    bounds (suc (suc i)) lt = absurd (omega arith)

small_tree-IsTree : IsTree int_values 1 small_tree 1 none none
small_tree-IsTree = (refl, refl, ((λ i j lt lt'. absurd (omega arith)), λ i lt. (tt, tt)), children)
  where
    children :
        (i : ℕ)
        → i ≤ 1
        → IsTree int_values 0 small_tree
            (child int_values root_node i)
            (lower int_values root_node i none)
            (upper int_values root_node i none)
    children zero le = left_leaf-IsTree
    children (suc zero) le = right_leaf-IsTree
    children (suc (suc i)) le = absurd (omega arith)

small_tree-IsApart : IsApart int_values 1 small_tree 1
small_tree-IsApart = (root_apart, leaves_apart, λ i le. tt)
  where
    root_apart : (i : ℕ) → i ≤ 1 → child int_values root_node i ≡ 1 → ⊥
    root_apart zero le e = omega arith
    root_apart (suc zero) le e = omega arith
    root_apart (suc (suc i)) le e = omega arith

    leaves_apart :
        (i j n : ℕ)
        → i ≤ 1
        → j ≤ 1
        → child int_values root_node i ≡ n
        → child int_values root_node j ≡ n
        → i ≡ j
    leaves_apart zero zero n le le' e e' = refl
    leaves_apart (suc zero) (suc zero) n le le' e e' = refl
    leaves_apart zero (suc zero) n le le' e e' = absurd (omega arith)
    leaves_apart (suc zero) zero n le le' e e' = absurd (omega arith)
    leaves_apart (suc (suc i)) j n le le' e e' = absurd (omega arith)
    leaves_apart i (suc (suc j)) n le le' e e' = absurd (omega arith)

find_leaf-LeadsTo_example :
    ((find_leaf int_values config 5 (key_of 3) small_tree
        ≡ (ok (leaf_of int_values 1 small_tree 1 (key_of 3)), small_tree))
      ⊎ Refused config.answer small_tree (find_leaf int_values config 5 (key_of 3) small_tree))
    × LeadsTo int_values 1 small_tree 1 (key_of 3) (leaf_of int_values 1 small_tree 1 (key_of 3))
find_leaf-LeadsTo_example =
    find_leaf-LeadsTo int_values config 1 5 small_tree (key_of 3) (omega arith) small_tree-IsTree

get_entry-LookupOutcome_example :
    LookupOutcome int_values 1 small_tree
      (key_of 3)
      (get_entry int_values config 5 (key_of 3) small_tree)
    ⊎ Refused config.answer small_tree (get_entry int_values config 5 (key_of 3) small_tree)
get_entry-LookupOutcome_example =
    get_entry-LookupOutcome int_values config 1 5 small_tree (key_of 3) (omega arith)
      small_tree-IsTree

-- A search for the key 3 returns its record.
found_3 : (get_entry int_values config 5 (key_of 3) small_tree).0 ≡ ok (rid_of 3)
unfolding get_entry find_leaf descend get_this_page position first_from cmp_key compare_key is_null
    compare_bytes compare_typed read_int cmp_rid
found_3 = refl

room_2 : (small_tree.content (leaf_of int_values 1 small_tree 1 (key_of 2))).key_num < 3
unfolding position first_from cmp_key compare_key is_null compare_bytes compare_typed read_int
    cmp_rid
room_2 = omega arith

insert_entry-InsertOutcome_example :
    InsertOutcome int_values 1 small_tree
      (key_of 2)
      (insert_entry int_values config 5 (key_of 2) false small_tree)
    ⊎ Refused config.answer small_tree
        (insert_entry int_values config 5 (key_of 2) false small_tree)
insert_entry-InsertOutcome_example =
    insert_entry-InsertOutcome int_values config 1 5 small_tree (key_of 2) (omega arith) refl
      small_tree-IsTree small_tree-IsApart room_2

-- With order 3, a leaf may be left with one key.
abbrev small_config : Config int_values
small_config = record config { order = 3 }

plenty_3 : 3 / 2 ≤ (small_tree.content (leaf_of int_values 1 small_tree 1 (key_of 3))).key_num - 1
unfolding position first_from cmp_key compare_key is_null compare_bytes compare_typed read_int
    cmp_rid
plenty_3 = omega arith

delete_entry-RemoveOutcome_example :
    EndOutcome int_values small_config 1 small_tree
      (key_of 3)
      (delete_entry int_values small_config 5 (key_of 3) small_tree)
delete_entry-RemoveOutcome_example =
    delete_entry-RemoveOutcome int_values small_config 1 5 small_tree (key_of 3) (omega arith)
      small_tree-IsTree small_tree-IsApart (inr plenty_3)

-- The leaves of the tree, one behind the other.
leaves_apart :
    (i j : ℕ)
    → i < 2
    → j < 2
    → Before int_values ((leaf_with 2 1 3).keys i) ((leaf_with 2 5 7).keys j)
unfolding cmp_key compare_key is_null compare_bytes compare_typed read_int cmp_rid
leaves_apart zero zero lt lt' = refl
leaves_apart zero (suc zero) lt lt' = refl
leaves_apart (suc zero) zero lt lt' = refl
leaves_apart (suc zero) (suc zero) lt lt' = refl
leaves_apart (suc (suc i)) j lt lt' = absurd (omega arith)
leaves_apart i (suc (suc j)) lt lt' = absurd (omega arith)

merge_leaves-Stored_example :
    let merged = merge_leaves int_values 6 (leaf_with 2 1 3) (leaf_with 2 5 7) in
    IsSorted int_values merged
    × ((k : Key int_values) (r : Rid)
        → Stored int_values merged k r
          ↔ (Stored int_values (leaf_with 2 1 3) k r ⊎ Stored int_values (leaf_with 2 5 7) k r))
    × (merged.rids 5 ≡ rid_of 7)
merge_leaves-Stored_example =
    merge_leaves-Stored int_values 6 (leaf_with 2 1 3) (leaf_with 2 5 7) (omega arith)
      (two-IsSorted 2 1 3 (omega arith) Before-3) (two-IsSorted 2 5 7 (omega arith) Before-7)
      leaves_apart

leaf_from_left-wrong_rid_example :
    let parts = leaf_from_left int_values (leaf_with 2 1 3) (leaf_with 2 5 7) in
    (Stored int_values parts.0 (key_of 3) (rid_of 3)
      ⊎ Stored int_values parts.2 (key_of 3) (rid_of 3))
    ↔ (rid_of 5 ≡ rid_of 3)
leaf_from_left-wrong_rid_example =
    leaf_from_left-wrong_rid int_values (leaf_with 2 1 3) (leaf_with 2 5 7) (rid_of 3) (omega arith)
      (two-IsSorted 2 1 3 (omega arith) Before-3) (λ j. leaves_apart 1 j (omega arith))

-- An inner node with the children `page`, `page + 1` and so on.
abbrev inner_with : ℕ → ℕ → Node int_values
inner_with n page = record root_node { key_num = n; rids = λ i. page_rid (page + i) }

fresh_2 :
    (j : ℕ) → j < 2 → is_zero (cmp_key int_values (key_of 2) ((leaf_with 2 1 3).keys j)) ≡ false
unfolding cmp_key compare_key is_null compare_bytes compare_typed read_int cmp_rid
fresh_2 zero lt = refl
fresh_2 (suc zero) lt = refl
fresh_2 (suc (suc j)) lt = absurd (omega arith)

split_leaf-Stored_example :
    let halves =
      split_leaf int_values small_config
        (leaf_with 2 1 3)
        (leaf_with 0 0 0)
        9
        (key_of 2)
        (rid_of 2) in
    IsSorted int_values halves.0
    × IsSorted int_values halves.1
    × ((i j : ℕ)
        → i < halves.0.key_num
        → j < halves.1.key_num
        → Before int_values (halves.0.keys i) (halves.1.keys j))
    × ((k : Key int_values) (r : Rid)
        → (Stored int_values halves.0 k r ⊎ Stored int_values halves.1 k r)
          ↔ (Stored int_values (leaf_with 2 1 3) k r ⊎ ((key_of 2 ≡ k) × (rid_of 2 ≡ r))))
    × (halves.0.rids 2 ≡ page_rid 9)
    × (halves.1.rids 2 ≡ rid_of 3)
split_leaf-Stored_example =
    split_leaf-Stored int_values small_config (leaf_with 2 1 3) (leaf_with 0 0 0) 9 (key_of 2)
      (rid_of 2) (omega arith) (omega arith) (two-IsSorted 2 1 3 (omega arith) Before-3) fresh_2

next_entry-NextOutcome_example :
    NextOutcome int_values
      (λ k. k.attr 0 == 5)
      (leaf_with 2 1 3)
      1
      true
      (leaf_with 2 5 7)
      success
      (next_entry int_values config
        (λ k. k.attr 0 == 5)
        (standing int_values equal_to none 2 1 3)
        small_tree)
next_entry-NextOutcome_example =
    next_entry-NextOutcome int_values config (λ k. k.attr 0 == 5) equal_to none 2 1 3 small_tree
      (omega arith) refl (λ e. refl)

-- From the last entry of the left leaf, the key 5 is found in the right one.
next_5 :
    (next_entry int_values config
      (λ k. k.attr 0 == 5)
      (standing int_values equal_to none 2 1 3)
      small_tree).0
    ≡ ok (rid_of 5)
unfolding next_entry get_next_idx_in_memory find_idx_pages let_go get_this_page first_from
next_5 = refl
