-- ===== src/Bplus/Entries.antt =====
-- The entries of a node, and the order of its keys.
use oceanbase.Base.{ℕ, ◌≡◌, ◌<◌}
use oceanbase.RecordPage.{Rid}
use oceanbase.Tuples.{Values}
use oceanbase.Bplus.{Key, Node}
use oceanbase.Bplus.Order.{Before}

module _ (vs : Values) where
  -- The keys of the node rise, so no key occurs twice.
  abbrev pub IsSorted : Node vs → Type 0
  IsSorted node = (i j : ℕ) → i < j → j < node.key_num → Before vs (node.keys i) (node.keys j)

  -- The node holds a record under a key.
  abbrev pub Stored : Node vs → Key vs → Rid → Type 0
  Stored node key rid = (i : ℕ) × (i < node.key_num) × (node.keys i ≡ key) × (node.rids i ≡ rid)
