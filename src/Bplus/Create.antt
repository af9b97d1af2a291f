-- ===== src/Bplus/Create.antt =====
-- `create` of bplus_tree.cpp: a new index file, with its order and an empty root.
--
-- `sizeof` gives 24 bytes for the file header, 32 for a node and 8 for a record id.
use oceanbase.Base.{ℕ, ◌+◌, ◌-◌, ◌*◌, ◌/◌, ◌≡◌, ◌≤◌, ◌<◌, refl, true, false, none, arith, ==_refl}
use oceanbase.RecordPage.{Rid}
use oceanbase.RecordPage.Layout.{page_data_size}
use oceanbase.Tuples.{Values}
use oceanbase.Pages.{
  Result, ok, err, out_of_rounds, ◌>>=◌, ◌>>◌, read_page, write_page, write_handler, unpin_page,
  allocate_page,
}
use oceanbase.Pages.Laws.{IsReady, allocate_page-ready}
use oceanbase.Bplus.Find.Route.{IsTree, Holds}
use oceanbase.Bplus.{Key, Tree, Op, Config}

-- file_header->order
unfoldable pub order_of : ℕ → ℕ
order_of attr_length = (page_data_size - 24 - 32) / (attr_length + 2 * 8)

module _ (vs : Values) (c : Config vs) where
  open c use {answer, blank}

  unfoldable pub create : Op vs (Unit {0})
  create = do
    page ← allocate_page answer blank
    node ← read_page page
    write_page page (record node { is_leaf = true; key_num = 0; parent = none })
    unpin_page page
    write_handler (record { opened = true; root_page = page; header_dirty = false })

-- The keys and the record ids of a node with as many entries as the order says lie in the page,
-- behind the file header and the node; one entry more would not fit in.
pub order_of-fits :
    (attr_length : ℕ)
    → let size = λ (entries : ℕ). 24 + 32 + entries * (attr_length + 8) + entries * 8 in
      (size (order_of attr_length) ≤ page_data_size)
      × (page_data_size < size (order_of attr_length + 1))
unfolding order_of
order_of-fits attr_length = (omega arith, omega arith)

module _ (vs : Values) where
  -- What `create` leaves: an open handler whose root is an empty leaf.
  abbrev pub CreateOutcome : Result (Unit {0}) × Tree vs → Type 0
  CreateOutcome (ok done, f') =
      (f'.handler.opened ≡ true)
      × IsTree vs 0 f' f'.handler.root_page none none
      × ((k : Key vs) (r : Rid) → Holds vs 0 f' f'.handler.root_page k r → ⊥)
      × ((f'.content f'.handler.root_page).parent ≡ none)
  CreateOutcome (err rc, f') = ⊥
  CreateOutcome (out_of_rounds, f') = ⊥

  -- With a pool that has room, `create` succeeds, whatever the new page holds: it leaves an open
  -- handler and a search tree of one leaf without records.
  pub create-CreateOutcome :
      (c : Config vs) (f : Tree vs) → IsReady c.answer → CreateOutcome (create vs c f)
  unfolding create
  create-CreateOutcome c f ready =
      let page = allocate_page-ready c.answer c.blank f ready in
      rw (page.2, ==_refl page.0)
        (
          refl,
          (page.3, refl, ((λ i j lt lt'. absurd (omega arith)), λ i lt. absurd (omega arith))),
          (λ k r h. omega (arith, h.1)),
          refl,
        )
