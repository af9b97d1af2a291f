-- ===== src/Bplus/Delete/Entry.antt =====
-- `delete_entry_from_node` of bplus_tree.cpp on a leaf: one entry goes, the order stays.
use oceanbase.Base.{
  ℕ, ◌+◌, ◌-◌, ◌≡◌, ◌≢◌, ◌<◌, ◌↔◌, inl, inr, refl, sym, ap, ◌∙◌, subst, true, false, ltb, leb,
  if◌then◌else◌, arith, Bool-cases, ==_refl,
}
use oceanbase.Rc.{is_success, record_invalid_key}
use oceanbase.RecordPage.{Rid}
use oceanbase.Tuples.{Values, is_zero}
use oceanbase.Pages.{Result, ok, err, out_of_rounds}
use oceanbase.Pages.Laws.{pinned, get_this_page-pinned, written, write_page-unpin_page}
use oceanbase.Bplus.{shift_down, position, Key, Node, Tree, Config, cmp_key}
use oceanbase.Bplus.Arrays.{shift_down_at, position-IsPosition}
use oceanbase.Bplus.Order.{Same, Same-Before, Same-Before_behind}
use oceanbase.Bplus.Entries.{IsSorted, Stored}
use oceanbase.Bplus.Delete.{node_delete, delete_entry_from_node}

-- An array without the entry at `i`.
abbrev removed_at : {A : Type 0} → (ℕ → A) → ℕ → ℕ → A
removed_at a i j = if ltb j i then a j else a (j + 1)

removed :
    {A : Type 0} (a : ℕ → A) (n i j : ℕ)
    → i < n
    → j < n - 1
    → shift_down (n - 1 - i) i a j ≡ removed_at a i j
removed a n i j h k = ground (arith, shift_down_at (n - 1 - i) i a j)

-- Where an entry goes, and where it comes from.
abbrev old_place : ℕ → ℕ → ℕ
old_place i j = if ltb j i then j else j + 1

removed_old : {A : Type 0} (a : ℕ → A) (i j : ℕ) → removed_at a i j ≡ a (old_place i j)
removed_old a i j = ground arith

module _ (vs : Values) where
  node_delete-keys :
      (node : Node vs) (i j : ℕ)
      → node.is_leaf ≡ true
      → i < node.key_num
      → j < (node_delete vs node i).key_num
      → ((node_delete vs node i).keys j ≡ node.keys (old_place i j))
        × ((node_delete vs node i).rids j ≡ node.rids (old_place i j))
  unfolding node_delete
  node_delete-keys node i j l h k = (
    removed node.keys node.key_num i j h k ∙ removed_old node.keys i j,
    rw l (removed node.rids node.key_num i j h k ∙ removed_old node.rids i j),
  )

  node_delete-key_num :
      (node : Node vs) (i : ℕ) → (node_delete vs node i).key_num ≡ node.key_num - 1
  unfolding node_delete
  node_delete-key_num node i = refl

  node_delete-parent : (node : Node vs) (i : ℕ) → (node_delete vs node i).parent ≡ node.parent
  unfolding node_delete
  node_delete-parent node i = refl

  pub node_delete-IsSorted :
      (node : Node vs) (i : ℕ)
      → node.is_leaf ≡ true
      → i < node.key_num
      → IsSorted vs node
      → IsSorted vs (node_delete vs node i)
  node_delete-IsSorted node i l h s j k lt lt' =
      let n = node_delete-key_num node i in
      rw ((node_delete-keys node i j l h (omega arith)).0, (node_delete-keys node i k l h lt').0)
        (s (old_place i j) (old_place i k) (ground arith) (ground arith))

  -- Other entries of a sorted node have other keys.
  pub other_place :
      (node : Node vs) (key : Key vs) (i j : ℕ)
      → IsSorted vs node
      → i < node.key_num
      → j < node.key_num
      → Same vs key (node.keys i)
      → i ≢ j
      → is_zero (cmp_key vs key (node.keys j)) ≡ false
  other_place node key i j s h k e ne = elim (Bool-cases (ltb i j)) [
    | inl lt ↦ Same-Before vs key (node.keys i) (node.keys j) e (s i j (ground arith) k)
    | inr ge ↦ Same-Before_behind vs key (node.keys i) (node.keys j) e (s j i (ground arith) h)
  ]

  -- What a leaf holds without the entry at `i`.
  pub node_delete-Stored :
      (node : Node vs) (i : ℕ) (key : Key vs) (k : Key vs) (r : Rid)
      → node.is_leaf ≡ true
      → i < node.key_num
      → IsSorted vs node
      → Same vs key (node.keys i)
      → Stored vs (node_delete vs node i) k r
        ↔ (Stored vs node k r × (is_zero (cmp_key vs key k) ≡ false))
  node_delete-Stored node i key k r l h s e = (
    λ (j, lt, a, b).
        let at = node_delete-keys node i j l h lt in
        let n = node_delete-key_num node i in
        let o = old_place i j in
        (
          (o, ground arith, sym at.0 ∙ a, sym at.1 ∙ b),
          subst (λ x. is_zero (cmp_key vs key x) ≡ false) (sym at.0 ∙ a)
              (other_place node key i o s h (ground arith) e (λ q. ground arith)),
        ),
    λ ((j, lt, a, b), other).
        let n = node_delete-key_num node i in
        let ne : i ≢ j =
          λ q. ground (arith, other, subst (λ x. Same vs key x) (ap node.keys q ∙ a) e) in
        let j' = if ltb j i then j else j - 1 in
        let back : old_place i j' ≡ j = ground (arith, ne) in
        let inside : j' < (node_delete vs node i).key_num = ground (arith, ne) in
        let at = node_delete-keys node i j' l h inside in
        (j', inside, at.0 ∙ ap node.keys back ∙ a, at.1 ∙ ap node.rids back ∙ b),
  )

  -- What `delete_entry_from_node` leaves of a leaf.
  abbrev pub DeleteOutcome : Tree vs → ℕ → Key vs → Result (Unit {0}) × Tree vs → Type 0
  DeleteOutcome f page key (ok done, f') =
      (f' ≡ written f page (f'.content page))
      × ((f'.content page).is_leaf ≡ true)
      × ((f'.content page).parent ≡ (f.content page).parent)
      × ((f'.content page).key_num ≡ (f.content page).key_num - 1)
      × IsSorted vs (f'.content page)
      × ((k : Key vs) (r : Rid)
          → Stored vs (f'.content page) k r
            ↔ (Stored vs (f.content page) k r × (is_zero (cmp_key vs key k) ≡ false)))
  DeleteOutcome f page key (err rc, f') =
      (rc ≡ record_invalid_key)
      × ((i : ℕ)
          → i < (f.content page).key_num
          → is_zero (cmp_key vs key ((f.content page).keys i)) ≡ false)
      × (f' ≡ pinned f page)
  DeleteOutcome f page key (out_of_rounds, f') = ⊥

  -- On a page that is in use and a sorted leaf, which the pool can pin, `delete_entry_from_node`
  -- ends as `DeleteOutcome` describes.
  pub delete_entry_from_node-DeleteOutcome :
      (c : Config vs) (f : Tree vs) (page : ℕ) (key : Key vs)
      → is_success (c.answer f page) ≡ true
      → f.in_use page ≡ true
      → (f.content page).is_leaf ≡ true
      → IsSorted vs (f.content page)
      → DeleteOutcome f page key (delete_entry_from_node vs c page key f)
  unfolding delete_entry_from_node
  delete_entry_from_node-DeleteOutcome c f page key served used leaf s =
      let node = f.content page in
      let i = position (λ j. is_zero (cmp_key vs key (node.keys j))) node.key_num in
      let p = position-IsPosition (λ j. is_zero (cmp_key vs key (node.keys j))) node.key_num in
      rw (get_this_page-pinned c.answer f page served used, delete_entry_from_node)
        (elim p.2 [
          | inl end ↦
              let out : leb node.key_num i ≡ true = ground arith in
              rw out (refl, (λ j lt. p.1 j (omega arith)), refl)
          | inr (lt, same) ↦
              let inside : leb node.key_num i ≡ false = ground arith in
              let new = node_delete vs node i in
              rw inside (
                subst (DeleteOutcome f page key) (sym (write_page-unpin_page f page new)) (
                  rw (==_refl page) (
                    refl,
                    leaf,
                    node_delete-parent node i,
                    node_delete-key_num node i,
                    node_delete-IsSorted node i leaf lt s,
                    λ k r. node_delete-Stored node i key k r leaf lt s same,
                  )))
        ])
