-- ===== src/Bplus/Insert/Halves.antt =====
-- `insert_into_leaf_after_split` of bplus_tree.cpp: the two halves of a full leaf and an entry.
use oceanbase.Base.{
  ℕ, ◌+◌, ◌-◌, ◌/◌, ◌≡◌, ◌≤◌, ◌<◌, ◌⊎◌, ◌↔◌, inl, inr, refl, sym, ap, ◌∙◌, false, ltb, arith,
  Bool-cases,
}
use oceanbase.RecordPage.{Rid}
use oceanbase.Tuples.{Values, is_zero}
use oceanbase.Pages.{update}
use oceanbase.Bplus.{is_negative, Key, Node, Config, cmp_key}
use oceanbase.Bplus.Arrays.{copy_at, position-IsPosition}
use oceanbase.Bplus.Order.{Before}
use oceanbase.Bplus.Entries.{IsSorted, Stored}
use oceanbase.Bplus.Insert.{spread, split_leaf, leaf_insert, pointer}
use oceanbase.Bplus.Insert.Leaf.{
  leaf_insert-keys, leaf_insert-key_num, leaf_insert-IsSorted, leaf_insert-Stored,
}
use oceanbase.Bplus.Insert.Split.{
  spread_inserted, copied, copied_but_last, split_place, split_place-FitsAt,
}

module _ (vs : Values) (c : Config vs) where
  -- The halves of the leaf with the entry put in.
  split_leaf-entries :
      (leaf fresh : Node vs) (new_page : ℕ) (key : Key vs) (rid : Rid) (j : ℕ)
      → 1 < c.order
      → leaf.key_num + 1 ≡ c.order
      → let halves = split_leaf vs c leaf fresh new_page key rid in
        let big = leaf_insert vs leaf (split_place vs key leaf) key rid in
        (j < c.order / 2 → (halves.0.keys j ≡ big.keys j) × (halves.0.rids j ≡ big.rids j))
        × (j < c.order - c.order / 2
            → (halves.1.keys j ≡ big.keys (c.order / 2 + j))
              × (halves.1.rids j ≡ big.rids (c.order / 2 + j)))
  unfolding split_leaf
  split_leaf-entries leaf fresh new_page key rid j h full =
      let i = split_place vs key leaf in
      let split = c.order / 2 in
      let le =
        (position-IsPosition (λ j. is_negative (cmp_key vs key (leaf.keys j))) leaf.key_num).0 in
      let temp_keys = update (spread leaf.key_num 0 0 i c.junk_keys leaf.keys) i key in
      let temp_rids = update (spread leaf.key_num 0 0 i c.junk_rids leaf.rids) i rid in
      let big = leaf_insert vs leaf i key rid in
      let temp : (k : ℕ)
          → k ≤ leaf.key_num
          → (temp_keys k ≡ big.keys k) × (temp_rids k ≡ big.rids k) =
        λ k k_le.
          let at = leaf_insert-keys vs leaf i key rid k le k_le in
          (
            spread_inserted leaf.key_num i c.junk_keys leaf.keys key k le k_le ∙ sym at.0,
            spread_inserted leaf.key_num i c.junk_rids leaf.rids rid k le k_le ∙ sym at.1,
          ) in
      let first : (0 + j) ≡ j = omega arith in
      (
        λ lt. (
          copied split leaf.keys temp_keys 0 j lt
              ∙ (temp (0 + j) (omega arith)).0
              ∙ ap big.keys first,
          copied_but_last split leaf.rids temp_rids 0 j (c.order - 1) (pointer vs new_page) lt
                (omega arith)
              ∙ (temp (0 + j) (omega arith)).1
              ∙ ap big.rids first,
        ),
        λ lt. (
          copied (c.order - split) fresh.keys temp_keys split j lt
              ∙ (temp (split + j) (omega arith)).0,
          copied_but_last (c.order - split) fresh.rids temp_rids split j (c.order - 1) _ lt
                (omega arith)
              ∙ (temp (split + j) (omega arith)).1,
        ),
      )

  split_leaf-key_num :
      (leaf fresh : Node vs) (new_page : ℕ) (key : Key vs) (rid : Rid)
      → 1 < c.order
      → let halves = split_leaf vs c leaf fresh new_page key rid in
        (halves.0.key_num ≡ c.order / 2)
        × (halves.1.key_num ≡ c.order - c.order / 2)
        × (halves.0.rids (c.order - 1) ≡ pointer vs new_page)
        × (halves.1.rids (c.order - 1) ≡ leaf.rids (c.order - 1))
  unfolding split_leaf
  split_leaf-key_num leaf fresh new_page key rid h =
      let i = split_place vs key leaf in
      let temp_rids = update (spread leaf.key_num 0 0 i c.junk_rids leaf.rids) i rid in
      (
        refl,
        refl,
        ground arith,
        ground (arith, h, copy_at (c.order / 2) leaf.rids 0 temp_rids 0 (c.order - 1)),
      )

  -- Each entry of the leaf with the new one is in one of the halves.
  split_leaf-half :
      (leaf fresh : Node vs) (new_page : ℕ) (key : Key vs) (rid : Rid) (k : Key vs) (r : Rid)
      → 1 < c.order
      → leaf.key_num + 1 ≡ c.order
      → Stored vs (leaf_insert vs leaf (split_place vs key leaf) key rid) k r
      → let halves = split_leaf vs c leaf fresh new_page key rid in
        Stored vs halves.0 k r ⊎ Stored vs halves.1 k r
  split_leaf-half leaf fresh new_page key rid k r h full (j, lt, e, e') =
      let n = split_leaf-key_num leaf fresh new_page key rid h in
      let big = leaf_insert vs leaf (split_place vs key leaf) key rid in
      let size = leaf_insert-key_num vs leaf (split_place vs key leaf) key rid in
      elim (Bool-cases (ltb j (c.order / 2))) [
        | inl is_left ↦
            let k : j < c.order / 2 = ground arith in
            let a = (split_leaf-entries leaf fresh new_page key rid j h full).0 k in
            inl (j, omega arith, a.0 ∙ e, a.1 ∙ e')
        | inr is_right ↦
            let j' = j - c.order / 2 in
            let back : c.order / 2 + j' ≡ j = ground arith in
            let a = (split_leaf-entries leaf fresh new_page key rid j' h full).1 (omega arith) in
            inr (j', omega arith, a.0 ∙ ap big.keys back ∙ e, a.1 ∙ ap big.rids back ∙ e')
      ]

  -- A full, sorted leaf and a new key that is not sorted with one of the leaf. The two halves are
  -- sorted; every key of the left half is before every key of the right half; together they hold the
  -- entries of the leaf and the new one, and no other; and the right half stands between the left
  -- half and the leaf that was next.
  pub split_leaf-Stored :
      (leaf fresh : Node vs) (new_page : ℕ) (key : Key vs) (rid : Rid)
      → 1 < c.order
      → leaf.key_num + 1 ≡ c.order
      → IsSorted vs leaf
      → ((j : ℕ) → j < leaf.key_num → is_zero (cmp_key vs key (leaf.keys j)) ≡ false)
      → let halves = split_leaf vs c leaf fresh new_page key rid in
        IsSorted vs halves.0
        × IsSorted vs halves.1
        × ((i j : ℕ)
            → i < halves.0.key_num
            → j < halves.1.key_num
            → Before vs (halves.0.keys i) (halves.1.keys j))
        × ((k : Key vs) (r : Rid)
            → (Stored vs halves.0 k r ⊎ Stored vs halves.1 k r)
              ↔ (Stored vs leaf k r ⊎ ((key ≡ k) × (rid ≡ r))))
        × (halves.0.rids (c.order - 1) ≡ pointer vs new_page)
        × (halves.1.rids (c.order - 1) ≡ leaf.rids (c.order - 1))
  split_leaf-Stored leaf fresh new_page key rid h full s new =
      let i = split_place vs key leaf in
      let halves = split_leaf vs c leaf fresh new_page key rid in
      let big = leaf_insert vs leaf i key rid in
      let n = split_leaf-key_num leaf fresh new_page key rid h in
      let size = leaf_insert-key_num vs leaf i key rid in
      let fits = split_place-FitsAt vs leaf key s new in
      let sorted = leaf_insert-IsSorted vs leaf i key rid fits.0 s fits.1 in
      let at = λ (j : ℕ). split_leaf-entries leaf fresh new_page key rid j h full in
      let stored = λ (k : Key vs) (r : Rid). leaf_insert-Stored vs leaf i key rid k r fits.0 in
      (
        λ j k lt lt'.
            rw (((at j).0 (omega arith)).0, ((at k).0 (omega arith)).0)
              (sorted j k lt (omega arith)),
        λ j k lt lt'.
            rw (((at j).1 (omega arith)).0, ((at k).1 (omega arith)).0)
              (sorted (c.order / 2 + j) (c.order / 2 + k) (omega arith) (omega arith)),
        λ j k lt lt'.
            rw (((at j).0 (omega arith)).0, ((at k).1 (omega arith)).0)
              (sorted j (c.order / 2 + k) (omega arith) (omega arith)),
        λ k r. (
          λ d. (stored k r).0 (elim d [
            | inl (j, lt, e, e') ↦
                let a = (at j).0 (omega arith) in (j, omega arith, sym a.0 ∙ e, sym a.1 ∙ e')
            | inr (j, lt, e, e') ↦
                let a = (at j).1 (omega arith) in
                (c.order / 2 + j, omega arith, sym a.0 ∙ e, sym a.1 ∙ e')
          ]),
          λ d. split_leaf-half leaf fresh new_page key rid k r h full ((stored k r).1 d),
        ),
        n.2,
        n.3,
      )
