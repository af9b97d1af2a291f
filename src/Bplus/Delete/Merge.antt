-- ===== src/Bplus/Delete/Merge.antt =====
-- `coalesce_node` of bplus_tree.cpp on two leaves: the entries of both.
use oceanbase.Base.{
  ℕ, ◌+◌, ◌-◌, ◌≡◌, ◌<◌, ◌⊎◌, ◌↔◌, inl, inr, refl, sym, ap, ◌∙◌, ltb, arith, Bool-cases,
}
use oceanbase.RecordPage.{Rid}
use oceanbase.Tuples.{Values}
use oceanbase.Bplus.{Key, Node}
use oceanbase.Bplus.Arrays.{copy_at}
use oceanbase.Bplus.Order.{Before}
use oceanbase.Bplus.Entries.{IsSorted, Stored}
use oceanbase.Bplus.Delete.{merge_leaves}

module _ (vs : Values) where
  merge_leaves-left :
      (order : ℕ) (left right : Node vs) (i : ℕ)
      → left.key_num + right.key_num < order
      → i < left.key_num
      → ((merge_leaves vs order left right).keys i ≡ left.keys i)
        × ((merge_leaves vs order left right).rids i ≡ left.rids i)
  unfolding merge_leaves
  merge_leaves-left order left right i h lt = (
    ground (arith, copy_at right.key_num left.keys left.key_num right.keys 0 i),
    ground (arith, copy_at right.key_num left.rids left.key_num right.rids 0 i),
  )

  merge_leaves-right :
      (order : ℕ) (left right : Node vs) (i : ℕ)
      → left.key_num + right.key_num < order
      → i < right.key_num
      → ((merge_leaves vs order left right).keys (left.key_num + i) ≡ right.keys i)
        × ((merge_leaves vs order left right).rids (left.key_num + i) ≡ right.rids i)
  unfolding merge_leaves
  merge_leaves-right order left right i h lt =
      let back : 0 + (left.key_num + i - left.key_num) ≡ i = omega arith in
      (
        ground (
          arith,
          copy_at right.key_num left.keys left.key_num right.keys 0 (left.key_num + i),
          ap right.keys back,
        ),
        ground (
          arith,
          copy_at right.key_num left.rids left.key_num right.rids 0 (left.key_num + i),
          ap right.rids back,
        ),
      )

  -- An entry of the merged leaf is one of the left leaf, or one of the right.
  merge_leaves-cases :
      (order : ℕ) (left right : Node vs) (i : ℕ)
      → left.key_num + right.key_num < order
      → i < left.key_num + right.key_num
      → let merged = merge_leaves vs order left right in
        ((i < left.key_num) × (merged.keys i ≡ left.keys i) × (merged.rids i ≡ left.rids i))
        ⊎ ((j : ℕ) × (i ≡ left.key_num + j)
            × (j < right.key_num)
            × (merged.keys i ≡ right.keys j)
            × (merged.rids i ≡ right.rids j))
  merge_leaves-cases order left right i h lt = elim (Bool-cases (ltb i left.key_num)) [
    | inl is_left ↦
        let k : i < left.key_num = ground arith in
        let at = merge_leaves-left order left right i h k in inl (k, at.0, at.1)
    | inr is_right ↦
        let merged = merge_leaves vs order left right in
        let j = i - left.key_num in
        let back : i ≡ left.key_num + j = ground arith in
        let k : j < right.key_num = ground arith in
        let at = merge_leaves-right order left right j h k in
        inr (j, back, k, ap merged.keys back ∙ at.0, ap merged.rids back ∙ at.1)
  ]

  merge_leaves-key_num :
      (order : ℕ) (left right : Node vs)
      → let merged = merge_leaves vs order left right in
        (merged.key_num ≡ left.key_num + right.key_num)
        × (merged.rids (order - 1) ≡ right.rids (order - 1))
  unfolding merge_leaves
  merge_leaves-key_num order left right = (refl, ground arith)

  -- Two leaves whose entries fit into one, short of the place of the pointer to the next leaf: the
  -- merged leaf holds the entries of both and no other; it is sorted when both are and the left keys
  -- are before the right ones; and its pointer to the next leaf is that of the right one.
  pub merge_leaves-Stored :
      (order : ℕ) (left right : Node vs)
      → left.key_num + right.key_num < order
      → IsSorted vs left
      → IsSorted vs right
      → ((i j : ℕ) → i < left.key_num → j < right.key_num → Before vs (left.keys i) (right.keys j))
      → let merged = merge_leaves vs order left right in
        IsSorted vs merged
        × ((k : Key vs) (r : Rid)
            → Stored vs merged k r ↔ (Stored vs left k r ⊎ Stored vs right k r))
        × (merged.rids (order - 1) ≡ right.rids (order - 1))
  merge_leaves-Stored order left right h s s' b =
      let n = (merge_leaves-key_num order left right).0 in
      (
        λ i j lt lt'. elim (merge_leaves-cases order left right i h (omega arith)) [
          | inl (il, e, _) ↦ elim (merge_leaves-cases order left right j h (omega arith)) [
            | inl (jl, e', _) ↦ rw (e, e') (s i j lt jl)
            | inr (j', q, jr, e', _) ↦ rw (e, e') (b i j' il jr)
          ]
          | inr (i', p, ir, e, _) ↦ elim (merge_leaves-cases order left right j h (omega arith)) [
            | inl (jl, e', _) ↦ absurd (omega arith)
            | inr (j', q, jr, e', _) ↦ rw (e, e') (s' i' j' (omega arith) jr)
          ]
        ],
        λ k r. (
          λ (i, lt, e, e'). elim (merge_leaves-cases order left right i h (omega arith)) [
            | inl (il, a, a') ↦ inl (i, il, sym a ∙ e, sym a' ∙ e')
            | inr (j, _, jr, a, a') ↦ inr (j, jr, sym a ∙ e, sym a' ∙ e')
          ],
          λ c. elim c [
            | inl (i, lt, e, e') ↦
                let at = merge_leaves-left order left right i h lt in
                (i, omega arith, at.0 ∙ e, at.1 ∙ e')
            | inr (i, lt, e, e') ↦
                let at = merge_leaves-right order left right i h lt in
                (left.key_num + i, omega arith, at.0 ∙ e, at.1 ∙ e')
          ],
        ),
        (merge_leaves-key_num order left right).1,
      )
