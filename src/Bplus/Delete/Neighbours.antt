-- ===== src/Bplus/Delete/Neighbours.antt =====
-- `redistribute_nodes` of bplus_tree.cpp: which entries and children the two neighbours have then.
use oceanbase.Base.{
  ℕ, zero, suc, ◌+◌, ◌-◌, ◌≡◌, ◌≢◌, ◌≤◌, ◌<◌, ◌⊎◌, ◌↔◌, inl, inr, refl, sym, ap, ◌∙◌, ◌==◌, ltb,
  leb, arith, Bool-cases, ==_iff,
}
use oceanbase.RecordPage.{Rid}
use oceanbase.Tuples.{Values}
use oceanbase.Bplus.{Key, Node}
use oceanbase.Bplus.Arrays.{shift_up_at, shift_down_at}
use oceanbase.Bplus.Order.{Before, Before-distinct}
use oceanbase.Bplus.Entries.{IsSorted, Stored}
use oceanbase.Bplus.Delete.{leaf_from_right, leaf_from_left, inner_from_right, inner_from_left}

module _ (vs : Values) where
  leaf_from_right-entries :
      (left right : Node vs) (i : ℕ)
      → let parts = leaf_from_right vs left right in
        (i < left.key_num → (parts.0.keys i ≡ left.keys i) × (parts.0.rids i ≡ left.rids i))
        × (parts.0.keys left.key_num ≡ right.keys 0)
        × (parts.0.rids left.key_num ≡ right.rids 0)
        × (i < right.key_num - 1
            → (parts.2.keys i ≡ right.keys (i + 1)) × (parts.2.rids i ≡ right.rids (i + 1)))
  unfolding leaf_from_right
  leaf_from_right-entries left right i = (
    λ lt. (ground arith, ground arith),
    ground arith,
    ground arith,
    λ lt. (
      ground (arith, shift_down_at (right.key_num - 1) 0 right.keys i),
      ground (arith, shift_down_at (right.key_num - 1) 0 right.rids i),
    ),
  )

  leaf_from_right-key_num :
      (left right : Node vs)
      → let parts = leaf_from_right vs left right in
        (parts.0.key_num ≡ left.key_num + 1)
        × (parts.2.key_num ≡ right.key_num - 1)
        × (parts.1 ≡ parts.2.keys 0)
  unfolding leaf_from_right
  leaf_from_right-key_num left right = (refl, refl, refl)

  -- When the first entry of a right leaf goes left, the two leaves together hold what they held, and
  -- the key that separates them in the parent becomes the first one of the right leaf.
  pub leaf_from_right-Stored :
      (left right : Node vs)
      → 1 < right.key_num
      → let parts = leaf_from_right vs left right in
        ((k : Key vs) (r : Rid)
          → (Stored vs parts.0 k r ⊎ Stored vs parts.2 k r)
            ↔ (Stored vs left k r ⊎ Stored vs right k r))
        × (parts.1 ≡ right.keys 1)
  leaf_from_right-Stored left right h =
      let n = leaf_from_right-key_num left right in
      let at = leaf_from_right-entries left right in
      (
        λ k r. (
          λ c. elim c [
            | inl (i, lt, e, e') ↦ elim (Bool-cases (i == left.key_num)) [
              | inl q ↦
                  let q' = (==_iff i left.key_num).0 q in
                  let parts = leaf_from_right vs left right in
                  inr (
                    0,
                    omega arith,
                    sym (at 0).1 ∙ ap parts.0.keys (sym q') ∙ e,
                    sym (at 0).2 ∙ ap parts.0.rids (sym q') ∙ e',
                  )
              | inr q ↦
                  let a = (at i).0 (ground arith) in
                  inl (i, ground arith, sym a.0 ∙ e, sym a.1 ∙ e')
            ]
            | inr (i, lt, e, e') ↦
                let a = (at i).3 (omega arith) in
                inr (i + 1, omega arith, sym a.0 ∙ e, sym a.1 ∙ e')
          ],
          λ c. elim c [
            | inl (i, lt, e, e') ↦ let a = (at i).0 lt in inl (i, omega arith, a.0 ∙ e, a.1 ∙ e')
            | inr (zero, lt, e, e') ↦ inl (left.key_num, omega arith, (at 0).1 ∙ e, (at 0).2 ∙ e')
            | inr (suc i, lt, e, e') ↦
                let a = (at i).3 (omega arith) in
                let q : i + 1 ≡ suc i = omega arith in
                inr (i, omega arith, a.0 ∙ ap right.keys q ∙ e, a.1 ∙ ap right.rids q ∙ e')
          ],
        ),
        n.2 ∙ ((at 0).3 (omega arith)).0,
      )

  leaf_from_left-entries :
      (left right : Node vs) (i : ℕ)
      → let parts = leaf_from_left vs left right in
        (parts.0.keys i ≡ left.keys i)
        × (parts.2.keys 0 ≡ left.keys (left.key_num - 1))
        × (parts.2.rids 0 ≡ right.rids 0)
        × (i < right.key_num → parts.2.keys (i + 1) ≡ right.keys i)
  unfolding leaf_from_left
  leaf_from_left-entries left right i = (
    refl,
    refl,
    shift_up_at right.key_num right.key_num right.rids 0 (omega arith) ∙ ground arith,
    λ lt.
        let back : i + 1 - 1 ≡ i = omega arith in
        ground (
          arith,
          shift_up_at right.key_num right.key_num right.keys (i + 1) (omega arith),
          ap right.keys back,
        ),
  )

  leaf_from_left-key_num :
      (left right : Node vs)
      → let parts = leaf_from_left vs left right in
        (parts.0.key_num ≡ left.key_num - 1) × (parts.2.key_num ≡ right.key_num + 1)
  unfolding leaf_from_left
  leaf_from_left-key_num left right = (refl, refl)

  -- When the last key of a sorted left leaf goes right, where every key is behind it, the record of
  -- the key is left behind: the two leaves now hold the key with the record of the first entry of the
  -- right leaf, and with no other.
  pub leaf_from_left-wrong_rid :
      (left right : Node vs) (r : Rid)
      → 0 < left.key_num
      → IsSorted vs left
      → ((j : ℕ) → j < right.key_num → Before vs (left.keys (left.key_num - 1)) (right.keys j))
      → let parts = leaf_from_left vs left right in
        let moved = left.keys (left.key_num - 1) in
        (Stored vs parts.0 moved r ⊎ Stored vs parts.2 moved r) ↔ (right.rids 0 ≡ r)
  leaf_from_left-wrong_rid left right r h s b =
      let n = leaf_from_left-key_num left right in
      let at = leaf_from_left-entries left right in
      let last = left.key_num - 1 in
      (
        λ c. elim c [
          | inl (i, lt, e, e') ↦ absurd (
              Before-distinct vs (left.keys i) (left.keys last)
                (s i last (omega arith) (omega arith)) (sym (at i).0 ∙ e))
          | inr (zero, lt, e, e') ↦ sym (at 0).2 ∙ e'
          | inr (suc i, lt, e, e') ↦
              let q : i + 1 ≡ suc i = omega arith in
              let parts = leaf_from_left vs left right in
              absurd (
                Before-distinct vs (left.keys last) (right.keys i) (b i (omega arith))
                  (sym e ∙ ap parts.2.keys (sym q) ∙ (at i).3 (omega arith)))
        ],
        λ e. inr (0, omega arith, (at 0).1, (at 0).2 ∙ e),
      )

  -- A node has a child behind a pointer.
  abbrev pub HasPointer : Node vs → Rid → Type 0
  HasPointer node p = (i : ℕ) × (i ≤ node.key_num) × (node.rids i ≡ p)

  -- Between two inner nodes, the last pointer of the right one is lost in either direction, when it
  -- occurs once, and does not also stand by chance behind it: neither node has it afterwards.
  pub inner_redistribute-lost :
      (left right : Node vs) (between : Key vs)
      → 0 < right.key_num
      → (HasPointer left (right.rids right.key_num) → ⊥)
      → ((i : ℕ) → i < right.key_num → right.rids i ≢ right.rids right.key_num)
      → right.rids (right.key_num + 1) ≢ right.rids right.key_num
      → let p = right.rids right.key_num in
        let from_right = inner_from_right vs left between right in
        let from_left = inner_from_left vs left between right in
        (HasPointer from_right.0 p ⊎ HasPointer from_right.2 p → ⊥)
        × (HasPointer from_left.0 p ⊎ HasPointer from_left.2 p → ⊥)
  unfolding inner_from_right inner_from_left
  inner_redistribute-lost left right between h no_left once behind = (
    λ c. elim c [
      | inl (i, le, e) ↦ elim (Bool-cases (left.key_num + 1 == i)) [
        | inl q ↦ once 0 h (ground (arith, e, q))
        | inr q ↦ no_left (i, ground arith, ground (arith, e, q))
      ]
      | inr (i, le, e) ↦
          let at = shift_down_at (right.key_num - 1) 0 right.rids i in
          elim (Bool-cases (ltb i (right.key_num - 1))) [
            | inl q ↦ once (i + 1) (ground arith) (ground (arith, e, at, q))
            | inr q ↦ once i (omega arith) (ground (arith, e, at, q))
          ]
    ],
    λ c. elim c [
      | inl (i, le, e) ↦ no_left (i, omega arith, e)
      | inr (zero, le, e) ↦ no_left (left.key_num, omega arith, e)
      | inr (suc i, le, e) ↦
          let at = shift_up_at right.key_num right.key_num right.rids (suc i) (omega arith) in
          elim (Bool-cases (leb (suc i) right.key_num)) [
            | inl q ↦ once i (ground arith) (ground (arith, e, at, q))
            | inr q ↦
                let top : right.key_num + 1 ≡ suc i = ground arith in
                behind (ap right.rids top ∙ ground (arith, e, at, q))
          ]
    ],
  )
