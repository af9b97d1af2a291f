-- ===== src/Bplus/Insert/Leaf.antt =====
-- `insert_into_leaf` of bplus_tree.cpp: the leaf stays sorted, and has one entry more.
use oceanbase.Base.{
  ℕ, ◌+◌, ◌-◌, ◌≡◌, ◌≤◌, ◌<◌, ◌⊎◌, ◌↔◌, inl, inr, refl, sym, ap, ◌∙◌, subst, true, false, ◌&&◌,
  ◌||◌, ◌==◌, ltb, arith, Bool-cases, ==_refl,
}
use oceanbase.Rc.{is_success, record_duplicate_key}
use oceanbase.RecordPage.{Rid}
use oceanbase.Tuples.{Values, is_zero}
use oceanbase.Pages.{Result, ok, err, out_of_rounds}
use oceanbase.Pages.Laws.{pinned, get_this_page-pinned, written, write_page-unpin_page}
use oceanbase.Bplus.{is_negative, Key, Node, Tree, Config, cmp_key}
use oceanbase.Bplus.Arrays.{position-IsPosition}
use oceanbase.Bplus.Order.{Before, Same, Before-of_not, Before-trans_right, NotAfter-Before}
use oceanbase.Bplus.Entries.{IsSorted, Stored}
use oceanbase.Bplus.Insert.{leaf_insert, leaf_place, insert_into_leaf}
use oceanbase.Bplus.Insert.Inserted.{
  inserted_at, before_at, here_at, behind_at, place_cases, shifted_at,
}

module _ (vs : Values) where
  -- The place is between the keys before and those behind.
  abbrev pub FitsAt : Node vs → ℕ → Key vs → Type 0
  FitsAt node i key =
      ((j : ℕ) → j < i → Before vs (node.keys j) key)
      × ((j : ℕ) → i ≤ j → j < node.key_num → Before vs key (node.keys j))

  pub leaf_insert-keys :
      (node : Node vs) (i : ℕ) (key : Key vs) (rid : Rid) (j : ℕ)
      → i ≤ node.key_num
      → j ≤ node.key_num
      → ((leaf_insert vs node i key rid).keys j ≡ inserted_at node.keys i key j)
        × ((leaf_insert vs node i key rid).rids j ≡ inserted_at node.rids i rid j)
  unfolding leaf_insert
  leaf_insert-keys node i key rid j h k =
      (shifted_at node.keys node.key_num i key j h k, shifted_at node.rids node.key_num i rid j h k)

  pub leaf_insert-key_num :
      (node : Node vs) (i : ℕ) (key : Key vs) (rid : Rid)
      → (leaf_insert vs node i key rid).key_num ≡ node.key_num + 1
  unfolding leaf_insert
  leaf_insert-key_num node i key rid = refl

  inserted_at-sorted :
      (node : Node vs) (i : ℕ) (key : Key vs) (j k : ℕ)
      → i ≤ node.key_num
      → IsSorted vs node
      → FitsAt node i key
      → j < k
      → k < node.key_num + 1
      → Before vs (inserted_at node.keys i key j) (inserted_at node.keys i key k)
  inserted_at-sorted node i key j k h s f lt lt' = elim (place_cases j i) [
    | inl jb ↦ rw (before_at node.keys i key j jb) (elim (place_cases k i) [
      | inl kb ↦ rw (before_at node.keys i key k kb) (s j k lt (omega arith))
      | inr (inl e) ↦ rw (e, here_at node.keys i key) (f.0 j jb)
      | inr (inr ka) ↦ rw (behind_at node.keys i key k ka) (s j (k - 1) (omega arith) (omega arith))
    ])
    | inr (inl e) ↦
        rw (e, here_at node.keys i key, behind_at node.keys i key k (omega arith))
          (f.1 (k - 1) (omega arith) (omega arith))
    | inr (inr ja) ↦
        rw (behind_at node.keys i key j ja, behind_at node.keys i key k (omega arith))
          (s (j - 1) (k - 1) (omega arith) (omega arith))
  ]

  pub leaf_insert-IsSorted :
      (node : Node vs) (i : ℕ) (key : Key vs) (rid : Rid)
      → i ≤ node.key_num
      → IsSorted vs node
      → FitsAt node i key
      → IsSorted vs (leaf_insert vs node i key rid)
  leaf_insert-IsSorted node i key rid h s f j k lt lt' =
      let lt'' : k < node.key_num + 1 =
        subst (λ n. k < n) (leaf_insert-key_num node i key rid) lt' in
      rw
        (
          (leaf_insert-keys node i key rid j h (omega arith)).0,
          (leaf_insert-keys node i key rid k h (omega arith)).0,
        )
        (inserted_at-sorted node i key j k h s f lt lt'')

  -- The entries afterwards are those before and the new one.
  pub leaf_insert-Stored :
      (node : Node vs) (i : ℕ) (key : Key vs) (rid : Rid) (k : Key vs) (r : Rid)
      → i ≤ node.key_num
      → Stored vs (leaf_insert vs node i key rid) k r
        ↔ (Stored vs node k r ⊎ ((key ≡ k) × (rid ≡ r)))
  leaf_insert-Stored node i key rid k r h = (
    λ (j, lt, e, e').
        let lt' : j < node.key_num + 1 =
          subst (λ n. j < n) (leaf_insert-key_num node i key rid) lt in
        let at = leaf_insert-keys node i key rid j h (omega arith) in
        elim (place_cases j i) [
          | inl jb ↦ inl (
            j,
            omega arith,
            sym (before_at node.keys i key j jb) ∙ sym at.0 ∙ e,
            sym (before_at node.rids i rid j jb) ∙ sym at.1 ∙ e',
          )
          | inr (inl same) ↦ inr (
            sym (here_at node.keys i key)
                ∙ ap (inserted_at node.keys i key) (sym same)
                ∙ sym at.0
                ∙ e,
            sym (here_at node.rids i rid)
                ∙ ap (inserted_at node.rids i rid) (sym same)
                ∙ sym at.1
                ∙ e',
          )
          | inr (inr ja) ↦ inl (
            j - 1,
            omega arith,
            sym (behind_at node.keys i key j ja) ∙ sym at.0 ∙ e,
            sym (behind_at node.rids i rid j ja) ∙ sym at.1 ∙ e',
          )
        ],
    λ side. elim side [
      | inr (e, e') ↦
          let at = leaf_insert-keys node i key rid i h h in
          (
            i,
            rw (leaf_insert-key_num node i key rid) (omega arith),
            at.0 ∙ here_at node.keys i key ∙ e,
            at.1 ∙ here_at node.rids i rid ∙ e',
          )
      | inl (j, lt, e, e') ↦ elim (Bool-cases (ltb j i)) [
        | inl jb ↦
            let at = leaf_insert-keys node i key rid j h (omega arith) in
            let b : j < i = ground arith in
            (
              j,
              rw (leaf_insert-key_num node i key rid) (omega arith),
              at.0 ∙ before_at node.keys i key j b ∙ e,
              at.1 ∙ before_at node.rids i rid j b ∙ e',
            )
        | inr ja ↦
            let at = leaf_insert-keys node i key rid (j + 1) h (omega arith) in
            let b : i < j + 1 = ground arith in
            let back : j + 1 - 1 ≡ j = omega arith in
            (
              j + 1,
              rw (leaf_insert-key_num node i key rid) (omega arith),
              at.0 ∙ behind_at node.keys i key (j + 1) b ∙ ap node.keys back ∙ e,
              at.1 ∙ behind_at node.rids i rid (j + 1) b ∙ ap node.rids back ∙ e',
            )
      ]
    ],
  )

  -- The place that `insert_into_leaf` finds: at an equal key, or where the new key fits.
  pub leaf_place-FitsAt :
      (node : Node vs) (key : Key vs)
      → IsSorted vs node
      → let i = leaf_place vs key node in
        (i ≤ node.key_num)
        × ((((i < node.key_num) × Same vs key (node.keys i)))
            ⊎ (((ltb i node.key_num && is_zero (cmp_key vs key (node.keys i))) ≡ false)
                × FitsAt node i key))
  leaf_place-FitsAt node key s =
      let test = λ (j : ℕ).
        is_zero (cmp_key vs key (node.keys j)) || is_negative (cmp_key vs key (node.keys j)) in
      let i = leaf_place vs key node in
      let found = position-IsPosition test node.key_num in
      let ahead = λ (j : ℕ) (lt : j < i).
        Before-of_not vs key (node.keys j) (ground (arith, found.1 j lt))
          (ground (arith, found.1 j lt)) in
      (
        found.0,
        elim (found.2) [
          | inl end ↦ inr (ground arith, (ahead, λ j ge lt. absurd (omega arith)))
          | inr (lt, hit) ↦ elim (Bool-cases (is_zero (cmp_key vs key (node.keys i)))) [
            | inl same ↦ inl (lt, same)
            | inr other ↦
                let less : Before vs key (node.keys i) = ground (arith, hit, other) in
                inr (
                  ground (arith, other),
                  (
                    ahead,
                    λ j ge lt'. elim (Bool-cases (i == j)) [
                      | inl e ↦ subst (λ n. Before vs key (node.keys n)) (ground arith) less
                      | inr ne ↦ Before-trans_right vs key (node.keys i) (node.keys j) less (
                          NotAfter-Before vs (node.keys i) (node.keys j) (s i j (ground arith) lt'))
                    ],
                  ),
                )
          ]
        ],
      )

  -- What `insert_into_leaf` leaves of a page.
  abbrev pub LeafOutcome : Tree vs → ℕ → Key vs → Rid → Result (Unit {0}) × Tree vs → Type 0
  LeafOutcome f page key rid (ok done, f') =
      (f' ≡ written f page (f'.content page))
      × ((f'.content page).is_leaf ≡ (f.content page).is_leaf)
      × IsSorted vs (f'.content page)
      × ((k : Key vs) (r : Rid)
          → Stored vs (f'.content page) k r
            ↔ (Stored vs (f.content page) k r ⊎ ((key ≡ k) × (rid ≡ r))))
  LeafOutcome f page key rid (err rc, f') =
      (rc ≡ record_duplicate_key)
      × ((i : ℕ) × (i < (f.content page).key_num) × Same vs key ((f.content page).keys i))
      × (f' ≡ pinned f page)
  LeafOutcome f page key rid (out_of_rounds, f') = ⊥

  leaf_insert-is_leaf :
      (node : Node vs) (i : ℕ) (key : Key vs) (rid : Rid)
      → (leaf_insert vs node i key rid).is_leaf ≡ node.is_leaf
  unfolding leaf_insert
  leaf_insert-is_leaf node i key rid = refl

  -- On a page that is in use and holds a sorted leaf, which the pool can pin, `insert_into_leaf`
  -- either writes a sorted leaf that holds what it held and the new entry, with every other page and
  -- every pin as before; or the code is RECORD_DUPLICATE_KEY, the key is stored already, and the leaf
  -- stays pinned.
  pub insert_into_leaf-LeafOutcome :
      (c : Config vs) (f : Tree vs) (page : ℕ) (key : Key vs) (rid : Rid)
      → is_success (c.answer f page) ≡ true
      → f.in_use page ≡ true
      → IsSorted vs (f.content page)
      → LeafOutcome f page key rid (insert_into_leaf vs c page key rid f)
  unfolding insert_into_leaf
  insert_into_leaf-LeafOutcome c f page key rid served used s =
      let node = f.content page in
      let i = leaf_place vs key node in
      let place = leaf_place-FitsAt node key s in
      rw (get_this_page-pinned c.answer f page served used, insert_into_leaf)
        (elim place.1 [
          | inl (lt, same) ↦
              let dup : (ltb i node.key_num && is_zero (cmp_key vs key (node.keys i))) ≡ true =
                ground (arith, same, lt) in
              rw dup (refl, (i, lt, same), refl)
          | inr (fresh, fits) ↦
              let new = leaf_insert vs node i key rid in
              rw fresh (
                subst (LeafOutcome f page key rid) (sym (write_page-unpin_page f page new)) (
                  rw (==_refl page) (
                    refl,
                    leaf_insert-is_leaf node i key rid,
                    leaf_insert-IsSorted node i key rid place.0 s fits,
                    λ k r. leaf_insert-Stored node i key rid k r place.0,
                  )))
        ])
