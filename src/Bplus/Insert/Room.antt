-- ===== src/Bplus/Insert/Room.antt =====
-- `insert_entry` of bplus_tree.cpp on a search tree, where the leaf has room.
use oceanbase.Base.{
  ℕ, ◌-◌, ◌≡◌, ◌<◌, ◌⊎◌, ◌↔◌, inl, inr, refl, sym, ap, ◌∙◌, subst, Bool, true, false, none, ltb,
  if◌then◌else◌, arith,
}
use oceanbase.Rc.{is_success, record_closed, record_duplicate_key}
use oceanbase.RecordPage.{Rid}
use oceanbase.Tuples.{Values}
use oceanbase.Pages.{Result, ok, err, out_of_rounds, fail, unpin_page}
use oceanbase.Pages.Laws.{pinned, written, Refused, get_this_page-cases, unpin_page-pinned}
use oceanbase.Bplus.{Key, Tree, Config}
use oceanbase.Bplus.Order.{Same}
use oceanbase.Bplus.Find.Route.{IsTree, Holds}
use oceanbase.Bplus.Find.Descent.{leaf_of, LeadsTo, find_leaf-LeadsTo}
use oceanbase.Bplus.Paths.{IsApart}
use oceanbase.Bplus.Paths.Written.{written-IsTree, written-Holds, Holds-cases}
use oceanbase.Bplus.Insert.{insert_into_leaf, insert_open, insert_entry}
use oceanbase.Bplus.Insert.Leaf.{LeafOutcome, insert_into_leaf-LeafOutcome}

module _ (vs : Values) where
  -- What `insert_entry` leaves of a tree, with the key's leaf the only page it may touch.
  abbrev pub InsertOutcome : ℕ → Tree vs → Key vs → Result (Unit {0}) × Tree vs → Type 0
  InsertOutcome h f key (ok done, f') =
      let root = f.handler.root_page in
      (f' ≡ written f (leaf_of vs h f root key) (f'.content (leaf_of vs h f root key)))
      × IsTree vs h f' root none none
      × ((k : Key vs) (r : Rid)
          → Holds vs h f' root k r ↔ (Holds vs h f root k r ⊎ ((key ≡ k) × (key.rid ≡ r))))
  InsertOutcome h f key (err rc, f') =
      let root = f.handler.root_page in
      (rc ≡ record_duplicate_key)
      × ((k : Key vs) × (r : Rid) × Same vs key k × Holds vs h f root k r)
      × (f' ≡ pinned f (leaf_of vs h f root key))
  InsertOutcome h f key (out_of_rounds, f') = ⊥

  InsertOutcome-of_leaf :
      (h : ℕ) (f : Tree vs) (key : Key vs) (x : Result (Unit {0}) × Tree vs)
      → IsTree vs h f f.handler.root_page none none
      → IsApart vs h f f.handler.root_page
      → LeadsTo vs h f f.handler.root_page key (leaf_of vs h f f.handler.root_page key)
      → LeafOutcome vs f (leaf_of vs h f f.handler.root_page key) key key.rid x
      → InsertOutcome h f key x
  InsertOutcome-of_leaf h f key (ok done, f') t p to o =
      let root = f.handler.root_page in
      let l = leaf_of vs h f root key in
      let new = f'.content l in
      let tree =
        written-IsTree vs h f root none none key new t p tt tt (o.1 ∙ to.1) o.2
          (λ k r s. elim ((o.3 k r).0 s) [ inl old ↦ inl old | inr (e, e') ↦ inr e ]) in
      let held : (k : Key vs) (r : Rid)
          → Holds vs h (written f l new) root k r
            ↔ (Holds vs h f root k r ⊎ ((key ≡ k) × (key.rid ≡ r))) =
        λ k r.
          let w = written-Holds vs h f root key k r new p in
          let split = Holds-cases vs h f root key k r in
          (
            λ s. elim (w.0 s) [
              | inl here ↦ elim ((o.3 k r).0 here) [
                | inl old ↦ inl (split.1 (inl old))
                | inr e ↦ inr e
              ]
              | inr far ↦ inl (split.1 (inr far))
            ],
            λ s. w.1 (elim s [
              | inl held ↦ elim (split.0 held) [
                | inl old ↦ inl ((o.3 k r).1 (inl old))
                | inr far ↦ inr far
              ]
              | inr e ↦ inl ((o.3 k r).1 (inr e))
            ]),
          ) in
      (
        o.0,
        subst (λ g. IsTree vs h g root none none) (sym o.0) tree,
        subst
            (λ g.
              (k : Key vs) (r : Rid)
              → Holds vs h g root k r ↔ (Holds vs h f root k r ⊎ ((key ≡ k) × (key.rid ≡ r))))
            (sym o.0) held,
      )
  InsertOutcome-of_leaf h f key (err rc, f') t p to (e, (i, lt, same), pin) =
      let node = f.content (leaf_of vs h f f.handler.root_page key) in
      (
        e,
        (
          node.keys i,
          node.rids i,
          same,
          (to.3 (node.keys i) (node.rids i) same).1 (i, lt, refl, refl),
        ),
        pin,
      )
  InsertOutcome-of_leaf h f key (out_of_rounds, f') t p to o = o

module _ (vs : Values) (c : Config vs) where
  insert_entry-open :
      (rounds : ℕ) (f : Tree vs) (key : Key vs) (is_unique : Bool)
      → f.handler.opened ≡ true
      → insert_entry vs c rounds key is_unique f ≡ insert_open vs c rounds key is_unique f
  unfolding insert_entry
  insert_entry-open rounds f key is_unique is_open =
      ap (λ b. (if b then insert_open vs c rounds key is_unique else fail record_closed) f) is_open

  -- With room in the leaf, the insertion is one into the leaf.
  insert_open-room :
      (h rounds : ℕ) (f : Tree vs) (key : Key vs)
      → h < rounds
      → IsTree vs h f f.handler.root_page none none
      → (f.content (leaf_of vs h f f.handler.root_page key)).key_num < c.order - 1
      → ((insert_open vs c rounds key false f
            ≡ insert_into_leaf vs c (leaf_of vs h f f.handler.root_page key) key key.rid f)
          × (is_success (c.answer f (leaf_of vs h f f.handler.root_page key)) ≡ true))
        ⊎ Refused c.answer f (insert_open vs c rounds key false f)
  unfolding insert_open
  insert_open-room h rounds f key lt t room =
      let l = leaf_of vs h f f.handler.root_page key in
      let found = find_leaf-LeadsTo vs c h rounds f key lt t in
      let has_room : ltb (f.content l).key_num (c.order - 1) ≡ true = ground arith in
      elim found.0 [
        | inr (n, refused, e) ↦ inr (n, refused, rw e refl)
        | inl there ↦ elim (get_this_page-cases c.answer f l found.1.0) [
          | inr (refused, e) ↦ inr (l, refused, rw (there, e) refl)
          | inl (served, get) ↦
              let go : insert_open vs c rounds key false f
                  ≡ insert_into_leaf vs c l key key.rid ((unpin_page l (pinned f l)).1) =
                rw (there, get, has_room) refl in
              inl (go ∙ ap (insert_into_leaf vs c l key key.rid) (unpin_page-pinned f l), served)
        ]
      ]

  -- On an open handler with a search tree below the root, no page of it in two places, with more
  -- rounds than the height of the tree, and with room in the leaf of the key, `insert_entry` of a key that may occur twice either leaves a search tree of the same height
  -- that holds what it held and the record under its key, with only that leaf written; or the code is
  -- RECORD_DUPLICATE_KEY, the tree holds a record under such a key, and one pin is left behind; or the
  -- pool refuses a page, and `insert_entry` returns its code and changes nothing.
  pub insert_entry-InsertOutcome :
      (h rounds : ℕ) (f : Tree vs) (key : Key vs)
      → h < rounds
      → f.handler.opened ≡ true
      → IsTree vs h f f.handler.root_page none none
      → IsApart vs h f f.handler.root_page
      → (f.content (leaf_of vs h f f.handler.root_page key)).key_num < c.order - 1
      → InsertOutcome vs h f key (insert_entry vs c rounds key false f)
        ⊎ Refused c.answer f (insert_entry vs c rounds key false f)
  insert_entry-InsertOutcome h rounds f key lt is_open t p room =
      let l = leaf_of vs h f f.handler.root_page key in
      let found = find_leaf-LeadsTo vs c h rounds f key lt t in
      let to = found.1 in
      let same = insert_entry-open rounds f key false is_open in
      elim (insert_open-room h rounds f key lt t room) [
        | inl (e, served) ↦ inl (
            subst (InsertOutcome vs h f key) (sym (same ∙ e)) (
              InsertOutcome-of_leaf vs h f key (insert_into_leaf vs c l key key.rid f) t p to
                (insert_into_leaf-LeafOutcome vs c f l key key.rid served to.0 to.2)))
        | inr (n, refused, e) ↦ inr (n, refused, same ∙ e)
      ]
