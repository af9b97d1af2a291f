-- ===== src/Bplus/Delete/Plenty.antt =====
-- `delete_entry` of bplus_tree.cpp on a search tree, where the leaf keeps enough keys.
use oceanbase.Base.{
  Bool-cases, ℕ, zero, suc, ◌-◌, ◌≡◌, ◌≤◌, ◌<◌, ◌/◌, ◌==◌, not, ◌&&◌, leb, ◌⊎◌, ◌↔◌, inl, inr, refl,
  sym, ap, ◌∙◌, subst, true, false, none, arith, Option-cases,
}
use oceanbase.Rc.{is_success, record_invalid_key}
use oceanbase.RecordPage.{Rid}
use oceanbase.Tuples.{Values, is_zero}
use oceanbase.Pages.{Result, ok, err, out_of_rounds, continue, unpin_page}
use oceanbase.Pages.Laws.{pinned, written, Refused, get_this_page-cases, unpin_page-pinned}
use oceanbase.Bplus.{Key, Node, Tree, Op, Config, cmp_key}
use oceanbase.Bplus.Order.{Same}
use oceanbase.Bplus.Find.Route.{IsTree, Holds}
use oceanbase.Bplus.Find.Descent.{leaf_of, LeadsTo, find_leaf-LeadsTo}
use oceanbase.Bplus.Paths.{IsApart}
use oceanbase.Bplus.Paths.Written.{written-IsTree, written-Holds, Holds-cases, Elsewhere-other}
use oceanbase.Bplus.Delete.{
  min_key, delete_entry_from_node, settle, delete_entry_internal, delete_entry,
}
use oceanbase.Bplus.Delete.Entry.{DeleteOutcome, delete_entry_from_node-DeleteOutcome}

module _ (vs : Values) where
  -- What `delete_entry` leaves of a tree, with the key's leaf the only page it may touch.
  abbrev pub RemoveOutcome : ℕ → Tree vs → Key vs → Result (Unit {0}) × Tree vs → Type 0
  RemoveOutcome h f key (ok done, f') =
      let root = f.handler.root_page in
      (f' ≡ written f (leaf_of vs h f root key) (f'.content (leaf_of vs h f root key)))
      × IsTree vs h f' root none none
      × ((k : Key vs) (r : Rid)
          → Holds vs h f' root k r ↔ (Holds vs h f root k r × (is_zero (cmp_key vs key k) ≡ false)))
  RemoveOutcome h f key (err rc, f') =
      let root = f.handler.root_page in
      (rc ≡ record_invalid_key)
      × ((k : Key vs) (r : Rid) → Same vs key k → Holds vs h f root k r → ⊥)
      × (f' ≡ pinned f (leaf_of vs h f root key))
  RemoveOutcome h f key (out_of_rounds, f') = ⊥

  -- A leaf that may stay as it is with a number of keys: the root, or one with enough keys.
  abbrev pub IsPlenty : ℕ → Node vs → ℕ → Type 0
  IsPlenty order leaf n = (leaf.parent ≡ none) ⊎ (order / 2 ≤ n)

  RemoveOutcome-of_leaf :
      (h : ℕ) (f : Tree vs) (key : Key vs) (x : Result (Unit {0}) × Tree vs)
      → IsTree vs h f f.handler.root_page none none
      → IsApart vs h f f.handler.root_page
      → LeadsTo vs h f f.handler.root_page key (leaf_of vs h f f.handler.root_page key)
      → DeleteOutcome vs f (leaf_of vs h f f.handler.root_page key) key x
      → RemoveOutcome h f key x
  RemoveOutcome-of_leaf h f key (ok done, f') t p to o =
      let root = f.handler.root_page in
      let l = leaf_of vs h f root key in
      let new = f'.content l in
      let entries = o.5 in
      let tree =
        written-IsTree vs h f root none none key new t p tt tt o.1 o.4
          (λ k r s. inl ((entries k r).0 s).0) in
      let held : (k : Key vs) (r : Rid)
          → Holds vs h (written f l new) root k r
            ↔ (Holds vs h f root k r × (is_zero (cmp_key vs key k) ≡ false)) =
        λ k r.
          let w = written-Holds vs h f root key k r new p in
          let split = Holds-cases vs h f root key k r in
          (
            λ s. elim (w.0 s) [
              | inl here ↦ (split.1 (inl ((entries k r).0 here).0), ((entries k r).0 here).1)
              | inr far ↦
                  (split.1 (inr far), Elsewhere-other vs h f root none none key k r t tt tt far)
            ],
            λ s. w.1 (elim (split.0 s.0) [
              | inl old ↦ inl ((entries k r).1 (old, s.1))
              | inr far ↦ inr far
            ]),
          ) in
      (
        o.0,
        subst (λ g. IsTree vs h g root none none) (sym o.0) tree,
        subst
            (λ g.
              (k : Key vs) (r : Rid)
              → Holds vs h g root k r
                ↔ (Holds vs h f root k r × (is_zero (cmp_key vs key k) ≡ false)))
            (sym o.0) held,
      )
  RemoveOutcome-of_leaf h f key (err rc, f') t p to (e, missing, pin) = (
    e,
    (λ k r same held.
        let s = (to.3 k r same).0 held in
        ground (arith, missing s.0 s.1, subst (Same vs key) (sym s.2) same)),
    pin,
  )
  RemoveOutcome-of_leaf h f key (out_of_rounds, f') t p to o = o

module _ (vs : Values) (c : Config vs) where
  -- A leaf that may stay as it is stays as it is, also when the pool refuses it.
  settle-leaf :
      (up : ℕ → Key vs → Op vs (Unit {0})) (g : Tree vs) (l : ℕ)
      → g.in_use l ≡ true
      → (g.content l).is_leaf ≡ true
      → IsPlenty vs c.order (g.content l) (g.content l).key_num
      → (settle vs c up l g ≡ (ok tt, g)) ⊎ Refused c.answer g (settle vs c up l g)
  unfolding settle
  settle-leaf up g l used leaf plenty =
      let node = g.content l in
      let no_shrink : (node.key_num == 0 && not node.is_leaf) ≡ false = ground (arith, leaf) in
      let back : unpin_page l (pinned g l) ≡ (ok tt, g) =
        ap (λ f. (ok tt, f)) (unpin_page-pinned g l) in
      elim (get_this_page-cases c.answer g l used) [
        | inr (refused, e) ↦ inr (l, refused, rw e refl)
        | inl (served, get) ↦ inl (elim (Option-cases node.parent) [
          | inl root ↦ rw (get, root, no_shrink) back
          | inr (parent, e) ↦
              let enough : leb (min_key vs c.order node) node.key_num ≡ true =
                rw leaf (ground (arith, plenty, e)) in
              rw (get, e, enough) back
        ])
      ]

  -- What the pool refuses after a deletion
  abbrev pub RefusedAfter : Result (Unit {0}) × Tree vs → Result (Unit {0}) × Tree vs → Type 0
  RefusedAfter x y = (f' : Tree vs) × (x ≡ (ok tt, f')) × Refused c.answer f' y

  -- A deletion from the leaf, with what follows.
  after :
      (up : ℕ → Key vs → Op vs (Unit {0})) (f : Tree vs) (l : ℕ) (key : Key vs)
      (x : Result (Unit {0}) × Tree vs)
      → f.in_use l ≡ true
      → IsPlenty vs c.order (f.content l) ((f.content l).key_num - 1)
      → DeleteOutcome vs f l key x
      → (continue x (λ _. settle vs c up l) ≡ x)
        ⊎ RefusedAfter x (continue x (λ _. settle vs c up l))
  after up f l key (ok done, f') used plenty o =
      elim (settle-leaf up f' l (subst (λ (g : Tree vs). g.in_use l ≡ true) (sym o.0) used) o.1 (
        subst (λ n. IsPlenty vs c.order (f'.content l) n) (sym o.3)
          (elim plenty [ inl e ↦ inl (o.2 ∙ e) | inr le ↦ inr le ]))) [
            | inl e ↦ inl e
            | inr refused ↦ inr (f', refl, refused)
          ]
  after up f l key (err rc, f') used plenty o = inl refl
  after up f l key (out_of_rounds, f') used plenty o = inl refl

  unserved :
      (f : Tree vs) (l : ℕ) (key : Key vs)
      → f.in_use l ≡ true
      → is_success (c.answer f l) ≡ false
      → delete_entry_from_node vs c l key f ≡ (err (c.answer f l), f)
  unfolding delete_entry_from_node
  unserved f l key used refused = elim (get_this_page-cases c.answer f l used) [
    | inl (served, e) ↦ cc
    | inr (no_frame, e) ↦ rw e refl
  ]

  -- How a deletion of a key ends: as described, or with the code of a pool that refuses a page, before
  -- the deletion or behind it
  abbrev pub EndOutcome : ℕ → Tree vs → Key vs → Result (Unit {0}) × Tree vs → Type 0
  EndOutcome h f key x =
      RemoveOutcome vs h f key x
      ⊎ Refused c.answer f x
      ⊎ ((f' : Tree vs) × RemoveOutcome vs h f key (ok tt, f') × Refused c.answer f' x)

  -- On a search tree below the root, no page of it in two places, with more rounds than the height of
  -- the tree, and where the leaf of the key is the root or has at least
  -- order / 2 keys without it, `delete_entry` either leaves a search tree of the same height that holds
  -- what it held but the records under the key, with only that leaf written; or the code is
  -- RECORD_INVALID_KEY, the tree holds no record under the key, and one pin is left behind; or the pool
  -- refuses a page, and `delete_entry` returns its code, either with nothing changed or, when it looks
  -- again at the leaf, with the records gone.
  pub delete_entry-RemoveOutcome :
      (h rounds : ℕ) (f : Tree vs) (key : Key vs)
      → h < rounds
      → IsTree vs h f f.handler.root_page none none
      → IsApart vs h f f.handler.root_page
      → IsPlenty vs c.order
          (f.content (leaf_of vs h f f.handler.root_page key))
          ((f.content (leaf_of vs h f f.handler.root_page key)).key_num - 1)
      → EndOutcome h f key (delete_entry vs c rounds key f)
  unfolding delete_entry delete_entry_internal
  delete_entry-RemoveOutcome h (suc rounds) f key lt t p plenty =
      let l = leaf_of vs h f f.handler.root_page key in
      let found = find_leaf-LeadsTo vs c h (suc rounds) f key lt t in
      let to = found.1 in
      let x = delete_entry_from_node vs c l key f in
      elim found.0 [
        | inr (n, refused, e) ↦ inr (inl (n, refused, rw e refl))
        | inl there ↦ rw there (elim (Bool-cases (is_success (c.answer f l))) [
          | inr refused ↦ inr (inl (l, refused, rw (unserved f l key to.0 refused) refl))
          | inl served ↦
              let deleted =
                delete_entry_from_node-DeleteOutcome vs c f l key served to.0 to.1 to.2 in
              let end = RemoveOutcome-of_leaf vs h f key x t p to deleted in
              elim (after (delete_entry_internal vs c rounds) f l key x to.0 plenty deleted) [
                | inl rest ↦ inl (subst (RemoveOutcome vs h f key) (sym rest) end)
                | inr (f', e, refused) ↦
                    inr (inr (f', subst (RemoveOutcome vs h f key) e end, refused))
              ]
        ])
      ]
  delete_entry-RemoveOutcome h zero f key lt t p plenty = ground arith
