-- ===== src/Bplus/Find/Lookup.antt =====
-- `get_entry` of bplus_tree.cpp on a search tree: what it returns for a key.
use oceanbase.Base.{ℕ, ◌≡◌, ◌<◌, ◌⊎◌, inl, inr, refl, true, false, none, ltb, arith, sym, subst}
use oceanbase.Rc.{record_invalid_key}
use oceanbase.RecordPage.{Rid}
use oceanbase.Tuples.{Values, is_zero}
use oceanbase.Pages.{Result, ok, err, out_of_rounds}
use oceanbase.Pages.Laws.{pinned, Refused, get_this_page-cases}
use oceanbase.Bplus.{position, Key, Tree, Config, cmp_key}
use oceanbase.Bplus.Arrays.{position-IsPosition}
use oceanbase.Bplus.Order.{Same}
use oceanbase.Bplus.Find.{get_entry}
use oceanbase.Bplus.Find.Route.{IsTree, Holds}
use oceanbase.Bplus.Find.Descent.{leaf_of, find_leaf-LeadsTo}

module _ (vs : Values) where
  -- What `get_entry` leaves for a key. It returns a record that the tree holds under the key; or the
  -- code is RECORD_INVALID_KEY and the tree holds none. Nothing changes but that one page has one pin
  -- more.
  abbrev pub LookupOutcome : ℕ → Tree vs → Key vs → Result Rid × Tree vs → Type 0
  LookupOutcome h f key (ok rid, f') =
      ((k : Key vs) × Same vs key k × Holds vs h f f.handler.root_page k rid)
      × ((leaf : ℕ) × (f' ≡ pinned f leaf))
  LookupOutcome h f key (err rc, f') =
      (rc ≡ record_invalid_key)
      × ((k : Key vs) (rid : Rid) → Same vs key k → Holds vs h f f.handler.root_page k rid → ⊥)
      × ((leaf : ℕ) × (f' ≡ pinned f leaf))
  LookupOutcome h f key (out_of_rounds, f') = ⊥

module _ (vs : Values) (c : Config vs) where
  -- On a search tree below the root, with more rounds than the height of the tree, `get_entry` returns
  -- a record that the tree holds under the key, or RECORD_INVALID_KEY and there is none, and leaves one
  -- pin more; or the pool refuses a page, and `get_entry` returns its code and changes nothing.
  pub get_entry-LookupOutcome :
      (h rounds : ℕ) (f : Tree vs) (key : Key vs)
      → h < rounds
      → IsTree vs h f f.handler.root_page none none
      → LookupOutcome vs h f key (get_entry vs c rounds key f)
        ⊎ Refused c.answer f (get_entry vs c rounds key f)
  unfolding get_entry
  get_entry-LookupOutcome h rounds f key lt t =
      let found = find_leaf-LeadsTo vs c h rounds f key lt t in
      let leaf = leaf_of vs h f f.handler.root_page key in
      let to = found.1 in
      let node = f.content leaf in
      let i = position (λ j. is_zero (cmp_key vs key (node.keys j))) node.key_num in
      let p = position-IsPosition (λ j. is_zero (cmp_key vs key (node.keys j))) node.key_num in
      elim found.0 [
        | inr (n, refused, e) ↦ inr (n, refused, rw e refl)
        | inl there ↦ elim (get_this_page-cases c.answer f leaf to.0) [
          | inr (refused, e) ↦ inr (leaf, refused, rw (there, e) refl)
          | inl (served, get) ↦ inl (
              rw (there, get)
                (elim p.2 [
                  | inl end ↦
                      let out : ltb i node.key_num ≡ false = ground arith in
                      rw out (
                        refl,
                        (λ k rid same held.
                            let s = (to.3 k rid same).0 held in
                            let miss = p.1 s.0 (omega (arith, s.1)) in
                            let hit = subst (λ x. Same vs key x) (sym s.2) same in
                            ground (arith, miss, hit)),
                        (leaf, refl),
                      )
                  | inr (lt', same) ↦
                      let inside : ltb i node.key_num ≡ true = ground arith in
                      rw inside (
                        (
                          node.keys i,
                          same,
                          (to.3 (node.keys i) (node.rids i) same).1 (i, lt', refl, refl),
                        ),
                        (leaf, refl),
                      )
                ]))
        ]
      ]
