-- ===== src/Bplus/Find/Descent.antt =====
-- `find_leaf` of bplus_tree.cpp on a search tree: it ends at the one leaf that may hold the key.
use oceanbase.Base.{
  ℕ, zero, suc, ◌≡◌, ◌≤◌, ◌<◌, ◌↔◌, ◌⊎◌, inl, inr, ap, ◌∙◌, subst, true, Option, none, arith,
}
use oceanbase.RecordPage.{Rid}
use oceanbase.Tuples.{Values}
use oceanbase.Pages.{ok, ◌>>◌}
use oceanbase.Pages.Laws.{pinned, Refused, get_this_page-then, unpin_page-pinned}
use oceanbase.Bplus.{Key, child, Tree, Config}
use oceanbase.Bplus.Order.{Same}
use oceanbase.Bplus.Entries.{IsSorted, Stored}
use oceanbase.Bplus.Find.{route, descend, get_page, find_leaf}
use oceanbase.Bplus.Find.Route.{
  AtLeast, Below, lower, upper, IsTree, Holds, route_bounds, Same-route,
}

module _ (vs : Values) where
  -- The leaf at the end of the pointers that a search follows.
  abbrev pub leaf_of : ℕ → Tree vs → ℕ → Key vs → ℕ
  leaf_of zero f page key = page
  leaf_of (suc h) f page key =
      leaf_of h f (child vs (f.content page) (route vs key (f.content page))) key

  -- The page is the one leaf below `root` that may hold the key.
  abbrev pub LeadsTo : ℕ → Tree vs → ℕ → Key vs → ℕ → Type 0
  LeadsTo h f root key leaf =
      (f.in_use leaf ≡ true)
      × ((f.content leaf).is_leaf ≡ true)
      × IsSorted vs (f.content leaf)
      × ((k : Key vs) (r : Rid)
          → Same vs key k
          → Holds vs h f root k r ↔ Stored vs (f.content leaf) k r)

  IsTree-used :
      (h : ℕ) (f : Tree vs) (page : ℕ) (lo hi : Option (Key vs))
      → IsTree vs h f page lo hi
      → f.in_use page ≡ true
  IsTree-used zero f page lo hi t = t.0
  IsTree-used (suc h) f page lo hi t = t.0

  LeadsTo-step :
      (h : ℕ) (f : Tree vs) (page : ℕ) (lo hi : Option (Key vs)) (key : Key vs) (leaf : ℕ)
      → IsTree vs (suc h) f page lo hi
      → route vs key (f.content page) ≤ (f.content page).key_num
      → LeadsTo h f (child vs (f.content page) (route vs key (f.content page))) key leaf
      → LeadsTo (suc h) f page key leaf
  LeadsTo-step h f page lo hi key leaf t le l =
      let node = f.content page in
      let r = route vs key node in
      let only : (k : Key vs) (rid : Rid)
          → Same vs key k
          → Holds vs (suc h) f page k rid
          → Holds vs h f (child vs node r) k rid =
        λ k rid same held.
          subst (λ x. Holds vs h f (child vs node x) k rid)
            (Same-route vs h f page lo hi key k rid held.0 t same held.1 held.2) held.2 in
      (
        l.0,
        l.1,
        l.2,
        λ k rid same.
            (λ held. (l.3 k rid same).0 (only k rid same held), λ s. (r, le, (l.3 k rid same).1 s)),
      )

module _ (vs : Values) (c : Config vs) where
  descend_lem :
      (h rounds : ℕ) (f : Tree vs) (page : ℕ) (lo hi : Option (Key vs)) (key : Key vs)
      → h < rounds
      → IsTree vs h f page lo hi
      → AtLeast vs lo key
      → Below vs hi key
      → ((descend vs c rounds key page (pinned f page) ≡ (ok (leaf_of vs h f page key), f))
          ⊎ Refused c.answer f (descend vs c rounds key page (pinned f page)))
        × LeadsTo vs h f page key (leaf_of vs h f page key)
  unfolding descend
  descend_lem zero (suc rounds) f page lo hi key lt t a b = (
    inl (rw t.1 (ap (λ g. (ok page, g)) (unpin_page-pinned f page))),
    (t.0, t.1, t.2.0, λ k r same. (λ s. s, λ s. s)),
  )
  descend_lem (suc h) (suc rounds) f page lo hi key lt t a b =
      let node = f.content page in
      let r = route vs key node in
      let next = child vs node r in
      let p = route_bounds vs node lo hi key a b in
      let sub = t.3 r p.0 in
      let rest =
        descend_lem h rounds f next (lower vs node r lo) (upper vs node r hi) key (omega arith) sub
          p.1 p.2 in
      let go : descend vs c (suc rounds) key page (pinned f page)
          ≡ (get_page vs c next >> descend vs c rounds key next) f =
        rw t.1
          (ap (get_page vs c next >> descend vs c rounds key next) (unpin_page-pinned f page)) in
      let get =
        get_this_page-then c.answer f next (descend vs c rounds key next)
          (IsTree-used vs h f next (lower vs node r lo) (upper vs node r hi) sub) in
      (
        elim get [
          | inl (served, e) ↦ elim rest.0 [
            | inl there ↦ inl (go ∙ e ∙ there)
            | inr (n, refused, there) ↦ inr (n, refused, go ∙ e ∙ there)
          ]
          | inr (refused, e) ↦ inr (next, refused, go ∙ e)
        ],
        LeadsTo-step vs h f page lo hi key (leaf_of vs h f next key) t p.0 rest.1,
      )
  descend_lem h zero f page lo hi key lt t a b = ground arith

  -- On a search tree below the root, `find_leaf` ends when it is given more rounds than the height of
  -- the tree. It leaves the file as it was, pins included, and returns the leaf at the end of the
  -- pointers it follows, or, when the pool refuses a page, the code of the pool. That leaf is in use and sorted, and holds each record
  -- that the tree holds under a key that compares like the one looked for.
  pub find_leaf-LeadsTo :
      (h rounds : ℕ) (f : Tree vs) (key : Key vs)
      → h < rounds
      → IsTree vs h f f.handler.root_page none none
      → ((find_leaf vs c rounds key f ≡ (ok (leaf_of vs h f f.handler.root_page key), f))
          ⊎ Refused c.answer f (find_leaf vs c rounds key f))
        × LeadsTo vs h f f.handler.root_page key (leaf_of vs h f f.handler.root_page key)
  unfolding find_leaf
  find_leaf-LeadsTo h rounds f key lt t =
      let root = f.handler.root_page in
      let down = descend_lem h rounds f root none none key lt t tt tt in
      let get =
        get_this_page-then c.answer f root (descend vs c rounds key root)
          (IsTree-used vs h f root none none t) in
      (
        elim get [
          | inl (served, e) ↦ elim down.0 [
            | inl there ↦ inl (e ∙ there)
            | inr (n, refused, there) ↦ inr (n, refused, e ∙ there)
          ]
          | inr (refused, e) ↦ inr (root, refused, e)
        ],
        down.1,
      )
