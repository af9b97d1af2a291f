-- ===== src/Bplus/Paths.antt =====
-- Search trees whose pages have one place each, and what becomes of them when another page is written.
pub mod Written
use oceanbase.Base.{
  ℕ, zero, suc, ◌+◌, ◌-◌, ◌≡◌, ◌≢◌, ◌≤◌, ◌<◌, ◌⊎◌, ◌↔◌, inl, inr, refl, sym, ap, ◌∙◌, subst, Bool,
  true, false, Option, none, some, ◌==◌, if◌then◌else◌, arith, Bool-cases, ==_refl, ==_iff, ne→==,
}
use oceanbase.RecordPage.{Rid}
use oceanbase.Tuples.{Values, is_zero}
use oceanbase.Pages.Laws.{written}
use oceanbase.Bplus.{position, Key, Node, child, Tree, cmp_key}
use oceanbase.Bplus.Arrays.{position-IsPosition}
use oceanbase.Bplus.Order.{Same}
use oceanbase.Bplus.Entries.{IsSorted, Stored}
use oceanbase.Bplus.Find.{route}
use oceanbase.Bplus.Find.Route.{
  AtLeast, Below, lower, upper, IsTree, Holds, route_bounds, Same-route,
}
use oceanbase.Bplus.Find.Descent.{leaf_of}

module _ (vs : Values) where
  -- A page stands in the tree below `page`.
  abbrev pub Owns : ℕ → Tree vs → ℕ → ℕ → Type 0
  Owns zero f page n = page ≡ n
  Owns (suc h) f page n =
      (page ≡ n)
      ⊎ ((i : ℕ) × (i ≤ (f.content page).key_num) × Owns h f (child vs (f.content page) i) n)

  -- No page stands in two places of the tree.
  abbrev pub IsApart : ℕ → Tree vs → ℕ → Type 0
  IsApart zero f page = Unit {0}
  IsApart (suc h) f page =
      ((i : ℕ) → i ≤ (f.content page).key_num → Owns h f (child vs (f.content page) i) page → ⊥)
      × ((i j n : ℕ)
          → i ≤ (f.content page).key_num
          → j ≤ (f.content page).key_num
          → Owns h f (child vs (f.content page) i) n
          → Owns h f (child vs (f.content page) j) n
          → i ≡ j)
      × ((i : ℕ) → i ≤ (f.content page).key_num → IsApart h f (child vs (f.content page) i))

  route_le : (key : Key vs) (node : Node vs) → route vs key node ≤ node.key_num
  route_le key node = (position-IsPosition _ node.key_num).0

  leaf_of-Owns :
      (h : ℕ) (f : Tree vs) (page : ℕ) (key : Key vs) → Owns h f page (leaf_of vs h f page key)
  leaf_of-Owns zero f page key = refl
  leaf_of-Owns (suc h) f page key =
      let node = f.content page in
      inr (
        route vs key node,
        route_le key node,
        leaf_of-Owns h f (child vs node (route vs key node)) key,
      )

  -- A page that is not written.
  kept :
      (f : Tree vs) (l page : ℕ) (x : Node vs)
      → page ≢ l
      → (written f l x).content page ≡ f.content page
  kept f l page x ne = ground (arith, ne)

  keep_tree :
      (h : ℕ) (f : Tree vs) (l : ℕ) (x : Node vs) (page : ℕ) (lo hi : Option (Key vs))
      → (Owns h f page l → ⊥)
      → IsTree vs h f page lo hi
      → IsTree vs h (written f l x) page lo hi
  keep_tree zero f l x page lo hi other t = rw (kept f l page x other) t
  keep_tree (suc h) f l x page lo hi other t = rw (kept f l page x (λ e. other (inl e))) (
    t.0,
    t.1,
    t.2,
    λ i le.
        keep_tree h f l x (child vs (f.content page) i) _ _ (λ o. other (inr (i, le, o)))
          (t.3 i le),
  )

  keep-Holds :
      (h : ℕ) (f : Tree vs) (l : ℕ) (x : Node vs) (page : ℕ) (k : Key vs) (r : Rid)
      → (Owns h f page l → ⊥)
      → Holds vs h (written f l x) page k r ↔ Holds vs h f page k r
  keep-Holds zero f l x page k r other = rw (kept f l page x other) (λ s. s, λ s. s)
  keep-Holds (suc h) f l x page k r other =
      let rest = λ (i : ℕ) (le : i ≤ (f.content page).key_num).
        keep-Holds h f l x (child vs (f.content page) i) k r (λ o. other (inr (i, le, o))) in
      rw (kept f l page x (λ e. other (inl e)))
        (λ (i, le, s). (i, le, (rest i le).0 s), λ (i, le, s). (i, le, (rest i le).1 s))

  -- The search for the key goes another way.
  apart_child :
      (h : ℕ) (f : Tree vs) (page : ℕ) (key : Key vs) (i : ℕ)
      → IsApart (suc h) f page
      → i ≤ (f.content page).key_num
      → i ≢ route vs key (f.content page)
      → Owns h f (child vs (f.content page) i) (leaf_of vs (suc h) f page key)
      → ⊥
  apart_child h f page key i a le ne o =
      let node = f.content page in
      let r = route vs key node in
      ne (
        a.1 i r (leaf_of vs (suc h) f page key) le (route_le key node) o
          (leaf_of-Owns h f (child vs node r) key))

  apart_page :
      (h : ℕ) (f : Tree vs) (page : ℕ) (key : Key vs)
      → IsApart (suc h) f page
      → page ≢ leaf_of vs (suc h) f page key
  apart_page h f page key a e =
      let node = f.content page in
      let r = route vs key node in
      a.0 r (route_le key node)
        (subst (Owns h f (child vs node r)) (sym e) (leaf_of-Owns h f (child vs node r) key))
