-- ===== src/Bplus/Paths/Written.antt =====
-- What becomes of a search tree and its records when the leaf of a key is written.
use oceanbase.Base.{
  ℕ, zero, suc, ◌≡◌, ◌≢◌, ◌≤◌, ◌⊎◌, ◌↔◌, inl, inr, refl, sym, ap, ◌∙◌, subst, true, false, Option,
  ◌==◌, arith, Bool-cases, ==_refl, ==_iff,
}
use oceanbase.RecordPage.{Rid}
use oceanbase.Tuples.{Values, is_zero}
use oceanbase.Pages.Laws.{written}
use oceanbase.Bplus.{Key, Node, child, Tree, cmp_key}
use oceanbase.Bplus.Entries.{IsSorted, Stored}
use oceanbase.Bplus.Find.{route}
use oceanbase.Bplus.Find.Route.{
  AtLeast, Below, lower, upper, IsTree, Holds, route_bounds, Same-route,
}
use oceanbase.Bplus.Find.Descent.{leaf_of}
use oceanbase.Bplus.Paths.{IsApart, route_le, kept, keep_tree, keep-Holds, apart_child, apart_page}

module _ (vs : Values) where
  -- A leaf that is written with sorted entries, each of them an old one or under the key that leads
  -- there, leaves a search tree.
  pub written-IsTree :
      (h : ℕ) (f : Tree vs) (page : ℕ) (lo hi : Option (Key vs)) (key : Key vs) (x : Node vs)
      → IsTree vs h f page lo hi
      → IsApart vs h f page
      → AtLeast vs lo key
      → Below vs hi key
      → x.is_leaf ≡ true
      → IsSorted vs x
      → ((k : Key vs) (r : Rid)
          → Stored vs x k r
          → Stored vs (f.content (leaf_of vs h f page key)) k r ⊎ (key ≡ k))
      → IsTree vs h (written f (leaf_of vs h f page key) x) page lo hi
  written-IsTree zero f page lo hi key x t p a b leaf s entries = rw (==_refl page) (
    t.0,
    leaf,
    (
      s,
      λ i lt. elim (entries (x.keys i) (x.rids i) (i, lt, refl, refl)) [
        | inl (j, lt', e, e') ↦ subst (λ k. AtLeast vs lo k × Below vs hi k) e (t.2.1 j lt')
        | inr e ↦ subst (λ k. AtLeast vs lo k × Below vs hi k) e (a, b)
      ],
    ),
  )
  written-IsTree (suc h) f page lo hi key x t p a b leaf s entries =
      let node = f.content page in
      let r = route vs key node in
      let l = leaf_of vs (suc h) f page key in
      let in_bounds = route_bounds vs node lo hi key a b in
      let here =
        written-IsTree h f (child vs node r) (lower vs node r lo) (upper vs node r hi) key x
          (t.3 r in_bounds.0) (p.2 r in_bounds.0) in_bounds.1 in_bounds.2 leaf s entries in
      rw (kept vs f l page x (apart_page vs h f page key p)) (
        t.0,
        t.1,
        t.2,
        λ i le. elim (Bool-cases (i == r)) [
          | inl e ↦
              subst
                (λ (j : ℕ).
                  IsTree vs h (written f l x) (child vs node j) (lower vs node j lo)
                    (upper vs node j hi))
                (sym ((==_iff i r).0 e)) here
          | inr ne ↦
              keep_tree vs h f l x (child vs node i) _ _
                (apart_child vs h f page key i p le (λ e. ground (arith, e, ne))) (t.3 i le)
        ],
      )

  -- A leaf other than the one that the key leads to holds a record.
  abbrev pub Elsewhere : ℕ → Tree vs → ℕ → Key vs → Key vs → Rid → Type 0
  Elsewhere zero f page key k r = ⊥
  Elsewhere (suc h) f page key k r =
      Elsewhere h f (child vs (f.content page) (route vs key (f.content page))) key k r
      ⊎ ((i : ℕ) × (i ≤ (f.content page).key_num)
          × (i ≢ route vs key (f.content page))
          × Holds vs h f (child vs (f.content page) i) k r)

  pub Holds-cases :
      (h : ℕ) (f : Tree vs) (page : ℕ) (key k : Key vs) (r : Rid)
      → Holds vs h f page k r
        ↔ (Stored vs (f.content (leaf_of vs h f page key)) k r ⊎ Elsewhere h f page key k r)
  Holds-cases zero f page key k r = (inl, λ c. elim c [ inl s ↦ s | inr e ↦ absurd e ])
  Holds-cases (suc h) f page key k r =
      let node = f.content page in
      let n = route vs key node in
      let rest = Holds-cases h f (child vs node n) key k r in
      (
        λ (i, le, s). elim (Bool-cases (i == n)) [
          | inl e ↦
              elim (rest.0
                (subst (λ (j : ℕ). Holds vs h f (child vs node j) k r) ((==_iff i n).0 e) s)) [
                  | inl here ↦ inl here
                  | inr far ↦ inr (inl far)
                ]
          | inr ne ↦ inr (inr (i, le, (λ e. ground (arith, e, ne)), s))
        ],
        λ c. elim c [
          | inl here ↦ (n, route_le vs key node, rest.1 (inl here))
          | inr (inl far) ↦ (n, route_le vs key node, rest.1 (inr far))
          | inr (inr (i, le, ne, s)) ↦ (i, le, s)
        ],
      )

  -- What is elsewhere is not written, and not under the key.
  keep-Elsewhere :
      (h : ℕ) (f : Tree vs) (page : ℕ) (key k : Key vs) (r : Rid) (x : Node vs)
      → IsApart vs h f page
      → (leaf_of vs h (written f (leaf_of vs h f page key) x) page key ≡ leaf_of vs h f page key)
        × (Elsewhere h (written f (leaf_of vs h f page key) x) page key k r
            ↔ Elsewhere h f page key k r)
  keep-Elsewhere zero f page key k r x a = (refl, (λ e. e, λ e. e))
  keep-Elsewhere (suc h) f page key k r x a =
      let node = f.content page in
      let n = route vs key node in
      let l = leaf_of vs (suc h) f page key in
      let rest = keep-Elsewhere h f (child vs node n) key k r x (a.2 n (route_le vs key node)) in
      let others = λ (i : ℕ) (le : i ≤ node.key_num) (ne : i ≢ n).
        keep-Holds vs h f l x (child vs node i) k r (apart_child vs h f page key i a le ne) in
      rw (kept vs f l page x (apart_page vs h f page key a)) (
        rest.0,
        (
          λ c. elim c [
            | inl far ↦ inl (rest.1.0 far)
            | inr (i, le, ne, s) ↦ inr (i, le, ne, (others i le ne).0 s)
          ],
          λ c. elim c [
            | inl far ↦ inl (rest.1.1 far)
            | inr (i, le, ne, s) ↦ inr (i, le, ne, (others i le ne).1 s)
          ],
        ),
      )

  pub Elsewhere-other :
      (h : ℕ) (f : Tree vs) (page : ℕ) (lo hi : Option (Key vs)) (key k : Key vs) (r : Rid)
      → IsTree vs h f page lo hi
      → AtLeast vs lo key
      → Below vs hi key
      → Elsewhere h f page key k r
      → is_zero (cmp_key vs key k) ≡ false
  Elsewhere-other zero f page lo hi key k r t a b e = absurd e
  Elsewhere-other (suc h) f page lo hi key k r t a b (inl far) =
      let node = f.content page in
      let n = route vs key node in
      let p = route_bounds vs node lo hi key a b in
      Elsewhere-other h f (child vs node n) (lower vs node n lo) (upper vs node n hi) key k r
        (t.3 n p.0) p.1 p.2 far
  Elsewhere-other (suc h) f page lo hi key k r t a b (inr (i, le, ne, s)) =
      elim (Bool-cases (is_zero (cmp_key vs key k))) [
        | inl same ↦ absurd (ne (Same-route vs h f page lo hi key k r i t same le s))
        | inr other ↦ other
      ]

  -- What the tree holds when the leaf has been written: what the new leaf holds, and what was
  -- elsewhere.
  pub written-Holds :
      (h : ℕ) (f : Tree vs) (page : ℕ) (key k : Key vs) (r : Rid) (x : Node vs)
      → IsApart vs h f page
      → Holds vs h (written f (leaf_of vs h f page key) x) page k r
        ↔ (Stored vs x k r ⊎ Elsewhere h f page key k r)
  written-Holds h f page key k r x a =
      let l = leaf_of vs h f page key in
      let keep = keep-Elsewhere h f page key k r x a in
      let cases = Holds-cases h (written f l x) page key k r in
      let same : (written f l x).content (leaf_of vs h (written f l x) page key) ≡ x =
        ap (written f l x).content keep.0 ∙ rw (==_refl l) refl in
      (
        λ s. elim (cases.0 s) [
          | inl here ↦ inl (subst (λ n. Stored vs n k r) same here)
          | inr far ↦ inr (keep.1.0 far)
        ],
        λ c. cases.1 (elim c [
          | inl here ↦ inl (subst (λ n. Stored vs n k r) (sym same) here)
          | inr far ↦ inr (keep.1.1 far)
        ]),
      )
