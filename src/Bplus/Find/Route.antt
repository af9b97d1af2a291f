-- ===== src/Bplus/Find/Route.antt =====
-- Search trees of pages, and the pointer that `find_leaf` of bplus_tree.cpp follows in a node.
use oceanbase.Base.{
  ℕ, zero, suc, ◌≡◌, ◌≤◌, ◌<◌, ◌↔◌, inl, inr, subst, true, false, Option, none, some, ◌==◌, ltb,
  if◌then◌else◌, arith, Bool-cases, ==_refl, ==_iff, ne→==,
}
use oceanbase.RecordPage.{Rid}
use oceanbase.Tuples.{Values}
use oceanbase.Bplus.{is_negative, Key, Node, child, Tree, cmp_key}
use oceanbase.Bplus.Arrays.{position-IsPosition}
use oceanbase.Bplus.Order.{
  Before, Same, NotAfter, NotAfter-trans, NotAfter-Before, Before-trans_left, Same-NotAfter,
}
use oceanbase.Bplus.Entries.{IsSorted, Stored}
use oceanbase.Bplus.Find.{route}

module _ (vs : Values) where
  -- A key is not before the bound, and before the bound; `none` is no bound.
  abbrev pub AtLeast : Option (Key vs) → Key vs → Type 0
  AtLeast none k = Unit {0}
  AtLeast (some b) k = NotAfter vs b k

  abbrev pub Below : Option (Key vs) → Key vs → Type 0
  Below none k = Unit {0}
  Below (some b) k = Before vs k b

  -- The bounds of the subtree behind the pointer `i`.
  abbrev pub lower : Node vs → ℕ → Option (Key vs) → Option (Key vs)
  lower node zero lo = lo
  lower node (suc i) lo = some (node.keys i)

  abbrev pub upper : Node vs → ℕ → Option (Key vs) → Option (Key vs)
  upper node i hi = if i == node.key_num then hi else some (node.keys i)

  -- A node whose keys rise within bounds.
  abbrev IsWithin : Node vs → Option (Key vs) → Option (Key vs) → Type 0
  IsWithin node lo hi =
      IsSorted vs node
      × ((i : ℕ) → i < node.key_num → AtLeast lo (node.keys i) × Below hi (node.keys i))

  -- The pages below `page` are a search tree of a height, with keys within bounds.
  abbrev pub IsTree : ℕ → Tree vs → ℕ → Option (Key vs) → Option (Key vs) → Type 0
  IsTree zero f page lo hi =
      (f.in_use page ≡ true) × ((f.content page).is_leaf ≡ true) × IsWithin (f.content page) lo hi
  IsTree (suc h) f page lo hi =
      (f.in_use page ≡ true)
      × ((f.content page).is_leaf ≡ false)
      × IsWithin (f.content page) lo hi
      × ((i : ℕ)
          → i ≤ (f.content page).key_num
          → IsTree h f (child vs (f.content page) i) (lower (f.content page) i lo)
              (upper (f.content page) i hi))

  -- A leaf of the tree holds a record under a key.
  abbrev pub Holds : ℕ → Tree vs → ℕ → Key vs → Rid → Type 0
  Holds zero f page k r = Stored vs (f.content page) k r
  Holds (suc h) f page k r =
      (i : ℕ) × (i ≤ (f.content page).key_num) × Holds h f (child vs (f.content page) i) k r

  AtLeast-trans :
      (lo : Option (Key vs)) (a b : Key vs) → AtLeast lo a → NotAfter vs a b → AtLeast lo b
  AtLeast-trans none a b h k = tt
  AtLeast-trans (some l) a b h k = NotAfter-trans vs l a b h k

  Below-trans : (hi : Option (Key vs)) (a b : Key vs) → NotAfter vs a b → Below hi b → Below hi a
  Below-trans none a b h k = tt
  Below-trans (some u) a b h k = Before-trans_left vs a b u h k

  AtLeast-lower :
      (node : Node vs) (i : ℕ) (lo hi : Option (Key vs)) (k : Key vs)
      → IsWithin node lo hi
      → i ≤ node.key_num
      → AtLeast (lower node i lo) k
      → AtLeast lo k
  AtLeast-lower node zero lo hi k w h a = a
  AtLeast-lower node (suc i) lo hi k w h a =
      AtLeast-trans lo (node.keys i) k (w.1 i (omega arith)).0 a

  Below-upper :
      (node : Node vs) (i : ℕ) (lo hi : Option (Key vs)) (k : Key vs)
      → IsWithin node lo hi
      → i ≤ node.key_num
      → Below (upper node i hi) k
      → Below hi k
  Below-upper node i lo hi k w h b = elim (Bool-cases (i == node.key_num)) [
    | inl last ↦ rw last at b
    | inr inner ↦
        let b' : Before vs k (node.keys i) = rw inner at b in
        Below-trans hi k (node.keys i) (NotAfter-Before vs k (node.keys i) b')
          (w.1 i (ground arith)).1
  ]

  -- What a subtree holds is within its bounds.
  Holds-bounds :
      (h : ℕ) (f : Tree vs) (page : ℕ) (lo hi : Option (Key vs)) (k : Key vs) (r : Rid)
      → IsTree h f page lo hi
      → Holds h f page k r
      → AtLeast lo k × Below hi k
  Holds-bounds zero f page lo hi k r t (i, lt, e, e') =
      subst (λ x. AtLeast lo x × Below hi x) e (t.2.1 i lt)
  Holds-bounds (suc h) f page lo hi k r t (i, le, held) =
      let node = f.content page in
      let b =
        Holds-bounds h f (child vs node i) (lower node i lo) (upper node i hi) k r (t.3 i le)
          held in
      (AtLeast-lower node i lo hi k t.2 le b.0, Below-upper node i lo hi k t.2 le b.1)

  Below-upper_last :
      (node : Node vs) (i : ℕ) (hi : Option (Key vs)) (k : Key vs)
      → i ≡ node.key_num
      → Below hi k
      → Below (upper node i hi) k
  Below-upper_last node i hi k e b = rw (e, ==_refl node.key_num) b

  Below-upper_inner :
      (node : Node vs) (i : ℕ) (hi : Option (Key vs)) (k : Key vs)
      → i < node.key_num
      → Below (upper node i hi) k ↔ Before vs k (node.keys i)
  Below-upper_inner node i hi k lt =
      let inner = ne→== i node.key_num (λ e. omega arith) in (λ b. rw inner at b, λ b. rw inner b)

  AtLeast-lower_before :
      (node : Node vs) (lo : Option (Key vs)) (key : Key vs) (r : ℕ)
      → ((j : ℕ) → j < r → NotAfter vs (node.keys j) key)
      → AtLeast lo key
      → AtLeast (lower node r lo) key
  AtLeast-lower_before node lo key zero h a = a
  AtLeast-lower_before node lo key (suc r) h a = h r (omega arith)

  -- The pointer that a search follows leads to the subtree with the key in its bounds.
  pub route_bounds :
      (node : Node vs) (lo hi : Option (Key vs)) (key : Key vs)
      → AtLeast lo key
      → Below hi key
      → (route vs key node ≤ node.key_num)
        × AtLeast (lower node (route vs key node) lo) key
        × Below (upper node (route vs key node) hi) key
  route_bounds node lo hi key a b =
      let p = position-IsPosition (λ i. is_negative (cmp_key vs key (node.keys i))) node.key_num in
      (
        p.0,
        AtLeast-lower_before node lo key (route vs key node) p.1 a,
        elim p.2 [
          | inl e ↦ Below-upper_last node (route vs key node) hi key e b
          | inr h ↦ (Below-upper_inner node (route vs key node) hi key h.0).1 h.1
        ],
      )

  -- A key that is not before an entry is not below one it is before.
  above :
      (node : Node vs) (key : Key vs) (r i : ℕ)
      → IsSorted vs node
      → r < suc i
      → i < node.key_num
      → Before vs key (node.keys r)
      → Before vs key (node.keys i)
  above node key r i s lt le b = elim (Bool-cases (r == i)) [
    | inl e ↦ subst (λ x. Before vs key (node.keys x)) ((==_iff r i).0 e) b
    | inr ne ↦
        Before-trans_left vs key (node.keys r) (node.keys i)
          (NotAfter-Before vs key (node.keys r) b) (s r i (ground arith) le)
  ]

  no_later :
      (node : Node vs) (lo : Option (Key vs)) (key : Key vs) (r i : ℕ)
      → IsSorted vs node
      → i ≤ node.key_num
      → Before vs key (node.keys r)
      → AtLeast (lower node i lo) key
      → i ≤ r
  no_later node lo key r zero s le b a = omega arith
  no_later node lo key r (suc i) s le b a = elim (Bool-cases (ltb r (suc i))) [
    | inl lt ↦ ground (arith, above node key r i s (ground arith) le b, a)
    | inr ge ↦ ground arith
  ]

  route_unique :
      (node : Node vs) (lo hi : Option (Key vs)) (key : Key vs) (i : ℕ)
      → IsSorted vs node
      → i ≤ node.key_num
      → AtLeast (lower node i lo) key
      → Below (upper node i hi) key
      → i ≡ route vs key node
  route_unique node lo hi key i s le a b =
      let p = position-IsPosition (λ i. is_negative (cmp_key vs key (node.keys i))) node.key_num in
      let no_sooner : route vs key node ≤ i = elim (Bool-cases (ltb i (route vs key node))) [
        | inl lt ↦
            let n : i < node.key_num = ground arith in
            ground (arith, p.1 i (ground arith), (Below-upper_inner node i hi key n).0 b)
        | inr ge ↦ ground arith
      ] in
      let no_later' : i ≤ route vs key node = elim p.2 [
        | inl e ↦ omega arith
        | inr h ↦ no_later node lo key (route vs key node) i s le h.1 a
      ] in
      omega arith

  AtLeast-Same : (lo : Option (Key vs)) (a b : Key vs) → Same vs a b → AtLeast lo b → AtLeast lo a
  AtLeast-Same lo a b e h = AtLeast-trans lo b a h (Same-NotAfter vs a b e).1

  Below-Same : (hi : Option (Key vs)) (a b : Key vs) → Same vs a b → Below hi b → Below hi a
  Below-Same hi a b e h = Below-trans hi a b (Same-NotAfter vs a b e).0 h

  -- A record under the key is behind the pointer that a search for the key follows.
  pub Same-route :
      (h : ℕ) (f : Tree vs) (page : ℕ) (lo hi : Option (Key vs)) (key k : Key vs) (rid : Rid)
      (i : ℕ)
      → IsTree (suc h) f page lo hi
      → Same vs key k
      → i ≤ (f.content page).key_num
      → Holds h f (child vs (f.content page) i) k rid
      → i ≡ route vs key (f.content page)
  Same-route h f page lo hi key k rid i t same le held =
      let node = f.content page in
      let b =
        Holds-bounds h f (child vs node i) (lower node i lo) (upper node i hi) k rid (t.3 i le)
          held in
      route_unique node lo hi key i t.2.0 le (AtLeast-Same (lower node i lo) key k same b.0)
        (Below-Same (upper node i hi) key k same b.1)
