-- ===== src/Groups/Ids.antt =====
-- The groups of group_by: which tuples get the same number, and which numbers there are.
use mathlib.Core.List.{append-nil, append_assoc, map-append}
use oceanbase.Base.{
  ℕ, zero, suc, ◌+◌, ◌<◌, ◌≡◌, ◌↔◌, ◌⊎◌, inl, inr, refl, sym, ap, subst, ◌∙◌, true, false, Option,
  none, some, List, [], ◌∷◌, ◌++◌, map, get_elem?, arith, Bool-cases, ◌==◌, ==_iff,
}
use oceanbase.Base.Int.{ℤ, pos, ◌≤ℤ◌}
use oceanbase.Tuples.{Values, Tuple, tuple_compare, is_zero}
use oceanbase.Groups.{find_group, make_groups}

is_zero-order : (c : ℤ) → (is_zero c ≡ true) ↔ ((c ≤ℤ pos 0) × (pos 0 ≤ℤ c))
is_zero-order c = ground arith

module _ {ℓ} {A : Type ℓ} where
  some-injective : {a b : A} → some a ≡ some b → a ≡ b
  some-injective e = cc

  -- An element of a list with one more at its end is an old one or the new one.
  pub get_elem?-append_last :
      (xs : List A) (x y : A) (i : ℕ)
      → get_elem? (xs ++ (x ∷ [])) i ≡ some y
      → (get_elem? xs i ≡ some y) ⊎ (x ≡ y)
  get_elem?-append_last [] x y zero e = inr (cc)
  get_elem?-append_last [] x y (suc i) e = cc
  get_elem?-append_last (z ∷ xs) x y zero e = inl e
  get_elem?-append_last (z ∷ xs) x y (suc i) e = get_elem?-append_last xs x y i e

  pub get_elem?-append_old :
      (xs : List A) (x y : A) (i : ℕ)
      → get_elem? xs i ≡ some y
      → get_elem? (xs ++ (x ∷ [])) i ≡ some y
  get_elem?-append_old [] x y i e = cc
  get_elem?-append_old (z ∷ xs) x y zero e = e
  get_elem?-append_old (z ∷ xs) x y (suc i) e = get_elem?-append_old xs x y i e

  pub append_last_at : (xs : List A) (x : A) → (i : ℕ) × (get_elem? (xs ++ (x ∷ [])) i ≡ some x)
  append_last_at [] x = (0, refl)
  append_last_at (z ∷ xs) x = let (i, e) = append_last_at xs x in (suc i, e)

module _ (vs : Values) where
  open vs use {compare, compare_le, compare_ge, compare_trans}

  -- The tuples are equal at the columns.
  abbrev pub Same : List ℕ → Tuple vs → Tuple vs → Type 0
  Same columns t u = tuple_compare vs columns t u ≡ true

  pub Same-cons :
      (column : ℕ) (columns : List ℕ) (t u : Tuple vs)
      → Same (column ∷ columns) t u ↔ (
          (compare (t column) (u column) ≤ℤ pos 0)
          × (pos 0 ≤ℤ compare (t column) (u column))
          × Same columns t u)
  unfolding tuple_compare
  Same-cons column columns t u = ground (arith, is_zero-order (compare (t column) (u column)))

  pub Same-refl : (columns : List ℕ) (t : Tuple vs) → Same columns t t
  unfolding tuple_compare
  Same-refl [] t = refl
  Same-refl (column ∷ columns) t =
      let a = t column in
      let up = compare_le a a in let down = compare_ge a a in ground (arith, Same-refl columns t)

  pub Same-sym : (columns : List ℕ) (t u : Tuple vs) → Same columns t u → Same columns u t
  unfolding tuple_compare
  Same-sym [] t u h = refl
  Same-sym (column ∷ columns) t u h =
      let parts = (Same-cons column columns t u).0 h in
      (Same-cons column columns u t).1 (
        compare_ge (t column) (u column) parts.1,
        compare_le (t column) (u column) parts.0,
        Same-sym columns t u parts.2,
      )

  pub Same-trans :
      (columns : List ℕ) (t u v : Tuple vs) → Same columns t u → Same columns u v → Same columns t v
  unfolding tuple_compare
  Same-trans [] t u v h k = refl
  Same-trans (column ∷ columns) t u v h k =
      let first = (Same-cons column columns t u).0 h in
      let second = (Same-cons column columns u v).0 k in
      let a = t column in
      let b = u column in
      let c = v column in
      (Same-cons column columns t v).1 (
        compare_trans a b c first.0 second.0,
        compare_le c a (compare_trans c b a (compare_ge b c second.1) (compare_ge a b first.1)),
        Same-trans columns t u v first.2 second.2,
      )

  -- Two of the tuples have the same number exactly if they are equal at the columns, and the numbers
  -- are those below `n`.
  pub record IsGrouping (columns : List ℕ) (l : List (Tuple vs × ℕ)) (n : ℕ) : Type 0 where
    pub same :
        (i j : ℕ) (t u : Tuple vs) (a b : ℕ)
        → get_elem? l i ≡ some (t, a)
        → get_elem? l j ≡ some (u, b)
        → (a ≡ b) ↔ Same columns t u
    pub below : (i : ℕ) (t : Tuple vs) (a : ℕ) → get_elem? l i ≡ some (t, a) → a < n
    pub occurs : (a : ℕ) → a < n → (i : ℕ) × (t : Tuple vs) × (get_elem? l i ≡ some (t, a))

  -- What the search of an earlier tuple of the same group finds.
  abbrev Finds : List ℕ → Tuple vs → List (Tuple vs × ℕ) → Option ℕ → Type 0
  Finds columns t l none =
      (i : ℕ) (u : Tuple vs) (a : ℕ)
      → get_elem? l i ≡ some (u, a)
      → tuple_compare vs columns t u ≡ false
  Finds columns t l (some a) =
      (i : ℕ) × (u : Tuple vs) × (get_elem? l i ≡ some (u, a)) × Same columns t u

  Finds-later :
      (columns : List ℕ) (t u : Tuple vs) (a : ℕ) (l : List (Tuple vs × ℕ)) (r : Option ℕ)
      → tuple_compare vs columns t u ≡ false
      → Finds columns t l r
      → Finds columns t ((u, a) ∷ l) r
  Finds-later columns t u a l none e h = λ i v b at. later i v b at
    where
      later :
          (i : ℕ) (v : Tuple vs) (b : ℕ)
          → get_elem? ((u, a) ∷ l) i ≡ some (v, b)
          → tuple_compare vs columns t v ≡ false
      later zero v b at =
          subst (λ w. tuple_compare vs columns t w ≡ false) (ap (λ p. p.0) (some-injective at)) e
      later (suc k) v b at = h k v b at
  Finds-later columns t u a l (some b) e (i, v, at, same) = (suc i, v, at, same)

  find_group-Finds :
      (columns : List ℕ) (t : Tuple vs) (l : List (Tuple vs × ℕ))
      → Finds columns t l (find_group vs columns t l)
  unfolding find_group
  find_group-Finds columns t [] = λ i u a e. cc
  find_group-Finds columns t ((u, a) ∷ l) = elim (Bool-cases (tuple_compare vs columns t u)) [
    | inl same ↦ rw same (0, u, refl, same)
    | inr other ↦ rw other (Finds-later columns t u a l _ other (find_group-Finds columns t l))
  ]

  -- The number of the next tuple, and the number of groups after it.
  abbrev next_id : Option ℕ → ℕ → ℕ
  next_id group n = elim group [ none ↦ n | some id ↦ id ]

  abbrev next_count : Option ℕ → ℕ → ℕ
  next_count group n = elim group [ none ↦ n + 1 | some id ↦ n ]

  module _ (columns : List ℕ) (l : List (Tuple vs × ℕ)) (n : ℕ) (g : IsGrouping columns l n) where
    -- How the new tuple stands to an old one.
    new_to_old :
        (t : Tuple vs) (r : Option ℕ)
        → Finds columns t l r
        → (j : ℕ) (u : Tuple vs) (b : ℕ) → get_elem? l j ≡ some (u, b)
        → (next_id r n ≡ b) ↔ Same columns t u
    new_to_old t none h j u b at =
        let miss = h j u b at in
        let small = g.below j u b at in (λ e. absurd (omega arith), λ s. cc)
    new_to_old t (some a) (i, v, at_v, s) j u b at =
        let iff = g.same i j v u a b at_v at in
        (
          λ e. Same-trans columns t v u s (iff.0 e),
          λ k. iff.1 (Same-trans columns v t u (Same-sym columns t v s) k),
        )

    next_id-below :
        (t : Tuple vs) (r : Option ℕ) → Finds columns t l r → next_id r n < next_count r n
    next_id-below t none h = omega arith
    next_id-below t (some a) (i, v, at, s) = g.below i v a at

    old_below : (r : Option ℕ) (a : ℕ) → a < n → a < next_count r n
    old_below none a h = omega arith
    old_below (some b) a h = h

    occurs_still :
        (t : Tuple vs) (r : Option ℕ) (a : ℕ)
        → a < next_count r n
        → (i : ℕ) × (u : Tuple vs) × (get_elem? (l ++ ((t, next_id r n) ∷ [])) i ≡ some (u, a))
    occurs_still t none a h = elim (Bool-cases (a == n)) [
      | inl last ↦ let (i, at) = append_last_at l (t, n) in (i, t, at ∙ rw ((==_iff a n).0 last))
      | inr other ↦
          let (i, u, at) = g.occurs a (ground arith) in (i, u, get_elem?-append_old l _ _ i at)
    ]
    occurs_still t (some b) a h =
        let (i, u, at) = g.occurs a h in (i, u, get_elem?-append_old l _ _ i at)

    next-IsGrouping :
        (t : Tuple vs) (r : Option ℕ)
        → Finds columns t l r
        → IsGrouping columns (l ++ ((t, next_id r n) ∷ [])) (next_count r n)
    next-IsGrouping t r h = record {
      same = λ i j u v a b at_u at_v.
          elim (get_elem?-append_last l (t, next_id r n) (u, a) i at_u) [
            | inl old_u ↦ elim (get_elem?-append_last l (t, next_id r n) (v, b) j at_v) [
              | inl old_v ↦ g.same i j u v a b old_u old_v
              | inr new_v ↦
                  let iff = new_to_old t r h i u a old_u in
                  subst (λ p. (a ≡ p.1) ↔ Same columns u p.0) new_v
                    (
                      λ e. Same-sym columns t u (iff.0 (sym e)),
                      λ s. sym (iff.1 (Same-sym columns u t s)),
                    )
            ]
            | inr new_u ↦ elim (get_elem?-append_last l (t, next_id r n) (v, b) j at_v) [
              | inl old_v ↦
                  subst (λ p. (p.1 ≡ b) ↔ Same columns p.0 v) new_u (new_to_old t r h j v b old_v)
              | inr new_v ↦
                  subst (λ p. (p.1 ≡ b) ↔ Same columns p.0 v) new_u
                    (subst (λ p. (next_id r n ≡ p.1) ↔ Same columns t p.0) new_v
                      (λ e. Same-refl columns t, λ s. refl))
            ]
          ];
      below = λ i u a at. elim (get_elem?-append_last l (t, next_id r n) (u, a) i at) [
        | inl old ↦ old_below r a (g.below i u a old)
        | inr new ↦ subst (λ p. p.1 < next_count r n) new (next_id-below t r h)
      ];
      occurs = occurs_still t r;
    }

  pub make_groups-IsGrouping :
      (columns : List ℕ) (l : List (Tuple vs × ℕ)) (n : ℕ) (ts : List (Tuple vs))
      → IsGrouping columns l n
      → let groups = make_groups vs columns l n ts in
        IsGrouping columns groups.0 groups.1 × (map (λ p. p.0) groups.0 ≡ map (λ p. p.0) l ++ ts)
  unfolding make_groups
  make_groups-IsGrouping columns l n [] g = (g, sym (append-nil _))
  make_groups-IsGrouping columns l n (t ∷ ts) g =
      let r = find_group vs columns t l in
      let (whole, kept) =
        make_groups-IsGrouping columns (l ++ ((t, next_id r n) ∷ [])) (next_count r n) ts
          (next-IsGrouping columns l n g t r (find_group-Finds columns t l)) in
      (whole, kept ∙ rw (map-append, append_assoc))

  -- group_by numbers the tuples, in their order, so that two get the same number exactly if they
  -- compare as equal at the columns to group by; the numbers are those below the count of groups.
  pub make_groups_lem :
      (columns : List ℕ) (ts : List (Tuple vs))
      → let groups = make_groups vs columns [] 0 ts in
        IsGrouping columns groups.0 groups.1 × (map (λ p. p.0) groups.0 ≡ ts)
  make_groups_lem columns ts = make_groups-IsGrouping columns [] 0 ts (record {
    same = λ i j t u a b e. cc;
    below = λ i t a e. cc;
    occurs = λ a h. absurd (omega arith);
  })
