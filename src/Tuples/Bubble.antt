-- ===== src/Tuples/Bubble.antt =====
-- `order_by` of tuple.cpp: the bubble sort gives the tuples in order, and keeps them all.
use oceanbase.Base.{
  ℕ, zero, suc, ◌≡◌, ◌⊎◌, inl, inr, refl, Bool, false, Option, none, some, List, [], ◌∷◌, length,
  Bool-cases,
}
use mathlib.Core.List.{Permᴰ}
use mathlib.Core.List.Permᴰ
use oceanbase.Rc.{Rc, success, invalid_argument}
use oceanbase.Tuples.{Values, Field, Tuple, tuple_cmp, bubble, bubble_sort, order_columns, order_by}
use oceanbase.Tuples.Columns.{
  IsMissing, ArePlaces, Columns, order_columns-Columns, InOrder, tuple_cmp-InOrder,
}
use oceanbase.Tuples.Compare.{tuple_cmp_asym, tuple_cmp_trans}

module _ (vs : Values) where
  -- A tuple is in the right order with every tuple of a list from position `m` on.
  abbrev BeforeFrom : List (ℕ × Bool) → Tuple vs → ℕ → List (Tuple vs) → Type 0
  BeforeFrom columns t m [] = Unit {0}
  BeforeFrom columns t zero (x ∷ xs) =
      (tuple_cmp vs columns t x ≡ false) × BeforeFrom columns t zero xs
  BeforeFrom columns t (suc m) (x ∷ xs) = BeforeFrom columns t m xs

  -- No two tuples of the list are in the wrong order.
  abbrev pub IsSorted : List (ℕ × Bool) → List (Tuple vs) → Type 0
  IsSorted columns [] = Unit {0}
  IsSorted columns (x ∷ xs) = BeforeFrom columns x zero xs × IsSorted columns xs

  -- The list is sorted from position `m` on, and all that stands before comes before that part.
  abbrev Settled : List (ℕ × Bool) → ℕ → List (Tuple vs) → Type 0
  Settled columns zero xs = IsSorted columns xs
  Settled columns (suc m) [] = Unit {0}
  Settled columns (suc m) (x ∷ xs) = BeforeFrom columns x m xs × Settled columns m xs

  BeforeFrom-length :
      (columns : List (ℕ × Bool)) (t : Tuple vs) (xs : List (Tuple vs))
      → BeforeFrom columns t (length xs) xs
  BeforeFrom-length columns t [] = tt
  BeforeFrom-length columns t (x ∷ xs) = BeforeFrom-length columns t xs

  Settled-length :
      (columns : List (ℕ × Bool)) (xs : List (Tuple vs)) → Settled columns (length xs) xs
  Settled-length columns [] = tt
  Settled-length columns (x ∷ xs) = (BeforeFrom-length columns x xs, Settled-length columns xs)

  BeforeFrom-bubble :
      (columns : List (ℕ × Bool)) (k : ℕ) (z w : Tuple vs) (xs : List (Tuple vs))
      → tuple_cmp vs columns z w ≡ false
      → BeforeFrom columns z k xs
      → BeforeFrom columns z k (bubble vs columns k (w ∷ xs))
  unfolding bubble
  BeforeFrom-bubble columns zero z w xs h b = (h, b)
  BeforeFrom-bubble columns (suc k) z w [] h b = tt
  BeforeFrom-bubble columns (suc k) z w (y ∷ ys) h b =
      elim (Bool-cases (tuple_cmp vs columns w y)) [
        | inl wrong ↦ rw wrong (BeforeFrom-bubble columns k z w ys h b)
        | inr right ↦
            rw right
              (BeforeFrom-bubble columns k z y ys (tuple_cmp_trans vs columns z w y h right) b)
      ]

  Settled-nil : (columns : List (ℕ × Bool)) (k : ℕ) → Settled columns k []
  Settled-nil columns zero = tt
  Settled-nil columns (suc k) = tt

  Settled-bubble :
      (columns : List (ℕ × Bool)) (k : ℕ) (xs : List (Tuple vs))
      → Settled columns (suc k) xs
      → Settled columns k (bubble vs columns k xs)
  unfolding bubble
  Settled-bubble columns zero [] s = tt
  Settled-bubble columns zero (x ∷ xs) s = s
  Settled-bubble columns (suc k) [] s = tt
  Settled-bubble columns (suc k) (x ∷ []) s = (tt, Settled-nil columns k)
  Settled-bubble columns (suc k) (x ∷ y ∷ xs) s = elim (Bool-cases (tuple_cmp vs columns x y)) [
    | inl wrong ↦ rw wrong (
      BeforeFrom-bubble columns k y x xs (tuple_cmp_asym vs columns x y wrong) s.1.0,
      Settled-bubble columns k (x ∷ xs) (s.0, s.1.1),
    )
    | inr right ↦
        rw right
          (BeforeFrom-bubble columns k x y xs right s.0, Settled-bubble columns k (y ∷ xs) s.1)
  ]

  bubble_sort-IsSorted :
      (columns : List (ℕ × Bool)) (n : ℕ) (xs : List (Tuple vs))
      → Settled columns n xs
      → IsSorted columns (bubble_sort vs columns n xs)
  unfolding bubble_sort
  bubble_sort-IsSorted columns zero xs s = s
  bubble_sort-IsSorted columns (suc n) xs s =
      bubble_sort-IsSorted columns n (bubble vs columns n xs) (Settled-bubble columns n xs s)

  bubble-Perm :
      (columns : List (ℕ × Bool)) (k : ℕ) (xs : List (Tuple vs)) → Permᴰ xs (bubble vs columns k xs)
  unfolding bubble
  bubble-Perm columns zero xs = Permᴰ.refl xs
  bubble-Perm columns (suc k) [] = Permᴰ.refl []
  bubble-Perm columns (suc k) (x ∷ []) = Permᴰ.refl (x ∷ [])
  bubble-Perm columns (suc k) (x ∷ y ∷ xs) = elim (Bool-cases (tuple_cmp vs columns x y)) [
    | inl wrong ↦
        rw wrong
          (Permᴰ.trans (Permᴰ.swap refl refl) (Permᴰ.cons refl (bubble-Perm columns k (x ∷ xs))))
    | inr right ↦ rw right (Permᴰ.cons refl (bubble-Perm columns k (y ∷ xs)))
  ]

  bubble_sort-Perm :
      (columns : List (ℕ × Bool)) (n : ℕ) (xs : List (Tuple vs))
      → Permᴰ xs (bubble_sort vs columns n xs)
  unfolding bubble_sort
  bubble_sort-Perm columns zero xs = Permᴰ.refl xs
  bubble_sort-Perm columns (suc n) xs =
      Permᴰ.trans (bubble-Perm columns n xs) (bubble_sort-Perm columns n (bubble vs columns n xs))

  -- The tuple comes before each of a list, or at the same place as it.
  abbrev pub ComesFirst : List (ℕ × Bool) → Tuple vs → List (Tuple vs) → Type 0
  ComesFirst columns t [] = Unit {0}
  ComesFirst columns t (x ∷ xs) = InOrder vs columns t x × ComesFirst columns t xs

  abbrev pub AreInOrder : List (ℕ × Bool) → List (Tuple vs) → Type 0
  AreInOrder columns [] = Unit {0}
  AreInOrder columns (x ∷ xs) = ComesFirst columns x xs × AreInOrder columns xs

  BeforeFrom-ComesFirst :
      (columns : List (ℕ × Bool)) (t : Tuple vs) (xs : List (Tuple vs))
      → BeforeFrom columns t zero xs
      → ComesFirst columns t xs
  BeforeFrom-ComesFirst columns t [] h = tt
  BeforeFrom-ComesFirst columns t (x ∷ xs) (h, hs) =
      (tuple_cmp-InOrder vs columns t x h, BeforeFrom-ComesFirst columns t xs hs)

  IsSorted-AreInOrder :
      (columns : List (ℕ × Bool)) (xs : List (Tuple vs))
      → IsSorted columns xs
      → AreInOrder columns xs
  IsSorted-AreInOrder columns [] h = tt
  IsSorted-AreInOrder columns (x ∷ xs) (h, hs) =
      (BeforeFrom-ComesFirst columns x xs h, IsSorted-AreInOrder columns xs hs)

  -- What `order_by` gives: an error and the tuples as they were if an attribute is not in the schema,
  -- else all the tuples, in the order of the columns at which the attributes first stand.
  abbrev pub Ordered :
      List Field → List (Field × Bool) → List (Tuple vs) → Rc × List (Tuple vs) → Type 0
  Ordered fields attrs ts (rc, ts') =
      ((rc ≡ invalid_argument) × (ts' ≡ ts) × IsMissing fields attrs)
      ⊎ ((columns : List (ℕ × Bool)) × ArePlaces fields attrs columns
          × (rc ≡ success)
          × Permᴰ ts ts'
          × AreInOrder columns ts')

  -- For values that are compared by the laws of `Values`, and for all attributes and tuples, `order_by`
  -- succeeds with a permutation of the tuples in which the greater value comes first at the first
  -- column where two tuples differ if that column is descending, and the smaller one if it is not, by
  -- the columns at which the attributes first stand in the schema; or it gives INVALID_ARGUMENT and the
  -- tuples as they were, and an attribute is not in the schema.
  pub order_by-Ordered :
      (fields : List Field) (attrs : List (Field × Bool)) (ts : List (Tuple vs))
      → Ordered fields attrs ts (order_by vs fields attrs ts)
  unfolding order_by
  order_by-Ordered fields attrs ts =
      by_columns (order_columns fields attrs) (order_columns-Columns fields attrs)
    where
      by_columns :
          (r : Option (List (ℕ × Bool)))
          → Columns fields attrs r
          → Ordered fields attrs ts (elim r as (λ _. Rc × List (Tuple vs)) [
            | none ↦ (invalid_argument, ts)
            | some columns ↦ (success, bubble_sort vs columns (length ts) ts)
          ])
      by_columns none missing = inl (refl, refl, missing)
      by_columns (some columns) places = inr (
        columns,
        places,
        refl,
        bubble_sort-Perm columns (length ts) ts,
        IsSorted-AreInOrder columns (bubble_sort vs columns (length ts) ts)
            (bubble_sort-IsSorted columns (length ts) ts (Settled-length columns ts)),
      )
