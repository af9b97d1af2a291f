-- ===== src/Tuples/Compare.antt =====
-- `tuple_cmp` of tuple.cpp: the order of tuples by columns, each in its own direction.
use oceanbase.Base.{
  ℕ, ◌+◌, ◌^◌, ◌<◌, ◌≤◌, ◌≡◌, ◌↔◌, refl, Bool, true, false, not, List, [], ◌∷◌, if◌then◌else◌,
  arith,
}
use oceanbase.Base.Int.{ℤ, pos, negsuc, pos_part, neg_part, ◌-ℤ◌, ◌≤ℤ◌, -ℤ_parts}
use oceanbase.Tuples.{
  Values, wrap32, int_compare, is_zero, is_positive, bool_eq, Tuple, tuple_cmp, tuple_compare,
}

-- A signed integer of 31 bits.
abbrev pub IsSmall : ℤ → Type 0
IsSmall a = (pos_part a < 2 ^ 30) × (neg_part a ≤ 2 ^ 30)

-- Of integers of 31 bits the difference does not leave the 32 bits.
pub int_compare-small : (a b : ℤ) → IsSmall a → IsSmall b → int_compare a b ≡ a -ℤ b
unfolding int_compare wrap32 ◌-ℤ◌
int_compare-small a b p q = ground arith

-- Two ints of 31 bits are compared by their order.
pub int_compare-order :
    (a b : ℤ)
    → IsSmall a
    → IsSmall b
    → ((int_compare a b ≤ℤ pos 0) ↔ (a ≤ℤ b)) × ((pos 0 ≤ℤ int_compare a b) ↔ (b ≤ℤ a))
int_compare-order a b p q =
    let e = int_compare-small a b p q in
    let d = -ℤ_parts a b in rw e ((omega arith, omega arith), (omega arith, omega arith))

-- A natural number and a negative one whose difference does not fit into 32 bits are compared the
-- wrong way round: the greater one comes out as less.
pub int_compare-wraps :
    (m n : ℕ)
    → m < 2 ^ 31
    → n < 2 ^ 31
    → 2 ^ 31 ≤ m + n + 1
    → (negsuc n ≤ℤ pos m) × (int_compare (pos m) (negsuc n) ≤ℤ negsuc 0)
unfolding int_compare wrap32 ◌-ℤ◌
int_compare-wraps m n p q h = (omega arith, ground arith)

-- One column of `tuple_cmp`: the outcome of the comparison there, the direction, and the later columns.
abbrev column_cmp : Bool → ℤ → Bool → Bool
column_cmp cmp c later = if is_zero c then later else not (bool_eq (is_positive c) cmp)

-- The signs of the two comparisons of a pair are opposite.
abbrev pub AreOpposite : ℤ → ℤ → Type 0
AreOpposite x y =
    (x ≤ℤ pos 0 → pos 0 ≤ℤ y)
    × (pos 0 ≤ℤ x → y ≤ℤ pos 0)
    × (y ≤ℤ pos 0 → pos 0 ≤ℤ x)
    × (pos 0 ≤ℤ y → x ≤ℤ pos 0)

column_asym :
    (cmp : Bool) (x y : ℤ) (later later' : Bool)
    → AreOpposite x y
    → (later ≡ true → later' ≡ false)
    → column_cmp cmp x later ≡ true
    → column_cmp cmp y later' ≡ false
column_asym true x y later later' o ih h = ground (arith, o.0, o.1, o.2, o.3, ih)
column_asym false x y later later' o ih h = ground (arith, o.0, o.1, o.2, o.3, ih)

column_trans :
    (cmp : Bool) (ab ba bc cb ac ca : ℤ) (l m n : Bool)
    → AreOpposite ab ba
    → AreOpposite bc cb
    → AreOpposite ac ca
    → (ab ≤ℤ pos 0 → bc ≤ℤ pos 0 → ac ≤ℤ pos 0)
    → (cb ≤ℤ pos 0 → ba ≤ℤ pos 0 → ca ≤ℤ pos 0)
    → (ca ≤ℤ pos 0 → ab ≤ℤ pos 0 → cb ≤ℤ pos 0)
    → (bc ≤ℤ pos 0 → ca ≤ℤ pos 0 → ba ≤ℤ pos 0)
    → (ba ≤ℤ pos 0 → ac ≤ℤ pos 0 → bc ≤ℤ pos 0)
    → (ac ≤ℤ pos 0 → cb ≤ℤ pos 0 → ab ≤ℤ pos 0)
    → (l ≡ false → m ≡ false → n ≡ false)
    → column_cmp cmp ab l ≡ false
    → column_cmp cmp bc m ≡ false
    → column_cmp cmp ac n ≡ false
column_trans true ab ba bc cb ac ca true true n o p q t u v w x y ih h k =
    ground (arith, o.0, o.1, o.2, o.3, p.0, p.1, p.2, p.3, q.0, q.1, q.2, q.3, t, u, v, w, x, y)
column_trans true ab ba bc cb ac ca true false n o p q t u v w x y ih h k =
    ground (arith, o.0, o.1, o.2, o.3, p.0, p.1, p.2, p.3, q.0, q.1, q.2, q.3, t, u, v, w, x, y)
column_trans true ab ba bc cb ac ca false true n o p q t u v w x y ih h k =
    ground (arith, o.0, o.1, o.2, o.3, p.0, p.1, p.2, p.3, q.0, q.1, q.2, q.3, t, u, v, w, x, y)
column_trans true ab ba bc cb ac ca false false n o p q t u v w x y ih h k = ground (
  arith,
  o.0,
  o.1,
  o.2,
  o.3,
  p.0,
  p.1,
  p.2,
  p.3,
  q.0,
  q.1,
  q.2,
  q.3,
  t,
  u,
  v,
  w,
  x,
  y,
  ih refl refl,
)
column_trans false ab ba bc cb ac ca true true n o p q t u v w x y ih h k =
    ground (arith, o.0, o.1, o.2, o.3, p.0, p.1, p.2, p.3, q.0, q.1, q.2, q.3, t, u, v, w, x, y)
column_trans false ab ba bc cb ac ca true false n o p q t u v w x y ih h k =
    ground (arith, o.0, o.1, o.2, o.3, p.0, p.1, p.2, p.3, q.0, q.1, q.2, q.3, t, u, v, w, x, y)
column_trans false ab ba bc cb ac ca false true n o p q t u v w x y ih h k =
    ground (arith, o.0, o.1, o.2, o.3, p.0, p.1, p.2, p.3, q.0, q.1, q.2, q.3, t, u, v, w, x, y)
column_trans false ab ba bc cb ac ca false false n o p q t u v w x y ih h k = ground (
  arith,
  o.0,
  o.1,
  o.2,
  o.3,
  p.0,
  p.1,
  p.2,
  p.3,
  q.0,
  q.1,
  q.2,
  q.3,
  t,
  u,
  v,
  w,
  x,
  y,
  ih refl refl,
)

column_same :
    (cmp : Bool) (x y : ℤ) (same later later' : Bool)
    → AreOpposite x y
    → ((same ≡ true) ↔ ((later ≡ false) × (later' ≡ false)))
    → ((if is_zero x then same else false) ≡ true)
      ↔ ((column_cmp cmp x later ≡ false) × (column_cmp cmp y later' ≡ false))
column_same true x y same later later' o ih =
    (ground (arith, o.0, o.1, o.2, o.3, ih.0), ground (arith, o.0, o.1, o.2, o.3, ih.1))
column_same false x y same later later' o ih =
    (ground (arith, o.0, o.1, o.2, o.3, ih.0), ground (arith, o.0, o.1, o.2, o.3, ih.1))

-- The columns without their directions.
abbrev pub indices : List (ℕ × Bool) → List ℕ
indices [] = []
indices ((index, cmp) ∷ columns) = index ∷ indices columns

module _ (vs : Values) where
  open vs use {compare, compare_le, compare_ge, compare_trans}

  opposite : (a b : vs.Value) → AreOpposite (compare a b) (compare b a)
  opposite a b = (compare_le a b, compare_ge a b, compare_le b a, compare_ge b a)

  -- Two tuples are in the wrong order in one direction only.
  pub tuple_cmp_asym :
      (columns : List (ℕ × Bool)) (a b : Tuple vs)
      → tuple_cmp vs columns a b ≡ true
      → tuple_cmp vs columns b a ≡ false
  unfolding tuple_cmp
  tuple_cmp_asym [] a b h = refl
  tuple_cmp_asym ((index, cmp) ∷ columns) a b h =
      column_asym cmp _ _ _ _ (opposite (a index) (b index)) (tuple_cmp_asym columns a b) h

  -- Not being in the wrong order is transitive.
  pub tuple_cmp_trans :
      (columns : List (ℕ × Bool)) (a b c : Tuple vs)
      → tuple_cmp vs columns a b ≡ false
      → tuple_cmp vs columns b c ≡ false
      → tuple_cmp vs columns a c ≡ false
  unfolding tuple_cmp
  tuple_cmp_trans [] a b c h k = refl
  tuple_cmp_trans ((index, cmp) ∷ columns) a b c h k =
      column_trans cmp _ _ _ _ _ _ _ _ _ (opposite (a index) (b index))
        (opposite (b index) (c index)) (opposite (a index) (c index))
        (compare_trans (a index) (b index) (c index)) (compare_trans (c index) (b index) (a index))
        (compare_trans (c index) (a index) (b index)) (compare_trans (b index) (c index) (a index))
        (compare_trans (b index) (a index) (c index)) (compare_trans (a index) (c index) (b index))
        (tuple_cmp_trans columns a b c) h k

  -- `tuple_compare` tells that tuples agree at columns exactly if the sort by these columns, in any
  -- directions, finds them in the wrong order neither way.
  pub tuple_compare-tuple_cmp :
      (columns : List (ℕ × Bool)) (a b : Tuple vs)
      → (tuple_compare vs (indices columns) a b ≡ true)
        ↔ ((tuple_cmp vs columns a b ≡ false) × (tuple_cmp vs columns b a ≡ false))
  unfolding tuple_cmp tuple_compare
  tuple_compare-tuple_cmp [] a b = (λ h. (refl, refl), λ h. refl)
  tuple_compare-tuple_cmp ((index, cmp) ∷ columns) a b =
      column_same cmp _ _ _ _ _ (opposite (a index) (b index)) (tuple_compare-tuple_cmp columns a b)
