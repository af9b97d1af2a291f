-- ===== src/Bplus/Insert/Split.antt =====
-- The loops of `insert_into_leaf_after_split` of bplus_tree.cpp, and the place of the new entry.
use oceanbase.Base.{
  ℕ, zero, suc, ◌+◌, ◌-◌, ◌≡◌, ◌≢◌, ◌≤◌, ◌<◌, inl, inr, ap, ◌∙◌, subst, false, ◌&&◌, ◌==◌, ltb, leb,
  if◌then◌else◌, arith, Bool-cases, ==_iff,
}
use oceanbase.Tuples.{Values, is_zero}
use oceanbase.Pages.{update}
use oceanbase.Bplus.{is_negative, copy, position, Key, Node, cmp_key}
use oceanbase.Bplus.Arrays.{copy_at, position-IsPosition}
use oceanbase.Bplus.Order.{Before, Before-of_not, Before-trans_right, NotAfter-Before}
use oceanbase.Bplus.Entries.{IsSorted}
use oceanbase.Bplus.Insert.{spread}
use oceanbase.Bplus.Insert.Inserted.{inserted_at}
use oceanbase.Bplus.Insert.Leaf.{FitsAt}

-- Behind the gap, the entries stand one place further.
spread_behind :
    {A : Type 0} (rounds i gap : ℕ) (temp a : ℕ → A) (k : ℕ)
    → gap < i + 1
    → spread rounds i (i + 1) gap temp a k
      ≡ (if leb (i + 1) k && ltb k (i + 1 + rounds) then a (k - 1) else temp k)
unfolding spread
spread_behind zero i gap temp a k h = ground arith
spread_behind (suc rounds) i gap temp a k h =
    let step : (i + 1 == gap) ≡ false = ground arith in
    rw step (
      spread_behind rounds (i + 1) gap (update temp (i + 1) (a i)) a k (omega arith) ∙ ground arith)

spread_before :
    {A : Type 0} (rounds i gap : ℕ) (temp a : ℕ → A) (k : ℕ)
    → i ≤ gap
    → gap ≤ i + rounds
    → k ≤ i + rounds
    → k ≢ gap
    → spread rounds i i gap temp a k
      ≡ (if ltb k i then temp k else if ltb k gap then a k else a (k - 1))
unfolding spread
spread_before zero i gap temp a k h h' le ne = ground (arith, ne)
spread_before (suc rounds) i gap temp a k h h' le ne = elim (Bool-cases (i == gap)) [
  | inl e ↦ rw e (
      spread_behind rounds (i + 1) gap (update temp (i + 1) (a i)) a k (ground arith)
      ∙ ground (arith, ne, e))
  | inr e ↦ rw e (
      spread_before rounds (i + 1) gap (update temp i (a i)) a k (ground arith) (omega arith)
        (omega arith) ne
      ∙ ground (arith, ne, e))
]

-- The temporary arrays are the old ones with the new entry put in.
pub spread_inserted :
    {A : Type 0} (n gap : ℕ) (temp a : ℕ → A) (x : A) (k : ℕ)
    → gap ≤ n
    → k ≤ n
    → update (spread n 0 0 gap temp a) gap x k ≡ inserted_at a gap x k
unfolding inserted_at
spread_inserted n gap temp a x k h le = elim (Bool-cases (gap == k)) [
  | inl e ↦ rw e (ground (arith, e))
  | inr e ↦ rw e (
      spread_before n 0 gap temp a k (omega arith) (omega arith) (omega arith)
        (λ q. ground (arith, e, q))
      ∙ ground (arith, e))
]

pub copied :
    {A : Type 0} (rounds : ℕ) (a b : ℕ → A) (j k : ℕ)
    → k < rounds
    → copy rounds a 0 b j k ≡ b (j + k)
copied rounds a b j k h =
    let q : j + (k - 0) ≡ j + k = omega arith in ground (arith, copy_at rounds a 0 b j k, ap b q)

-- An entry short of the last place, where a leaf keeps its pointer to the next one.
pub copied_but_last :
    {A : Type 0} (rounds : ℕ) (a b : ℕ → A) (j k last : ℕ) (x : A)
    → k < rounds
    → rounds ≤ last
    → update (copy rounds a 0 b j) last x k ≡ b (j + k)
copied_but_last rounds a b j k last x h h' = ground (arith, copied rounds a b j k h)

module _ (vs : Values) where
  -- The place of a new key, for a leaf that is to be split.
  abbrev pub split_place : Key vs → Node vs → ℕ
  split_place key leaf = position (λ i. is_negative (cmp_key vs key (leaf.keys i))) leaf.key_num

  pub split_place-FitsAt :
      (leaf : Node vs) (key : Key vs)
      → IsSorted vs leaf
      → ((j : ℕ) → j < leaf.key_num → is_zero (cmp_key vs key (leaf.keys j)) ≡ false)
      → (split_place key leaf ≤ leaf.key_num) × FitsAt vs leaf (split_place key leaf) key
  split_place-FitsAt leaf key s fresh =
      let i = split_place key leaf in
      let found =
        position-IsPosition (λ j. is_negative (cmp_key vs key (leaf.keys j))) leaf.key_num in
      (
        found.0,
        (
          λ j lt.
              Before-of_not vs key (leaf.keys j) (found.1 j lt) (fresh j (omega (arith, found.0))),
          λ j ge lt. elim found.2 [
            | inl end ↦ absurd (omega arith)
            | inr (_, less) ↦ elim (Bool-cases (i == j)) [
              | inl e ↦ subst (λ n. Before vs key (leaf.keys n)) ((==_iff i j).0 e) less
              | inr ne ↦
                  Before-trans_right vs key (leaf.keys i) (leaf.keys j) less
                    (NotAfter-Before vs (leaf.keys i) (leaf.keys j) (s i j (ground arith) lt))
            ]
          ],
        ),
      )
