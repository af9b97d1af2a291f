-- ===== src/Filter/Compare.antt =====
-- `DefaultConditionFilter::filter` of condition_filter.cpp, against the order of ints and strings.
use oceanbase.Base.{
  ℕ, ◌+◌, ◌<◌, ◌≡◌, ◌≢◌, ◌↔◌, refl, true, not, List, length, arith, Bool-cases, inl, inr,
}
use oceanbase.Base.Int.{ℤ, pos, pos_part, neg_part, ◌≤ℤ◌, eq_of_parts}
use oceanbase.Base.Memory.{Memory}
use oceanbase.Tuples.{int_compare, is_zero}
use oceanbase.Tuples.Compare.{IsSmall, int_compare-order}
use oceanbase.Filter.{
  chars, ints, texts, CompOp, equal_to, less_equal, not_equal, less_than, great_equal, great_than,
  is_null, is_not_null, no_op, Filter, max_string, read_int, value_of, meets, filter_values, filter,
}
use oceanbase.Filter.Strings.{IsString, string_order, compare_bytes-string_order}

abbrev pub Less : ℤ → ℤ → Type 0
Less a b = pos_part a + neg_part b < pos_part b + neg_part a

-- What an operation is to say of two ints. The last three are no comparisons; the code treats them
-- like `not_equal`.
abbrev pub Related : CompOp → ℤ → ℤ → Type 0
Related equal_to a b = a ≡ b
Related less_equal a b = a ≤ℤ b
Related not_equal a b = a ≢ b
Related less_than a b = Less a b
Related great_equal a b = b ≤ℤ a
Related great_than a b = Less b a
Related is_null a b = a ≢ b
Related is_not_null a b = a ≢ b
Related no_op a b = a ≢ b

is_zero-eq :
    (a b c : ℤ)
    → ((c ≤ℤ pos 0) ↔ (a ≤ℤ b))
    → ((pos 0 ≤ℤ c) ↔ (b ≤ℤ a))
    → (is_zero c ≡ true) ↔ (a ≡ b)
is_zero-eq a b c le ge = (
  λ h. eq_of_parts a b (ground (arith, le.0, ge.0, h)),
  λ e.
      let ab : a ≤ℤ b = rw e (omega arith) in
      let ba : b ≤ℤ a = rw e (omega arith) in ground (arith, le.1 ab, ge.1 ba),
)

not_zero-ne :
    (a b c : ℤ)
    → ((c ≤ℤ pos 0) ↔ (a ≤ℤ b))
    → ((pos 0 ≤ℤ c) ↔ (b ≤ℤ a))
    → (not (is_zero c) ≡ true) ↔ (a ≢ b)
not_zero-ne a b c le ge =
    let same = is_zero-eq a b c le ge in
    (
      λ h e. ground (arith, same.1 e, h),
      λ ne. elim (Bool-cases (is_zero c)) [ inl z ↦ absurd (ne (same.0 z)) | inr nz ↦ rw nz refl ],
    )

meets-Related :
    (op : CompOp) (a b c : ℤ)
    → ((c ≤ℤ pos 0) ↔ (a ≤ℤ b))
    → ((pos 0 ≤ℤ c) ↔ (b ≤ℤ a))
    → (meets op c ≡ true) ↔ Related op a b
unfolding meets
meets-Related equal_to a b c le ge = is_zero-eq a b c le ge
meets-Related less_equal a b c le ge = (ground (arith, le.0), ground (arith, le.1))
meets-Related not_equal a b c le ge = not_zero-ne a b c le ge
meets-Related less_than a b c le ge = (ground (arith, le.0, ge.1), ground (arith, le.1, ge.0))
meets-Related great_equal a b c le ge = (ground (arith, ge.0), ground (arith, ge.1))
meets-Related great_than a b c le ge = (ground (arith, le.1, ge.0), ground (arith, le.0, ge.1))
meets-Related is_null a b c le ge = not_zero-ne a b c le ge
meets-Related is_not_null a b c le ge = not_zero-ne a b c le ge
meets-Related no_op a b c le ge = not_zero-ne a b c le ge

module _ (float_result : Memory → Memory → ℤ) where
  -- A filter on ints of 31 bits lets a record pass exactly if the ints at its two sides are related by
  -- its operation, as `Related` says.
  pub filter-ints :
      (f : Filter) (rec : Memory)
      → f.attr_type ≡ ints
      → IsSmall (read_int (value_of f.left rec))
      → IsSmall (read_int (value_of f.right rec))
      → (filter float_result f rec ≡ true)
        ↔ Related f.comp_op (read_int (value_of f.left rec)) (read_int (value_of f.right rec))
  unfolding filter filter_values
  filter-ints f rec e p q =
      let a = read_int (value_of f.left rec) in
      let b = read_int (value_of f.right rec) in
      let order = int_compare-order a b p q in
      rw e (meets-Related f.comp_op a b (int_compare a b) order.0 order.1)

  -- A filter on strings that end in the first 4096 bytes applies its operation to the order of the
  -- strings at its two sides: the difference of the first bytes that differ.
  pub filter-chars :
      (f : Filter) (rec : Memory) (s t : List ℕ)
      → f.attr_type ≡ chars
      → IsString (value_of f.left rec) 0 s
      → IsString (value_of f.right rec) 0 t
      → length s < max_string
      → (filter float_result f rec ≡ true) ↔ Related f.comp_op (string_order s t) (pos 0)
  unfolding filter filter_values
  filter-chars f rec s t e p q h =
      let c = string_order s t in
      rw
        (
          e,
          compare_bytes-string_order max_string (value_of f.left rec) (value_of f.right rec) 0 s t p
              q h,
        )
        (meets-Related f.comp_op c (pos 0) c (λ x. x, λ x. x) (λ x. x, λ x. x))

  -- A filter on TEXT values does not look at them: it lets every record pass if its operation is =, <=
  -- or >=, and none if it is another one.
  pub filter-texts :
      (f : Filter) (rec : Memory)
      → f.attr_type ≡ texts
      → (filter float_result f rec ≡ true) ↔ Related f.comp_op (pos 0) (pos 0)
  unfolding filter filter_values
  filter-texts f rec e =
      rw e (meets-Related f.comp_op (pos 0) (pos 0) (pos 0) (λ x. x, λ x. x) (λ x. x, λ x. x))
