-- ===== src/Bplus/Compare.antt =====
-- bplus_tree.cpp: `CompareKey`, the comparison of two attributes of an index.
--
-- An attribute is the memory from where it starts. `float_compare` of two floats is a parameter. The
-- message for an unknown type is left out.
use oceanbase.Base.{ℕ, zero, suc, ◌+◌, ◌≡◌, refl, Bool, ◌&&◌, ◌==◌, leb, if◌then◌else◌, arith}
use oceanbase.Base.Int.{ℤ, pos, negsuc, ◌≤ℤ◌, sub_ℕ, ltb_ℤ}
use oceanbase.Base.Memory.{Memory}
use oceanbase.Tuples.{Values, is_zero}
use oceanbase.Filter.{AttrType, chars, ints, floats, dates, strcasecmp, read_int}

-- "null"
abbrev pub null_text : Memory
null_text i = if i == 0 then 110 else if i == 1 then 117 else if leb i 3 then 108 else 0

-- strcasecmp(pdata, "null") == 0
unfoldable pub is_null : Memory → Bool
is_null m = is_zero (strcasecmp m null_text)

-- strncmp, from the offset `i`.
unfoldable pub strncmp : ℕ → Memory → Memory → ℕ → ℤ
strncmp zero l r i = pos 0
strncmp (suc n) l r i =
    let rest = strncmp n l r (i + 1) in
    if l i == r i then if l i == 0 then pos 0 else rest else sub_ℕ (l i) (r i)

abbrev pub compare_ints : ℤ → ℤ → ℤ
compare_ints a b = if ltb_ℤ b a then pos 1 else if ltb_ℤ a b then negsuc 0 else pos 0

module _ (float_compare : Memory → Memory → ℤ) where
  -- The switch over the type. -2 is an error.
  unfoldable pub compare_typed : AttrType → ℕ → Memory → Memory → ℤ
  unfolding strncmp
  compare_typed ints len l r = compare_ints (read_int l) (read_int r)
  compare_typed floats len l r = float_compare l r
  compare_typed chars len l r = strncmp len l r 0
  compare_typed dates len l r = compare_ints (read_int l) (read_int r)
  compare_typed _ len l r = negsuc 1

  -- CompareKey
  unfoldable pub compare_key : AttrType → ℕ → Memory → Memory → ℤ
  unfolding compare_typed is_null
  compare_key type len pdata pkey =
      if is_null pdata && is_null pkey
      then pos 0
      else if is_null pdata
      then negsuc 0
      else if is_null pkey
      then pos 1
      else compare_typed type len pdata pkey

-- The comparison of ints with the tests for null already done.
abbrev pub ranked : Bool → Bool → ℤ → ℤ → ℤ
ranked n m a b =
    if n && m then pos 0 else if n then negsuc 0 else if m then pos 1 else compare_ints a b

pub ranked_le : (n m : Bool) (a b : ℤ) → ranked n m a b ≤ℤ pos 0 → pos 0 ≤ℤ ranked m n b a
ranked_le n m a b h = ground arith

pub ranked_ge : (n m : Bool) (a b : ℤ) → pos 0 ≤ℤ ranked n m a b → ranked m n b a ≤ℤ pos 0
ranked_ge n m a b h = ground arith

pub ranked_trans :
    (n m o : Bool) (a b c : ℤ)
    → ranked n m a b ≤ℤ pos 0
    → ranked m o b c ≤ℤ pos 0
    → ranked n o a c ≤ℤ pos 0
ranked_trans n m o a b c h k = ground arith

module _ (float_compare : Memory → Memory → ℤ) (len : ℕ) where
  pub compare_key-ranked :
      (l r : Memory)
      → compare_key float_compare ints len l r
        ≡ ranked (is_null l) (is_null r) (read_int l) (read_int r)
  unfolding compare_key
  compare_key-ranked l r = refl

  -- The attributes of an index on ints, in the order of `CompareKey`.
  abbrev pub int_keys : Values
  int_keys = record {
    Value = Memory;
    compare = compare_key float_compare ints len;
    compare_le = λ l r.
        rw (compare_key-ranked l r, compare_key-ranked r l)
          (ranked_le (is_null l) (is_null r) (read_int l) (read_int r));
    compare_ge = λ l r.
        rw (compare_key-ranked l r, compare_key-ranked r l)
          (ranked_ge (is_null l) (is_null r) (read_int l) (read_int r));
    compare_trans = λ a b c.
        rw (compare_key-ranked a b, compare_key-ranked b c, compare_key-ranked a c)
          (ranked_trans (is_null a) (is_null b) (is_null c) (read_int a) (read_int b) (read_int c));
  }
