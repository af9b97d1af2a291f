-- ===== src/Groups/Rows.antt =====
-- The new tuples of group_by: one for each group.
use mathlib.Core.List.{append-nil, append_assoc, map-append}
use oceanbase.Base.{
  ℕ, ◌+◌, ◌<◌, ◌≡◌, refl, ap, true, some, List, [], ◌∷◌, ◌++◌, map, get_elem?, length,
  if◌then◌else◌, ◌==◌,
}
use oceanbase.Tuples.{Values, Tuple, tuple_compare}
use oceanbase.Groups.{
  Floats, Printing, RelAttr, TupleField, ok, make_groups, find_group, members, new_tuple,
  new_tuples, new_values, remake_schema, group_columns, agg_flag, group_by, remake, remade,
}

module _ (vs : Values) where
  open vs use {Value}

  -- The tuples with a number, in their order
  abbrev pub numbered : ℕ → List (Tuple vs × ℕ) → List (Tuple vs)
  numbered k [] = []
  numbered k ((t, id) ∷ l) = (if id == k then t ∷ [] else []) ++ numbered k l

  module _ (fs : Floats) (printing : Printing vs fs) where
    -- The row `k` is the new tuple of the tuples with the number `i + k`.
    abbrev pub AreRows :
        List RelAttr
        → List (ℕ × TupleField)
        → List (Tuple vs × ℕ)
        → ℕ
        → ℕ
        → List (List Value)
        → Type 0
    AreRows attrs locs l rounds i rows =
        (length rows ≡ rounds)
        × ((k : ℕ)
            → k < rounds
            → (row : List Value) × (get_elem? rows k ≡ some row)
              × (new_tuple vs fs printing attrs locs (numbered (i + k) l) ≡ ok row))

    -- The rows without GROUP BY: one if there is a tuple, and else none.
    abbrev pub whole_row :
        List RelAttr → List (ℕ × TupleField) → List (Tuple vs) → List (List Value)
    whole_row attrs locs [] = []
    whole_row attrs locs (t ∷ ts) = new_values vs fs printing (t ∷ ts) t attrs locs ∷ []

    one_group :
        (earlier ts : List (Tuple vs)) (t : Tuple vs)
        → make_groups vs [] (map (λ u. (u, 0)) (t ∷ earlier)) 1 ts
          ≡ (map (λ u. (u, 0)) (t ∷ (earlier ++ ts)), 1)
    unfolding make_groups find_group tuple_compare
    one_group earlier [] t = rw append-nil
    one_group earlier (u ∷ ts) t =
        let more = one_group (earlier ++ (u ∷ [])) ts t in
        let shifted = rw (append_assoc) at more in
        rw (← map-append {B = Tuple vs × ℕ} (λ v. (v, 0)) earlier (u ∷ [])) shifted

    members-all : (ts : List (Tuple vs)) → members vs 0 (map (λ u. (u, 0)) ts) ≡ ts
    unfolding members
    members-all [] = refl
    members-all (t ∷ ts) = ap (λ us. t ∷ us) (members-all ts)

    -- Without GROUP BY an aggregation over no tuples leaves no tuple, COUNT(*) included, and over
    -- any others leaves one.
    pub group_by-whole_row :
        (fields : List TupleField) (ts : List (Tuple vs)) (attrs : List RelAttr)
        (first_relation : List ℕ) {locs : List (ℕ × TupleField)}
        → agg_flag attrs ≡ true
        → remake_schema fields first_relation attrs ≡ ok locs
        → group_by vs fs printing fields ts attrs first_relation []
          ≡ remade (map (λ l. l.1) locs) (whole_row attrs locs ts)
    unfolding group_by remake group_columns new_tuples new_tuple make_groups find_group new_values
    group_by-whole_row fields [] attrs first_relation agg located = rw (agg, located) refl
    group_by-whole_row fields (t ∷ ts) attrs first_relation agg located =
        rw (agg, located, one_group [] ts t, members-all) refl
