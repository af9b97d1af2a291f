-- ===== src/Select/Join.antt =====
-- The join of many sets of tuples, one after another, against the product of all.
use mathlib.Core.List.{append-nil, append_assoc}
use oceanbase.Base.{
  ◌+◌, ◌≡◌, refl, sym, ap, subst, ◌∙◌, true, Option, some, List, [], ◌∷◌, ◌++◌, map, length,
  length-append,
}
use oceanbase.Tuples.{Values}
use oceanbase.Groups.{TupleField}
use oceanbase.Select.{
  Literals, Arbiter, ValueRow, Condition, TupleSet, make_arbiters, join_two, join,
}
use oceanbase.Select.Product.{before_each, product, passing, dfs_cartesian-reached}
use oceanbase.Select.Arbiters.{
  All, compares, AllFit, Partial, make_arbiters-Fits, make_arbiters-append, some-injective,
}
use oceanbase.Select.Steps.{
  AreWide, AreWide-before_each, before_each_unit, before_each_assoc, passing-total,
  filtered-passing,
}

module _ (vs : Values) (ls : Literals vs) where
  abbrev Sets : Type 0
  Sets = List (TupleSet vs ls)

  -- The columns of some sets, one behind the other.
  abbrev columns_of : Sets → List TupleField
  columns_of [] = []
  columns_of (s ∷ sets) = s.schema ++ columns_of sets

  abbrev pub all_columns : TupleSet vs ls → Sets → List TupleField
  all_columns first sets = first.schema ++ columns_of sets

  abbrev pub tuples_of : Sets → List (List (ValueRow vs))
  tuples_of [] = []
  tuples_of (s ∷ sets) = s.tuples ∷ tuples_of sets

  -- Each tuple of a set has a value for each column.
  abbrev pub IsWhole : TupleSet vs ls → Type 0
  IsWhole s = AreWide vs (length s.schema) s.tuples

  AreWide-product :
      (sets : Sets)
      → All IsWhole sets
      → AreWide vs (length (columns_of sets)) (product vs (tuples_of sets))
  AreWide-product [] h = (refl, tt)
  AreWide-product (s ∷ sets) (w, h) =
      subst (λ n. AreWide vs n (product vs (tuples_of (s ∷ sets))))
        (sym (length-append s.schema (columns_of sets)))
        (AreWide-before_each vs (length s.schema) (length (columns_of sets)) s.tuples
          (product vs (tuples_of sets)) w (AreWide-product sets h))

  map_nothing : (rows : List (ValueRow vs)) → map (λ r. [] ++ r) rows ≡ rows
  map_nothing [] = refl
  map_nothing (r ∷ rows) = ap (λ rs. r ∷ rs) (map_nothing rows)

  -- What joining two sets gives, when the arbiters for all columns can be made.
  record Joined (conds : List Condition) (first next : TupleSet vs ls) (behind : List TupleField)
      (bs : List (Option (Arbiter vs))) : Type 0 where
    some_arbiters : List (Option (Arbiter vs))
    kept : List (ValueRow vs)
    made_some : make_arbiters vs ls (first.schema ++ next.schema) conds ≡ some some_arbiters
    partial : Partial vs some_arbiters bs
    fit : AllFit vs (length (first.schema ++ next.schema)) some_arbiters
    fit_all : AllFit vs (length (first.schema ++ next.schema) + length behind) bs
    wide :
        AreWide vs (length (first.schema ++ next.schema)) (before_each vs first.tuples next.tuples)
    passes : passing vs ls some_arbiters (before_each vs first.tuples next.tuples) ≡ some kept
    whole : AreWide vs (length (first.schema ++ next.schema)) kept
    joins :
        join_two vs ls conds first next
        ≡ some (record { schema = first.schema ++ next.schema; tuples = kept })

  joined :
      (conds : List Condition) (first next : TupleSet vs ls) (behind : List TupleField)
      (bs : List (Option (Arbiter vs)))
      → All (λ c. compares c.comp ≡ true) conds
      → IsWhole first
      → IsWhole next
      → make_arbiters vs ls ((first.schema ++ next.schema) ++ behind) conds ≡ some bs
      → Joined conds first next behind bs
  unfolding join_two
  joined conds first next behind bs compare whole_first whole_next made =
      let two = first.schema ++ next.schema in
      let (arbiters, made_two, part) = make_arbiters-append vs ls two behind conds bs made in
      let fits = make_arbiters-Fits vs ls two conds arbiters compare made_two in
      let wide =
        subst (λ n. AreWide vs n (before_each vs first.tuples next.tuples))
          (sym (length-append first.schema next.schema))
          (AreWide-before_each vs (length first.schema) (length next.schema) first.tuples
            next.tuples whole_first whole_next) in
      let (kept, pass, whole) =
        passing-total vs ls (length two) arbiters (before_each vs first.tuples next.tuples) fits
          wide in
      record {
        some_arbiters = arbiters;
        kept = kept;
        made_some = made_two;
        partial = part;
        fit = fits;
        fit_all =
            subst (λ n. AllFit vs n bs) (length-append two behind)
              (make_arbiters-Fits vs ls (two ++ behind) conds bs compare made);
        wide = wide;
        passes = pass;
        whole = whole;
        joins =
            rw
              (
                made_two,
                dfs_cartesian-reached vs ls arbiters (first.tuples ∷ next.tuples ∷ []) [] [],
                map_nothing (before_each vs first.tuples (before_each vs next.tuples ([] ∷ []))),
                before_each_unit vs next.tuples,
                pass,
              )
              refl;
      }

  -- When the arbiters of the conditions can be made for the columns of all sets, the join succeeds, and
  -- its tuples are those of the product of all sets, in its order, that pass these arbiters.
  pub join-passing :
      (conds : List Condition) (first next : TupleSet vs ls) (more : Sets)
      (bs : List (Option (Arbiter vs)))
      → All (λ c. compares c.comp ≡ true) conds
      → IsWhole first
      → All IsWhole (next ∷ more)
      → make_arbiters vs ls (all_columns first (next ∷ more)) conds ≡ some bs
      → (out : List (ValueRow vs)) × (join vs ls conds first (next ∷ more)
          ≡ some (record { schema = all_columns first (next ∷ more); tuples = out }))
        × (passing vs ls bs (product vs (first.tuples ∷ tuples_of (next ∷ more))) ≡ some out)
  unfolding join
  join-passing conds first next [] bs compare wf (wn, tt) made =
      let made' =
        subst (λ f. make_arbiters vs ls f conds ≡ some bs)
          (sym (append_assoc first.schema next.schema [])) made in
      let j = joined conds first next [] bs compare wf wn made' in
      let same : j.some_arbiters ≡ bs = some-injective (
        sym j.made_some
        ∙ (ap (λ f. make_arbiters vs ls (first.schema ++ f) conds) (sym (append-nil next.schema))
            ∙ made)) in
      (
        j.kept,
        rw j.joins (
            ap (λ f. some (record { schema = first.schema ++ f; tuples = j.kept }))
              (sym (append-nil next.schema))),
        rw (before_each_unit vs next.tuples) (
            subst (λ b. passing vs ls b (before_each vs first.tuples next.tuples) ≡ some j.kept)
              same j.passes),
      )
  join-passing conds first next (third ∷ more) bs compare wf (wn, wm) made =
      let made' =
        subst (λ f. make_arbiters vs ls f conds ≡ some bs)
          (sym (append_assoc first.schema next.schema (columns_of (third ∷ more)))) made in
      let j = joined conds first next (columns_of (third ∷ more)) bs compare wf wn made' in
      let mid : TupleSet vs ls = record { schema = first.schema ++ next.schema; tuples = j.kept } in
      let (out, joins, pass) = join-passing conds mid third more bs compare j.whole wm made' in
      (
        out,
        rw j.joins (
            joins
            ∙ ap (λ f. some (record { schema = f; tuples = out }))
                (append_assoc first.schema next.schema (columns_of (third ∷ more)))),
        ap (passing vs ls bs) (
              sym (
                before_each_assoc vs first.tuples next.tuples
                  (product vs (tuples_of (third ∷ more)))))
            ∙ (sym (
                  filtered-passing vs ls (length (first.schema ++ next.schema))
                    (length (columns_of (third ∷ more))) j.some_arbiters bs j.fit j.fit_all
                    j.partial (before_each vs first.tuples next.tuples)
                    (product vs (tuples_of (third ∷ more))) j.kept j.wide
                    (AreWide-product (third ∷ more) wm) j.passes)
                ∙ pass),
      )
