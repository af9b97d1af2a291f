-- ===== src/Select/Product.antt =====
-- dfs_cartesian of execute_stage.cpp against the product of the sets of tuples.
use mathlib.Core.List.{append-nil, append_assoc, map-append}
use oceanbase.Base.{
  ℕ, zero, suc, ◌≡◌, refl, sym, ap, ◌∙◌, Bool, true, false, Option, none, some, List, [], ◌∷◌, ◌++◌,
  map, arith, length, if◌then◌else◌,
}
use oceanbase.Tuples.{Values}
use oceanbase.Select.{
  Literals, Arbiter, ValueRow, Walk, ◌>>=◌, judge_all, pop_back, pop_all, each_tuple, put_out,
  dfs_cartesian,
}

module _ (vs : Values) where
  -- Each tuple of a set before each of the rows behind.
  abbrev pub before_each : List (ValueRow vs) → List (ValueRow vs) → List (ValueRow vs)
  before_each [] rows = []
  before_each (t ∷ ts) rows = map (λ r. t ++ r) rows ++ before_each ts rows

  -- The Cartesian product, in the order of the sets.
  abbrev pub product : List (List (ValueRow vs)) → List (ValueRow vs)
  product [] = [] ∷ []
  product (s ∷ sets) = before_each s (product sets)

  pop_back_lem :
      (xs : ValueRow vs) (y : vs.Value) (ys : ValueRow vs)
      → pop_back vs (xs ++ (y ∷ ys)) ≡ xs ++ pop_back vs (y ∷ ys)
  unfolding pop_back
  pop_back_lem [] y ys = refl
  pop_back_lem (x ∷ []) y ys = refl
  pop_back_lem (x ∷ z ∷ xs) y ys = ap (λ r. x ∷ r) (pop_back_lem (z ∷ xs) y ys)

  length-pop_back : (y : vs.Value) (ys : ValueRow vs) → length (pop_back vs (y ∷ ys)) ≡ length ys
  unfolding pop_back
  length-pop_back y [] = refl
  length-pop_back y (z ∷ ys) = ap suc (length-pop_back z ys)

  -- The values added are taken off again.
  pop_all_lem : (n : ℕ) (xs ys : ValueRow vs) → length ys ≡ n → pop_all vs n (xs ++ ys) ≡ xs
  unfolding pop_all
  pop_all_lem zero xs [] e = append-nil xs
  pop_all_lem zero xs (y ∷ ys) e = absurd (omega (arith, e))
  pop_all_lem (suc n) xs [] e = absurd (omega (arith, e))
  pop_all_lem (suc n) xs (y ∷ ys) e =
      rw (pop_back_lem xs y ys)
        (pop_all_lem n xs (pop_back vs (y ∷ ys)) (length-pop_back y ys ∙ omega (arith, e)))

  module _ (ls : Literals vs) where
    -- The rows that pass all arbiters, or none if a judgement fails.
    abbrev pub passing :
        List (Option (Arbiter vs)) → List (ValueRow vs) → Option (List (ValueRow vs))
    passing arbiters [] = some []
    passing arbiters (r ∷ rows) = do
      passes ← judge_all vs ls arbiters r
      kept ← passing arbiters rows
      some (if passes then r ∷ kept else kept)

    -- What a walk with these rows to put out leaves.
    abbrev pub walked : Walk vs → Option (List (ValueRow vs)) → Option (Walk vs)
    walked w none = none
    walked w (some kept) = some (w.0, w.1 ++ kept)

    abbrev pub both :
        Option (List (ValueRow vs)) → Option (List (ValueRow vs)) → Option (List (ValueRow vs))
    both none k = none
    both (some h) none = none
    both (some h) (some k) = some (h ++ k)

    abbrev pub keep :
        ValueRow vs → Option Bool → Option (List (ValueRow vs)) → Option (List (ValueRow vs))
    keep r none k = none
    keep r (some b) none = none
    keep r (some b) (some kept) = some (if b then r ∷ kept else kept)

    pub passing-cons :
        (arbiters : List (Option (Arbiter vs))) (r : ValueRow vs) (rows : List (ValueRow vs))
        → passing arbiters (r ∷ rows) ≡ keep r (judge_all vs ls arbiters r) (passing arbiters rows)
    passing-cons arbiters r rows = ground arith

    keep-both :
        (r : ValueRow vs) (b : Option Bool) (h k : Option (List (ValueRow vs)))
        → keep r b (both h k) ≡ both (keep r b h) k
    keep-both r none h k = refl
    keep-both r (some b) none k = refl
    keep-both r (some b) (some h) none = refl
    keep-both r (some true) (some h) (some k) = refl
    keep-both r (some false) (some h) (some k) = refl

    pub passing-append :
        (arbiters : List (Option (Arbiter vs))) (xs ys : List (ValueRow vs))
        → passing arbiters (xs ++ ys) ≡ both (passing arbiters xs) (passing arbiters ys)
    passing-append arbiters [] ys = ground arith
    passing-append arbiters (x ∷ xs) ys =
        passing-cons arbiters x (xs ++ ys)
        ∙ rw (passing-append arbiters xs ys) (
            keep-both x _ _ _
            ∙ ap (λ k. both k (passing arbiters ys)) (sym (passing-cons arbiters x xs)))

    walked-both :
        (c : ValueRow vs) (o : List (ValueRow vs)) (h k : Option (List (ValueRow vs)))
        → (walked (c, o) h >>= λ w. walked (c, w.1) k) ≡ walked (c, o) (both h k)
    walked-both c o none k = refl
    walked-both c o (some h) none = refl
    walked-both c o (some h) (some k) = ap (λ r. some (c, r)) (append_assoc o h k)

    -- The rows that a walk over the sets puts out behind a current tuple
    abbrev pub reached :
        List (Option (Arbiter vs))
        → List (List (ValueRow vs))
        → ValueRow vs
        → Option (List (ValueRow vs))
    reached arbiters sets current = passing arbiters (map (λ r. current ++ r) (product sets))

    map-before :
        (current t : ValueRow vs) (rows : List (ValueRow vs))
        → map (λ r. current ++ r) (map (λ r. t ++ r) rows) ≡ map (λ r. (current ++ t) ++ r) rows
    map-before current t [] = refl
    map-before current t (r ∷ rows) = rw (map-before current t rows, append_assoc) refl

    -- One round of the loop over the tuples of a set
    after_tuple :
        (deeper : Walk vs → Option (Walk vs)) (ts : List (ValueRow vs)) (c t : ValueRow vs)
        (o : List (ValueRow vs)) (now later : Option (List (ValueRow vs)))
        → ((o : List (ValueRow vs)) → each_tuple vs deeper ts (c, o) ≡ walked (c, o) later)
        → (walked (c ++ t, o) now >>= λ w. each_tuple vs deeper ts (pop_all vs (length t) w.0, w.1))
          ≡ walked (c, o) (both now later)
    after_tuple deeper ts c t o none later h = refl
    after_tuple deeper ts c t o (some kept) later h =
        rw (pop_all_lem (length t) c t refl) (h (o ++ kept) ∙ walked-both c o (some kept) later)

    put_out-walked :
        (c : ValueRow vs) (o : List (ValueRow vs)) (b : Option Bool)
        → put_out vs (c, o) b ≡ walked (c, o) (keep c b (some []))
    put_out-walked c o none = refl
    put_out-walked c o (some true) = refl
    put_out-walked c o (some false) = rw append-nil

    each_tuple-reached :
        (arbiters : List (Option (Arbiter vs))) (sets : List (List (ValueRow vs)))
        (deeper : Walk vs → Option (Walk vs))
        → ((c : ValueRow vs) (o : List (ValueRow vs))
            → deeper (c, o) ≡ walked (c, o) (reached arbiters sets c))
        → (ts : List (ValueRow vs)) (c : ValueRow vs) (o : List (ValueRow vs))
        → each_tuple vs deeper ts (c, o) ≡ walked (c, o) (reached arbiters (ts ∷ sets) c)
    unfolding each_tuple
    each_tuple-reached arbiters sets deeper h [] c o = rw append-nil
    each_tuple-reached arbiters sets deeper h (t ∷ ts) c o = rw (h (c ++ t) o) (
        after_tuple deeper ts c t o (reached arbiters sets (c ++ t)) _
          (each_tuple-reached arbiters sets deeper h ts c)
        ∙ ap (walked (c, o)) (
            sym (passing-append arbiters _ _)
            ∙ ap (passing arbiters) (
                sym (
                  map-append (λ r. c ++ r) (map (λ r. t ++ r) (product sets))
                    (before_each ts (product sets))
                  ∙ ap (λ rows. rows ++ map (λ r. c ++ r) (before_each ts (product sets)))
                      (map-before c t (product sets))))))

    -- dfs_cartesian leaves the current tuple as it was, and adds to the output the tuples of the
    -- product that pass all arbiters, in the order of the product; it fails exactly if a judgement does.
    pub dfs_cartesian-reached :
        (arbiters : List (Option (Arbiter vs))) (sets : List (List (ValueRow vs))) (c : ValueRow vs)
        (o : List (ValueRow vs))
        → dfs_cartesian vs ls arbiters sets (c, o) ≡ walked (c, o) (reached arbiters sets c)
    unfolding dfs_cartesian
    dfs_cartesian-reached arbiters [] c o = rw (append-nil c) (
        put_out-walked c o (judge_all vs ls arbiters c)
        ∙ ap (walked (c, o)) (sym (passing-cons arbiters c [])))
    dfs_cartesian-reached arbiters (s ∷ sets) c o =
        each_tuple-reached arbiters sets (dfs_cartesian vs ls arbiters sets)
          (dfs_cartesian-reached arbiters sets) s c o
