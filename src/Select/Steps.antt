-- ===== src/Select/Steps.antt =====
-- The loop of manual_do_select that joins one set of tuples after another, against the product of all.
use mathlib.Core.List.{append-nil, append_assoc, map-append}
use oceanbase.Base.{
  ℕ, ◌+◌, ◌≡◌, refl, sym, ap, subst, ◌∙◌, Bool, true, false, Option, none, some, List, [], ◌∷◌,
  ◌++◌, map, arith, length, length-append, if◌then◌else◌,
}
use oceanbase.Tuples.{Values}
use oceanbase.Select.{Literals, Arbiter, ValueRow, judge_all}
use oceanbase.Select.Product.{before_each, passing, passing-cons, passing-append, both}
use oceanbase.Select.Arbiters.{AllFit, Partial, judge_all-refuses, judge_all-total, some-injective}

module _ (vs : Values) where
  -- All rows have this many values.
  abbrev pub AreWide : ℕ → List (ValueRow vs) → Type 0
  AreWide n [] = Unit
  AreWide n (r ∷ rows) = (length r ≡ n) × AreWide n rows

  AreWide-append :
      (n : ℕ) (xs ys : List (ValueRow vs)) → AreWide n xs → AreWide n ys → AreWide n (xs ++ ys)
  AreWide-append n [] ys h k = k
  AreWide-append n (x ∷ xs) ys (e, h) k = (e, AreWide-append n xs ys h k)

  AreWide-map :
      (n m : ℕ) (t : ValueRow vs) (rows : List (ValueRow vs))
      → length t ≡ n
      → AreWide m rows
      → AreWide (n + m) (map (λ r. t ++ r) rows)
  AreWide-map n m t [] e h = tt
  AreWide-map n m t (r ∷ rows) e (er, h) =
      (omega (arith, length-append t r), AreWide-map n m t rows e h)

  pub AreWide-before_each :
      (n m : ℕ) (ts rows : List (ValueRow vs))
      → AreWide n ts
      → AreWide m rows
      → AreWide (n + m) (before_each vs ts rows)
  AreWide-before_each n m [] rows h k = tt
  AreWide-before_each n m (t ∷ ts) rows (e, h) k =
      AreWide-append (n + m) (map (λ r. t ++ r) rows) (before_each vs ts rows)
        (AreWide-map n m t rows e k) (AreWide-before_each n m ts rows h k)

  before_each-append :
      (xs ys rows : List (ValueRow vs))
      → before_each vs (xs ++ ys) rows ≡ before_each vs xs rows ++ before_each vs ys rows
  before_each-append [] ys rows = refl
  before_each-append (x ∷ xs) ys rows = rw (before_each-append xs ys rows, append_assoc) refl

  map-map_rows :
      (t u : ValueRow vs) (rows : List (ValueRow vs))
      → map (λ r. t ++ r) (map (λ r. u ++ r) rows) ≡ map (λ r. (t ++ u) ++ r) rows
  map-map_rows t u [] = refl
  map-map_rows t u (r ∷ rows) = rw (map-map_rows t u rows, append_assoc) refl

  before_each-map :
      (t : ValueRow vs) (us rows : List (ValueRow vs))
      → before_each vs (map (λ r. t ++ r) us) rows ≡ map (λ r. t ++ r) (before_each vs us rows)
  before_each-map t [] rows = refl
  before_each-map t (u ∷ us) rows =
      rw
        (
          before_each-map t us rows,
          map-append (λ r. t ++ r) (map (λ r. u ++ r) rows) (before_each vs us rows),
          map-map_rows t u rows,
        )
        refl

  -- The product of three sets, put together from the left and from the right.
  pub before_each_assoc :
      (ts us rows : List (ValueRow vs))
      → before_each vs (before_each vs ts us) rows ≡ before_each vs ts (before_each vs us rows)
  before_each_assoc [] us rows = refl
  before_each_assoc (t ∷ ts) us rows =
      rw
        (
          before_each-append (map (λ r. t ++ r) us) (before_each vs ts us) rows,
          before_each-map t us rows,
          before_each_assoc ts us rows,
        )
        refl

  pub before_each_unit : (ts : List (ValueRow vs)) → before_each vs ts ([] ∷ []) ≡ ts
  before_each_unit [] = refl
  before_each_unit (t ∷ ts) = rw (before_each_unit ts, append-nil) refl

  module _ (ls : Literals vs) where
    -- Rows that are wide enough are judged, and those that pass are as wide.
    pub passing-total :
        (n : ℕ) (arbiters : List (Option (Arbiter vs))) (rows : List (ValueRow vs))
        → AllFit vs n arbiters
        → AreWide n rows
        → (kept : List (ValueRow vs)) × (passing vs ls arbiters rows ≡ some kept) × AreWide n kept
    passing-total n arbiters [] fit wide = ([], refl, tt)
    passing-total n arbiters (r ∷ rows) fit (e, wide) =
        let (b, at) = judge_all-total vs ls n arbiters r fit (omega arith) in
        let (kept, rest, wide_kept) = passing-total n arbiters rows fit wide in
        (
          (if b then r ∷ kept else kept),
          passing-cons vs ls arbiters r rows ∙ rw (at, rest) refl,
          keep_wide n b r kept e wide_kept,
        )
      where
        keep_wide :
            (n : ℕ) (b : Bool) (r : ValueRow vs) (kept : List (ValueRow vs))
            → length r ≡ n
            → AreWide n kept
            → AreWide n (if b then r ∷ kept else kept)
        keep_wide n true r kept e h = (e, h)
        keep_wide n false r kept e h = h

    module _ (n m : ℕ) (as' bs : List (Option (Arbiter vs))) (fa : AllFit vs n as')
        (fb : AllFit vs (n + m) bs) (part : Partial vs as' bs) where
      -- Behind a row that the first arbiters refuse nothing passes.
      refused-passing :
          (r : ValueRow vs) (rows : List (ValueRow vs))
          → length r ≡ n
          → AreWide m rows
          → judge_all vs ls as' r ≡ some false
          → passing vs ls bs (map (λ q. r ++ q) rows) ≡ some []
      refused-passing r [] e wide stop = refl
      refused-passing r (q ∷ rows) e (eq, wide) stop =
          passing-cons vs ls bs (r ++ q) (map (λ q. r ++ q) rows)
          ∙ rw
              (
                judge_all-refuses vs ls n (n + m) as' bs r q fa fb part (omega arith)
                    (omega (arith, length-append r q)) stop,
                refused-passing r rows e wide stop,
              )
              refl

      both_nothing : (k : Option (List (ValueRow vs))) → k ≡ both vs ls (some []) k
      both_nothing none = refl
      both_nothing (some k) = refl

      filtered_step :
          (t : ValueRow vs) (ts rest rows : List (ValueRow vs)) (b : Bool)
          → length t ≡ n
          → AreWide m rows
          → judge_all vs ls as' t ≡ some b
          → passing vs ls bs (before_each vs rest rows) ≡ passing vs ls bs (before_each vs ts rows)
          → passing vs ls bs (before_each vs (if b then t ∷ rest else rest) rows)
            ≡ passing vs ls bs (before_each vs (t ∷ ts) rows)
      filtered_step t ts rest rows true et wr at ih =
          passing-append vs ls bs (map (λ r. t ++ r) rows) (before_each vs rest rows)
          ∙ rw ih (sym (passing-append vs ls bs (map (λ r. t ++ r) rows) (before_each vs ts rows)))
      filtered_step t ts rest rows false et wr at ih =
          ih
          ∙ (both_nothing (passing vs ls bs (before_each vs ts rows))
              ∙ (ap (λ k. both vs ls k (passing vs ls bs (before_each vs ts rows)))
                    (sym (refused-passing t rows et wr at))
                  ∙ sym
                      (passing-append vs ls bs (map (λ r. t ++ r) rows) (before_each vs ts rows))))

      -- To filter the rows in front by the first arbiters changes nothing of what passes in the end.
      pub filtered-passing :
          (ts rows kept : List (ValueRow vs))
          → AreWide n ts
          → AreWide m rows
          → passing vs ls as' ts ≡ some kept
          → passing vs ls bs (before_each vs kept rows) ≡ passing vs ls bs (before_each vs ts rows)
      filtered-passing [] rows kept wt wr e =
          subst (λ k. passing vs ls bs (before_each vs k rows) ≡ some []) (some-injective e) refl
      filtered-passing (t ∷ ts) rows kept (et, wt) wr e =
          let (b, at) = judge_all-total vs ls n as' t fa (omega arith) in
          let (rest, at_rest, _) = passing-total n as' ts fa wt in
          let kept_of : some (if b then t ∷ rest else rest) ≡ some kept =
            (rw (at, at_rest) at (sym (passing-cons vs ls as' t ts) ∙ e)) in
          subst
            (λ k.
              passing vs ls bs (before_each vs k rows)
              ≡ passing vs ls bs (before_each vs (t ∷ ts) rows))
            (some-injective kept_of)
            (filtered_step t ts rest rows b et wr at (filtered-passing ts rows rest wt wr at_rest))
