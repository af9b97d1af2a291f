-- ===== src/Select/Arbiters.antt =====
-- Arbiter of execute_stage.cpp, made for the columns so far and for more columns behind them.
use oceanbase.Base.{
  ℕ, zero, suc, ◌+◌, ◌≤◌, ◌<◌, ◌≡◌, ◌⊎◌, inl, inr, refl, sym, ap, subst, ◌∙◌, Bool, true, false,
  ◌&&◌, ◌||◌, Option, none, some, List, [], ◌∷◌, ◌++◌, arith, length, if◌then◌else◌, Option-cases,
  Bool-cases, get_elem?, ◌==◌,
}
use oceanbase.Base.Int.{ℤ}
use oceanbase.Tuples.{Values, Field, name_eq}
use oceanbase.Filter.{
  AttrType, CompOp, equal_to, less_equal, not_equal, less_than, great_equal, great_than, is_null,
  is_not_null, no_op,
}
use oceanbase.Groups.{TupleField}
use oceanbase.Select.{
  Literals, Arbiter, Operand, column, value, ValueRow, Condition, Side, attribute, constant, Ready,
  absent, bad, ready, column_of, look_up, make_arbiter, make_arbiters, settle_sides, operand_value,
  judge_nulls, judge, judge_all, match_result, type_number, column_ready, field_ready, value_ready,
  prints_null, ◌>>=◌,
}

abbrev pub All : {A : Type 0} → (A → Type 0) → List A → Type 0
All P [] = Unit
All P (x ∷ xs) = P x × All P xs

>>=-eq-some {ℓ κ} :
    {A : Type ℓ} {B : Type κ} (m : Option A) (f : A → Option B) {b : B}
    → (m >>= f) ≡ some b
    → (a : A) × (m ≡ some a) × (f a ≡ some b)
>>=-eq-some none f e = cc
>>=-eq-some (some a) f e = (a, refl, e)

-- The operations of match_result
abbrev pub compares : CompOp → Bool
compares is_null = false
compares is_not_null = false
compares no_op = false
compares _ = true

get_elem?-append {ℓ} :
    {A : Type ℓ} (xs ys : List A) (i : ℕ) {a : A}
    → get_elem? xs i ≡ some a
    → get_elem? (xs ++ ys) i ≡ some a
get_elem?-append [] ys i e = cc
get_elem?-append (x ∷ xs) ys zero e = e
get_elem?-append (x ∷ xs) ys (suc i) e = get_elem?-append xs ys i e

get_elem?-there {ℓ} :
    {A : Type ℓ} (xs : List A) (i : ℕ) → i < length xs → (a : A) × (get_elem? xs i ≡ some a)
get_elem?-there [] i h = absurd (omega arith)
get_elem?-there (x ∷ xs) zero h = (x, refl)
get_elem?-there (x ∷ xs) (suc i) h = get_elem?-there xs i (omega arith)

pub some-injective {ℓ} : {A : Type ℓ} {a b : A} → some a ≡ some b → a ≡ b
some-injective e = cc

none-ne-some {ℓ} : {A : Type ℓ} {a : A} → none ≡ some a → ⊥
none-ne-some e = cc

column_of-there :
    (fields : List TupleField) (attr : Field) (i : ℕ) {k : ℕ}
    → column_of fields attr i ≡ some k
    → (i ≤ k) × (k < i + length fields)
unfolding column_of
column_of-there [] attr i e = cc
column_of-there (f ∷ fields) attr i {k} e =
    elim (Bool-cases
      (name_eq f.field.field_name attr.field_name && name_eq f.field.table_name attr.table_name)) [
        | inl here ↦ ground arith
        | inr later ↦ ground (arith, column_of-there fields attr (i + 1) {k = k})
      ]

below_all :
    (fields : List TupleField) (attr : Field) (k : ℕ)
    → column_of fields attr 0 ≡ some k
    → k < length fields
below_all fields attr k e = omega (arith, (column_of-there fields attr 0 e).1)

column_of-append :
    (fields more : List TupleField) (attr : Field) (i : ℕ) {k : ℕ}
    → column_of fields attr i ≡ some k
    → column_of (fields ++ more) attr i ≡ some k
unfolding column_of
column_of-append [] more attr i e = cc
column_of-append (f ∷ fields) more attr i {k} e =
    elim (Bool-cases
      (name_eq f.field.field_name attr.field_name && name_eq f.field.table_name attr.table_name)) [
        | inl here ↦ ground arith
        | inr later ↦ ground (arith, column_of-append fields more attr (i + 1) {k = k})
      ]

module _ (vs : Values) where
  -- The columns that an operand reads are below `n`.
  abbrev pub IsBelow : ℕ → Operand vs → Type 0
  IsBelow n (column i) = i < n
  IsBelow n (value v) = Unit

  -- An arbiter that reads columns below `n` and compares.
  abbrev pub Fits : ℕ → Option (Arbiter vs) → Type 0
  Fits n none = Unit
  Fits n (some a) = IsBelow n a.left × IsBelow n a.right × (compares a.cmpop ≡ true)

  abbrev pub AllFit : ℕ → List (Option (Arbiter vs)) → Type 0
  AllFit n [] = Unit
  AllFit n (a ∷ arbiters) = Fits n a × AllFit n arbiters

  -- Arbiters for fewer columns: each is not valid, or the same as for all columns.
  abbrev pub Partial : List (Option (Arbiter vs)) → List (Option (Arbiter vs)) → Type 0
  Partial [] [] = Unit
  Partial [] (b ∷ bs) = ⊥
  Partial (a ∷ as') [] = ⊥
  Partial (a ∷ as') (b ∷ bs) = ((a ≡ none) ⊎ (a ≡ b)) × Partial as' bs

  module _ (ls : Literals vs) where
    look_up-append :
        (fields more : List TupleField) (side : Side)
        → (look_up vs ls fields side ≡ absent)
          ⊎ (look_up vs ls (fields ++ more) side ≡ look_up vs ls fields side)
    unfolding look_up
    look_up-append fields more (constant v) = inr refl
    look_up-append fields more (attribute attr) = elim (Option-cases (column_of fields attr 0)) [
      | inl missing ↦ inl (rw missing refl)
      | inr (k, e) ↦
          let (f, at) = get_elem?-there fields k (below_all fields attr k e) in
          inr (
            rw (e, column_of-append fields more attr 0 e, at, get_elem?-append fields more k at)
              refl)
    ]

    -- What can be looked up reads columns that there are.
    abbrev ReadyBelow : ℕ → Ready vs ls → Type 0
    ReadyBelow n (ready o t) = IsBelow n o
    ReadyBelow n _ = Unit

    field_ready-ReadyBelow :
        (n i : ℕ) (f : Option TupleField) → i < n → ReadyBelow n (field_ready vs ls i f)
    field_ready-ReadyBelow n i none h = tt
    field_ready-ReadyBelow n i (some f) h = h

    column_ready-ReadyBelow :
        (fields : List TupleField) (k : Option ℕ)
        → ((i : ℕ) → k ≡ some i → i < length fields)
        → ReadyBelow (length fields) (column_ready vs ls fields k)
    column_ready-ReadyBelow fields none h = tt
    column_ready-ReadyBelow fields (some i) h =
        field_ready-ReadyBelow (length fields) i (get_elem? fields i) (h i refl)

    value_ready-ReadyBelow :
        (n : ℕ) (t : AttrType) (v : Option vs.Value) → ReadyBelow n (value_ready vs ls t v)
    value_ready-ReadyBelow n t none = tt
    value_ready-ReadyBelow n t (some v) = tt

    look_up-ReadyBelow :
        (fields : List TupleField) (side : Side)
        → ReadyBelow (length fields) (look_up vs ls fields side)
    unfolding look_up
    look_up-ReadyBelow fields (constant v) = value_ready-ReadyBelow (length fields) v.attr_type _
    look_up-ReadyBelow fields (attribute attr) =
        column_ready-ReadyBelow fields (column_of fields attr 0) (below_all fields attr)

    settle_sides-Fits :
        (n : ℕ) (op : CompOp) (l r : Ready vs ls) (a : Option (Arbiter vs))
        → compares op ≡ true
        → ReadyBelow n l
        → ReadyBelow n r
        → settle_sides vs ls op l r ≡ some a
        → Fits n a
    settle_sides-Fits n op l r none c h k e = tt
    settle_sides-Fits n op absent absent (some a) c h k e = absurd (cc)
    settle_sides-Fits n op absent bad (some a) c h k e = absurd (cc)
    settle_sides-Fits n op absent (ready o t) (some a) c h k e = absurd (cc)
    settle_sides-Fits n op bad r (some a) c h k e = absurd (cc)
    settle_sides-Fits n op (ready o t) absent (some a) c h k e = absurd (cc)
    settle_sides-Fits n op (ready o t) bad (some a) c h k e = absurd (cc)
    settle_sides-Fits n op (ready o t) (ready p u) (some a) c h k e =
        elim (Bool-cases (type_number t == type_number u)) [
          | inl same ↦
              let made : some (some (record { left = o; right = p; cmpop = op })) ≡ some (some a) =
                (rw same at e) in
              subst (Fits n) (some-injective made) (h, k, c)
          | inr other ↦ absurd (none-ne-some (rw other at e))
        ]

    make_arbiter-Fits :
        (fields : List TupleField) (c : Condition) (a : Option (Arbiter vs))
        → compares c.comp ≡ true
        → make_arbiter vs ls fields c ≡ some a
        → Fits (length fields) a
    unfolding make_arbiter
    make_arbiter-Fits fields c a compare made =
        settle_sides-Fits (length fields) c.comp _ _ a compare (look_up-ReadyBelow fields c.left)
          (look_up-ReadyBelow fields c.right) made

    settle_sides-bad : (op : CompOp) (l : Ready vs ls) → settle_sides vs ls op l bad ≡ none
    settle_sides-bad op absent = refl
    settle_sides-bad op bad = refl
    settle_sides-bad op (ready o t) = refl

    -- With a side that is absent now, the arbiter is not valid, if one can be made later.
    absent_left :
        (op : CompOp) (l r r' : Ready vs ls) {b : Option (Arbiter vs)}
        → (r ≡ absent) ⊎ (r' ≡ r)
        → settle_sides vs ls op l r' ≡ some b
        → settle_sides vs ls op absent r ≡ some none
    absent_left op l absent r' h made = refl
    absent_left op l bad r' (inl e) made = absurd (cc)
    absent_left op l bad r' (inr e) made =
        absurd (none-ne-some (sym (settle_sides-bad op l) ∙ rw e at made))
    absent_left op l (ready o t) r' h made = refl

    absent_right :
        (op : CompOp) (l l' r : Ready vs ls) {b : Option (Arbiter vs)}
        → l' ≡ l
        → settle_sides vs ls op l' r ≡ some b
        → settle_sides vs ls op l absent ≡ some none
    absent_right op absent l' r e made = refl
    absent_right op bad l' r e made = absurd (none-ne-some (rw e at made))
    absent_right op (ready o t) l' r e made = refl

    -- For fewer columns an arbiter can be made too, and is not valid or the same.
    make_arbiter-append :
        (fields more : List TupleField) (c : Condition) {b : Option (Arbiter vs)}
        → make_arbiter vs ls (fields ++ more) c ≡ some b
        → (a : Option (Arbiter vs)) × (make_arbiter vs ls fields c ≡ some a)
          × ((a ≡ none) ⊎ (a ≡ b))
    unfolding make_arbiter
    make_arbiter-append fields more c {b} made =
        let right_side = look_up-append fields more c.right in
        elim (look_up-append fields more c.left) [
          | inl no_left ↦ (none, rw no_left (absent_left c.comp _ _ _ right_side made), inl refl)
          | inr left ↦ elim right_side [
            | inl no_right ↦ (none, rw no_right (absent_right c.comp _ _ _ left made), inl refl)
            | inr right ↦ (b, rw (← left, ← right) made, inr refl)
          ]
        ]

    pub make_arbiters-Fits :
        (fields : List TupleField) (conds : List Condition) (arbiters : List (Option (Arbiter vs)))
        → All (λ c. compares c.comp ≡ true) conds
        → make_arbiters vs ls fields conds ≡ some arbiters
        → AllFit (length fields) arbiters
    unfolding make_arbiters
    make_arbiters-Fits fields [] arbiters all made =
        subst (AllFit (length fields)) (some-injective made) tt
    make_arbiters-Fits fields (c ∷ conds) arbiters (compare, all) made =
        let (a, made_a, rest) = >>=-eq-some (make_arbiter vs ls fields c) _ made in
        let (later, made_later, whole) = >>=-eq-some (make_arbiters vs ls fields conds) _ rest in
        subst (AllFit (length fields)) (some-injective whole) (
          make_arbiter-Fits fields c a compare made_a,
          make_arbiters-Fits fields conds later all made_later,
        )

    pub make_arbiters-append :
        (fields more : List TupleField) (conds : List Condition) (bs : List (Option (Arbiter vs)))
        → make_arbiters vs ls (fields ++ more) conds ≡ some bs
        → (arbiters : List (Option (Arbiter vs))) × (make_arbiters vs ls fields conds
            ≡ some arbiters)
          × Partial arbiters bs
    unfolding make_arbiters
    make_arbiters-append fields more [] bs made =
        ([], refl, subst (Partial []) (some-injective made) tt)
    make_arbiters-append fields more (c ∷ conds) bs made =
        let (b, made_b, rest) = >>=-eq-some (make_arbiter vs ls (fields ++ more) c) _ made in
        let (later, made_later, whole) =
          >>=-eq-some (make_arbiters vs ls (fields ++ more) conds) _ rest in
        let (a, made_a, part) = make_arbiter-append fields more c made_b in
        let (as', made_as, parts) = make_arbiters-append fields more conds later made_later in
        (
          a ∷ as',
          rw (made_a, made_as) refl,
          subst (Partial (a ∷ as')) (some-injective whole) (part, parts),
        )

    -- Behind more values an operand reads what it did.
    operand_value-append :
        (n : ℕ) (o : Operand vs) (r q : ValueRow vs)
        → IsBelow n o
        → n ≤ length r
        → (v : vs.Value) × (operand_value vs ls r o ≡ some v)
          × (operand_value vs ls (r ++ q) o ≡ some v)
    operand_value-append n (value v) r q h le = (v, refl, refl)
    operand_value-append n (column i) r q h le =
        let (v, at) = get_elem?-there r i (omega arith) in (v, at, get_elem?-append r q i at)

    judge_nulls-compares :
        (op : CompOp) (l r : Bool) (b : Option Bool)
        → compares op ≡ true
        → judge_nulls vs ls op l r b ≡ (if l || r then some false else b)
    unfolding judge_nulls
    judge_nulls-compares op l r b h = ground arith

    match_result-compares :
        (op : CompOp) (c : ℤ) → compares op ≡ true → (b : Bool) × (match_result op c ≡ some b)
    unfolding match_result
    match_result-compares equal_to c h = (_, refl)
    match_result-compares less_equal c h = (_, refl)
    match_result-compares not_equal c h = (_, refl)
    match_result-compares less_than c h = (_, refl)
    match_result-compares great_equal c h = (_, refl)
    match_result-compares great_than c h = (_, refl)
    match_result-compares is_null c h = absurd (cc)
    match_result-compares is_not_null c h = absurd (cc)
    match_result-compares no_op c h = absurd (cc)

    if_some : (c b : Bool) → (if c then some false else some b) ≡ some (if c then false else b)
    if_some true b = refl
    if_some false b = refl

    -- A judgement on a row that is wide enough is made, and stays the same behind more values.
    pub judge-append :
        (n : ℕ) (a : Option (Arbiter vs)) (r q : ValueRow vs)
        → Fits n a
        → n ≤ length r
        → (b : Bool) × (judge vs ls a r ≡ some b) × (judge vs ls a (r ++ q) ≡ some b)
    unfolding judge
    judge-append n none r q fits le = (true, refl, refl)
    judge-append n (some a) r q (left, right, compare) le =
        let (l, at_l, at_l') = operand_value-append n a.left r q left le in
        let (m, at_m, at_m') = operand_value-append n a.right r q right le in
        let (b, e) = match_result-compares a.cmpop (vs.compare l m) compare in
        let nulls =
          judge_nulls-compares a.cmpop (prints_null vs ls l) (prints_null vs ls m)
            (match_result a.cmpop (vs.compare l m)) compare in
        let null = prints_null vs ls l || prints_null vs ls m in
        let verdict = nulls ∙ (ap (λ k. if null then some false else k) e ∙ if_some null b) in
        ((if null then false else b), rw (at_l, at_m) verdict, rw (at_l', at_m') verdict)

    -- A row passes an arbiter for fewer columns if it passes the one for all columns.
    passes_before :
        (n : ℕ) (a b : Option (Arbiter vs)) (r q : ValueRow vs)
        → Fits n a
        → (a ≡ none) ⊎ (a ≡ b)
        → n ≤ length r
        → judge vs ls b (r ++ q) ≡ some true
        → judge vs ls a r ≡ some true
    unfolding judge
    passes_before n a b r q fit (inl invalid) wide e = rw invalid refl
    passes_before n a b r q fit (inr same) wide e =
        let (y, now, behind) = judge-append n a r q fit wide in now ∙ (sym behind ∙ rw same e)

    -- What arbiters for fewer columns refuse, those for all columns refuse with more values behind.
    pub judge_all-refuses :
        (n m : ℕ) (as' bs : List (Option (Arbiter vs))) (r q : ValueRow vs)
        → AllFit n as'
        → AllFit m bs
        → Partial as' bs
        → n ≤ length r
        → m ≤ length (r ++ q)
        → judge_all vs ls as' r ≡ some false
        → judge_all vs ls bs (r ++ q) ≡ some false
    unfolding judge_all
    judge_all-refuses n m [] [] r q fa fb p wide wider e = absurd (cc)
    judge_all-refuses n m [] (b ∷ bs) r q fa fb p wide wider e = absurd p
    judge_all-refuses n m (a ∷ as') [] r q fa fb p wide wider e = absurd p
    judge_all-refuses n m (a ∷ as') (b ∷ bs) r q (fit_a, fa) (fit_b, fb) (same, p) wide wider e =
        let (x, at_b, _) = judge-append m b (r ++ q) [] fit_b wider in
        elim (Bool-cases x) [
          | inl pass ↦
              let passed : judge vs ls b (r ++ q) ≡ some true = at_b ∙ ap some pass in
              let before = passes_before n a b r q fit_a same wide passed in
              rw passed (judge_all-refuses n m as' bs r q fa fb p wide wider (rw before at e))
          | inr fail ↦ rw (at_b, fail) refl
        ]

    -- A row that is wide enough is judged.
    pub judge_all-total :
        (n : ℕ) (arbiters : List (Option (Arbiter vs))) (r : ValueRow vs)
        → AllFit n arbiters
        → n ≤ length r
        → (b : Bool) × (judge_all vs ls arbiters r ≡ some b)
    unfolding judge_all
    judge_all-total n [] r fit wide = (true, refl)
    judge_all-total n (a ∷ arbiters) r (fit, fits) wide =
        let (x, at_a, _) = judge-append n a r [] fit wide in
        elim (Bool-cases x) [
          | inl pass ↦ let (b, e) = judge_all-total n arbiters r fits wide in (b, rw (at_a, pass) e)
          | inr fail ↦ (false, rw (at_a, fail) refl)
        ]
