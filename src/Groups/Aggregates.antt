-- ===== src/Groups/Aggregates.antt =====
-- The aggregation functions of group_by over the values of a group that do not print as NULL.
use mathlib.Core.List.{foldl}
use oceanbase.Base.{
  ℕ, ◌≡◌, ◌⊎◌, Bool, false, ◌&&◌, ◌||◌, ◌==◌, Option, none, some, List, [], ◌∷◌, length,
  if◌then◌else◌,
}
use oceanbase.Base.Int.{pos, ◌≤ℤ◌, ltb_ℤ}
use oceanbase.Tuples.{Values, Tuple}
use oceanbase.Groups.{
  Aggregate, count, max, min, avg, Floats, Printing, Sums, or_null, float_from_string, null_string,
}

-- The four letters of NULL, each in either case
abbrev pub reads_null : List ℕ → Bool
reads_null (a ∷ b ∷ c ∷ d ∷ []) =
    (a == b'n' || a == b'N')
    && ((b == b'u' || b == b'U') && ((c == b'l' || c == b'L') && (d == b'l' || d == b'L')))
reads_null _ = false

-- The quotient of a sum and a number, to two decimals: a half is added to its hundredfold, which is
-- cut to an int and divided by 100 again.
abbrev pub rounded_mean : (fs : Floats) → ℕ → fs.Float → fs.Float
rounded_mean fs n sum =
    let hundreds = fs.widen (fs.mul (fs.div sum (fs.of_int (pos n))) (fs.of_int (pos 100))) in
    let cut = fs.of_int (fs.truncate (fs.add_double hundreds fs.half)) in
    fs.narrow (fs.div_double (fs.widen cut) (fs.widen (fs.of_int (pos 100))))

module _ {A : Type 0} where
  abbrev pub In : A → List A → Type 0
  In a [] = ⊥
  In a (x ∷ xs) = (x ≡ a) ⊎ In a xs

  abbrev pub All {κ} : (A → Type κ) → List A → Type κ
  All P [] = Unit
  All P (x ∷ xs) = P x × All P xs

-- None if there is no value, or else one of the values, and all of them are below it.
abbrev pub IsBest : {V : Type 0} → (V → V → Type 0) → List V → Option V → Type 0
IsBest below xs none = xs ≡ []
IsBest below xs (some m) = In m xs × All (λ v. below v m) xs

module _ (vs : Values) where
  open vs use {Value, compare, compare_le, compare_ge, compare_trans}

  abbrev pub le : Value → Value → Type 0
  le a b = compare a b ≤ℤ pos 0

  abbrev pub ge : Value → Value → Type 0
  ge a b = compare b a ≤ℤ pos 0

  -- The greatest one of the values
  abbrev pub IsMaximum : List Value → Option Value → Type 0
  IsMaximum = IsBest le

  -- The least one of the values
  abbrev pub IsMinimum : List Value → Option Value → Type 0
  IsMinimum = IsBest ge

  abbrev larger_of : Value → Value → Value
  larger_of m v = if ltb_ℤ (compare m v) (pos 0) then v else m

  abbrev smaller_of : Value → Value → Value
  smaller_of m v = if ltb_ℤ (pos 0) (compare m v) then v else m

  module _ (fs : Floats) (printing : Printing vs fs) where
    open printing use {to_string, int_value, float_value, string_value}

    -- The values of a group at a column, less those that print as NULL
    abbrev pub present : ℕ → List (Tuple vs) → List Value
    present loc [] = []
    present loc (t ∷ ts) =
        if reads_null (to_string (t loc)) then present loc ts else t loc ∷ present loc ts

    abbrev TakenSums : Type 0
    TakenSums = Sums vs fs printing

    abbrev add_value : fs.Float → Value → fs.Float
    add_value total v = fs.add total (float_from_string fs (to_string v))

    abbrev is_empty : Bool → List Value → Bool
    is_empty b [] = b
    is_empty b (x ∷ xs) = false

    -- What an aggregation function says of the values of a group.
    abbrev pub Aggregated : Aggregate → List Value → Value → Type 0
    Aggregated count xs v = v ≡ int_value (length xs)
    Aggregated max xs v = (m : Option Value) × IsMaximum xs m × (v ≡ or_null vs fs printing m)
    Aggregated min xs v = (m : Option Value) × IsMinimum xs m × (v ≡ or_null vs fs printing m)
    Aggregated avg [] v = v ≡ string_value null_string
    Aggregated avg (x ∷ xs) v =
        v
        ≡ float_value
            (rounded_mean fs (length (x ∷ xs)) (foldl add_value (fs.of_int (pos 0)) (x ∷ xs)))
