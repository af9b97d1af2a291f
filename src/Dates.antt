-- ===== src/Dates.antt =====
-- Dates: value_init_dates and char_to_int of src/observer/sql/parser/parse.cpp, check_dates of
-- src/observer/storage/common/table.cpp and int_to_char of src/observer/sql/executor/tuple.cpp.
--
-- A text is the list of its bytes and a date is an int, yyyymmdd. The ints are unbounded here; those
-- of the literals that the scanner accepts stay below 10 ^ 8. A loop over bytes has the rounds left.
pub mod Calendar
pub mod Printed
mod Tests
use oceanbase.Base.{
  ℕ, zero, suc, ◌+◌, ◌-◌, ◌*◌, ◌/◌, ◌%◌, Bool, not, ◌&&◌, ◌||◌, Option, none, some, List, [], ◌∷◌,
  ◌==◌, ltb, if◌then◌else◌, length, get_or,
}
use oceanbase.Base.First.{first_from}
use oceanbase.Base.Int.{ℤ, pos, negsuc, ◌+ℤ◌, ◌-ℤ◌, ◌*ℤ◌}
use oceanbase.Rc.{Rc, success, invalid_argument}

-- The loop of char_to_int from the byte `i` on.
unfoldable pub digits_from : List ℕ → ℕ → ℕ → ℤ → ℤ
digits_from v zero i re = re
digits_from v (suc rounds) i re =
    digits_from v rounds (i + 1) (re *ℤ pos 10 +ℤ pos (get_or v i 0) -ℤ pos b'0')

-- char_to_int of the bytes from `l` on and before `r`.
unfoldable pub char_to_int : List ℕ → ℕ → ℕ → ℤ
unfolding digits_from
char_to_int v l r = digits_from v (r - l) l (pos 0)

abbrev pub is_dash : List ℕ → ℕ → Bool
is_dash v i = get_or v i 0 == b'-'

-- The second loop of value_init_dates, downwards; `rounds` is one more than the place it looks at.
unfoldable pub last_dash : List ℕ → ℕ → Option ℕ
last_dash v zero = none
last_dash v (suc rounds) =
    let rest = last_dash v rounds in if is_dash v rounds then some rounds else rest

-- What value_init_dates does after its loops; with no dash `l` and `r` are not set, here `none`.
unfoldable pub read_parts : List ℕ → Option ℕ → Option ℕ → Option ℤ
unfolding char_to_int
read_parts v none r = none
read_parts v (some l) none = none
read_parts v (some l) (some r) = some (
    char_to_int v 0 l *ℤ pos 10000
    +ℤ char_to_int v (l + 1) r *ℤ pos 100
    +ℤ char_to_int v (r + 1) (length v))

unfoldable pub value_init_dates : List ℕ → Option ℤ
unfolding first_from last_dash read_parts
value_init_dates v = read_parts v (first_from (is_dash v) (length v) 0) (last_dash v (length v))

abbrev pub is_leap : ℕ → Bool
is_leap yy = yy % 400 == 0 || (yy % 4 == 0 && not (yy % 100 == 0))

-- Table::check_dates. The remainder of a negative int is at most 0, so that `dd < 1`.
unfoldable pub check_dates : ℤ → Rc
check_dates (negsuc n) = invalid_argument
check_dates (pos dates_check) =
    let yy = dates_check / 10000 in
    let mm = dates_check % 10000 / 100 in
    let dd = dates_check % 100 in
    if ltb dd 1
    then invalid_argument
    else if mm == 1 || mm == 3 || mm == 5 || mm == 7 || mm == 8 || mm == 10 || mm == 12
    then (if ltb 31 dd then invalid_argument else success)
    else if mm == 4 || mm == 6 || mm == 9 || mm == 11
    then (if ltb 30 dd then invalid_argument else success)
    else if is_leap yy
    then (if ltb 29 dd then invalid_argument else success)
    else if ltb 28 dd
    then invalid_argument
    else success

-- A loop of int_to_char that writes the last digits of a number in front of what stands behind.
unfoldable pub put_digits : ℕ → ℕ → List ℕ → List ℕ
put_digits zero n behind = behind
put_digits (suc rounds) n behind = put_digits rounds (n / 10) ((n % 10 + b'0') ∷ behind)

-- TupleRecordConverter::int_to_char of a date that is not negative
unfoldable pub int_to_char : ℕ → List ℕ
unfolding put_digits
int_to_char dates_int =
    let yy = dates_int / 10000 in
    let mm = dates_int % 10000 / 100 in
    let dd = dates_int % 100 in put_digits 4 yy (b'-' ∷ put_digits 2 mm (b'-' ∷ put_digits 2 dd []))
