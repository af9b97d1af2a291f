-- ===== src/Dates/Tests.antt =====
-- Dates read, checked and printed.
use oceanbase.Base.{ℕ, ◌≡◌, ◌↔◌, arith, refl, List, [], ◌∷◌, some}
use oceanbase.Base.Int.{pos, ◌+ℤ◌, ◌-ℤ◌, ◌*ℤ◌}
use oceanbase.Rc.{success, invalid_argument}
use oceanbase.Dates.{value_init_dates, check_dates, int_to_char}
use oceanbase.Dates.Calendar.{IsDay, check_dates-IsDay}
use oceanbase.Dates.Printed.{value_init_dates-int_to_char}

-- 2021-2-29
abbrev short_date : List ℕ
short_date = b'2' ∷ b'0' ∷ b'2' ∷ b'1' ∷ b'-' ∷ b'2' ∷ b'-' ∷ b'2' ∷ b'9' ∷ []

short_date_read : value_init_dates short_date ≡ some (pos 20210229)
unfolding value_init_dates ◌+ℤ◌ ◌-ℤ◌ ◌*ℤ◌
short_date_read = refl

not_a_day : check_dates (pos 20210229) ≡ invalid_argument
unfolding check_dates
not_a_day = refl

-- 2020-2-29 is a day.
check_dates-IsDay_example : (check_dates (pos 20200229) ≡ success) ↔ IsDay 2020 2 29
check_dates-IsDay_example = check_dates-IsDay 20200229 (omega arith) (omega arith)

value_init_dates-int_to_char_example : value_init_dates (int_to_char 20200229) ≡ some (pos 20200229)
value_init_dates-int_to_char_example = value_init_dates-int_to_char 20200229 (omega arith)
