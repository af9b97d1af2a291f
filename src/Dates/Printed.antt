-- ===== src/Dates/Printed.antt =====
-- Dates that are printed by int_to_char and read again by value_init_dates.
use mathlib.Core.Option
use oceanbase.Base.{ℕ, ◌+◌, ◌*◌, ◌/◌, ◌%◌, ◌^◌, ◌<◌, ◌≡◌, ◌≢◌, ap, ◌∙◌, List, [], ◌∷◌, some, arith}
use oceanbase.Base.First.{first_from}
use oceanbase.Base.Int.{pos, pos_part, ◌+ℤ◌, ◌-ℤ◌, ◌*ℤ◌}
use oceanbase.Dates.{value_init_dates, int_to_char, is_dash, char_to_int, read_parts, last_dash}

abbrev digit : ℕ → ℕ
digit d = d + b'0'

-- Nothing that stands for a digit is a dash.
digit-ne-dash : (d : ℕ) → digit d ≢ b'-'
digit-ne-dash d e = absurd (omega arith)

digit_step : (n d : ℕ) → pos n *ℤ pos 10 +ℤ pos (digit d) -ℤ pos b'0' ≡ pos (n * 10 + d)
unfolding ◌+ℤ◌ ◌-ℤ◌ ◌*ℤ◌
digit_step n d = ground arith

combine :
    (y m d : ℕ) → pos y *ℤ pos 10000 +ℤ pos m *ℤ pos 100 +ℤ pos d ≡ pos (y * 10000 + m * 100 + d)
unfolding ◌+ℤ◌ ◌*ℤ◌
combine y m d = ground arith

-- The text yyyy-mm-dd with these digits.
abbrev date_text : (a b c d e f g h : ℕ) → List ℕ
date_text a b c d e f g h =
    digit a ∷ digit b ∷ digit c ∷ digit d ∷ b'-' ∷ digit e ∷ digit f ∷ b'-' ∷ digit g ∷ digit h ∷ []

abbrev date_of : (a b c d e f g h : ℕ) → ℕ
date_of a b c d e f g h =
    (a * 1000 + b * 100 + c * 10 + d) * 10000 + (e * 10 + f) * 100 + (g * 10 + h)

module _ (a b c d e f g h : ℕ) where
  abbrev text : List ℕ
  text = date_text a b c d e f g h

  first_dash : first_from (is_dash text) 10 0 ≡ some 4
  unfolding first_from
  first_dash = ground arith

  last_dash_lem : last_dash text 10 ≡ some 7
  unfolding last_dash
  last_dash_lem = ground arith

  year_read : char_to_int text 0 4 ≡ pos (a * 1000 + b * 100 + c * 10 + d)
  unfolding char_to_int
  year_read = simp digit_step (ap pos (omega arith))

  month_read : char_to_int text 5 7 ≡ pos (e * 10 + f)
  unfolding char_to_int
  month_read = simp digit_step (ap pos (omega arith))

  day_read : char_to_int text 8 10 ≡ pos (g * 10 + h)
  unfolding char_to_int
  day_read = simp digit_step (ap pos (omega arith))

  value_init_dates-date_text : value_init_dates text ≡ some (pos (date_of a b c d e f g h))
  unfolding value_init_dates
  value_init_dates-date_text =
      rw (first_dash, read_parts)
        (rw (last_dash_lem, read_parts)
          (rw (year_read, month_read, day_read) (ap some (combine _ _ _))))

int_to_char-date_text :
    (a b c d e f g h : ℕ)
    → a < 10
    → b < 10
    → c < 10
    → d < 10
    → e < 10
    → f < 10
    → g < 10
    → h < 10
    → int_to_char (date_of a b c d e f g h) ≡ date_text a b c d e f g h
unfolding int_to_char
int_to_char-date_text a b c d e f g h la lb lc ld le lf lg lh = ground arith

-- The digits of a number below 10 ^ 8 make a text that int_to_char prints.
printed_lem :
    (n : ℕ)
    → n < 10 ^ 8
    → int_to_char n
      ≡ date_text
          (n / 10000000)
          (n / 1000000 % 10)
          (n / 100000 % 10)
          (n / 10000 % 10)
          (n / 1000 % 10)
          (n / 100 % 10)
          (n / 10 % 10)
          (n % 10)
unfolding int_to_char
printed_lem n h = ground arith

-- Each number below 10 ^ 8, printed as a date, is read as itself.
pub value_init_dates-int_to_char :
    (n : ℕ) → n < 10 ^ 8 → value_init_dates (int_to_char n) ≡ some (pos n)
value_init_dates-int_to_char n h =
    rw (printed_lem n h)
      (value_init_dates-date_text _ _ _ _ _ _ _ _ ∙ ap (λ k. some (pos k)) (omega arith))

-- Each text of four, two and two digits, with dashes between, is read as a date that is printed as this text.
pub int_to_char-value_init_dates :
    (a b c d e f g h : ℕ)
    → a < 10
    → b < 10
    → c < 10
    → d < 10
    → e < 10
    → f < 10
    → g < 10
    → h < 10
    → Option.map (λ z. int_to_char (pos_part z)) (value_init_dates (date_text a b c d e f g h))
      ≡ some (date_text a b c d e f g h)
int_to_char-value_init_dates a b c d e f g h la lb lc ld le lf lg lh =
    rw (value_init_dates-date_text a b c d e f g h)
      (ap some (int_to_char-date_text a b c d e f g h la lb lc ld le lf lg lh))
