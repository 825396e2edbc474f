-- ===== src/Dates/Written.antt =====
-- Dates as text: reading what was written, and the order of the strings.
use new_day.Prelude.{ap, ℕ, ◌+◌, ◌-◌, ◌*◌, ◌/◌, ◌%◌, ◌<◌, ◌≡◌, true, some, arith, [], ◌∷◌}
use new_day.Prelude.Strings.{Text}
use new_day.Dates.{read_date, date_text, digit, is_digit}

is_digit-digit : (d place : ℕ) → is_digit (digit d place) ≡ true
unfolding is_digit digit
is_digit-digit d place = ground arith

digit_value : (d place : ℕ) → digit d place - 48 ≡ d / place % 10
unfolding digit
digit_value d place = omega arith

-- The digits of a number spell it.
digits_spell :
    (d : ℕ)
    → d < 100000000
    → (digit d 10000000 - 48) * 10000000
        + (digit d 1000000 - 48) * 1000000
        + (digit d 100000 - 48) * 100000
        + (digit d 10000 - 48) * 10000
        + (digit d 1000 - 48) * 1000
        + (digit d 100 - 48) * 100
        + (digit d 10 - 48) * 10
        + (digit d 1 - 48)
      ≡ d
digits_spell d h = simp digit_value (omega arith)

pub read_date-date_text : (d : ℕ) → d < 100000000 → read_date (date_text d) ≡ some d
unfolding read_date date_text
read_date-date_text d h = simp is_digit-digit (ap some (digits_spell d h))

day_text : ℕ → Text
day_text d = digit d 10 ∷ digit d 1 ∷ []

month_text : ℕ → Text
unfolding day_text
month_text d = digit d 1000 ∷ digit d 100 ∷ b'-' ∷ day_text d
