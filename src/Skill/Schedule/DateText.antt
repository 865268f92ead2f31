-- ===== src/Skill/Schedule/DateText.antt =====
-- Dates as texts: `formatDateOnly` and `parseDateOnly` against each other.
use Prim.Native.Char.{code}
use skill_stew_api.Prelude.{
  ℕ, zero, suc, ◌+◌, ◌/◌, ◌%◌, ◌≤◌, ◌<◌, ◌≡◌, refl, ap, true, some, List, [], ◌∷◌, arith, String,
}
use skill_stew_api.Effect.{ok}
use skill_stew_api.Skill.Schedule.{
  codes, is_digit, two_digits, parse_date_codes, parse_date_only, to_utc_midnight, format_date_only,
}
use skill_stew_api.Skill.Schedule.Calendar.{
  DateParts, digit, digits, date_text, iso_date, parts_of_day,
}
use skill_stew_api.Skill.Schedule.Calendar.Walk.{
  days_in_month_le, parts_of_day-Dated, utc_day-parts_of_day,
}

abbrev digit_code : ℕ → ℕ
digit_code k = b'0' + k

code_of_digit : (k : ℕ) → k < 10 → code (digit k) ≡ digit_code k
code_of_digit zero h = refl
code_of_digit (suc zero) h = refl
code_of_digit (suc (suc zero)) h = refl
code_of_digit (suc (suc (suc zero))) h = refl
code_of_digit (suc (suc (suc (suc zero)))) h = refl
code_of_digit (suc (suc (suc (suc (suc zero))))) h = refl
code_of_digit (suc (suc (suc (suc (suc (suc zero)))))) h = refl
code_of_digit (suc (suc (suc (suc (suc (suc (suc zero))))))) h = refl
code_of_digit (suc (suc (suc (suc (suc (suc (suc (suc zero)))))))) h = refl
code_of_digit (suc (suc (suc (suc (suc (suc (suc (suc (suc zero))))))))) h = refl
code_of_digit (suc (suc (suc (suc (suc (suc (suc (suc (suc (suc k)))))))))) h = absurd (omega arith)

is_digit_of : (k : ℕ) → is_digit (digit_code (k % 10)) ≡ true
is_digit_of k = ground arith

codes-digits :
    (n : ℕ) (rest : String)
    → codes (digits n rest) ≡ digit_code (n / 10 % 10) ∷ digit_code (n % 10) ∷ codes rest
codes-digits n rest =
    rw (code_of_digit (n / 10 % 10) (omega arith), code_of_digit (n % 10) (omega arith)) refl

two_digits_of : (n : ℕ) → n < 100 → two_digits (digit_code (n / 10 % 10)) (digit_code (n % 10)) ≡ n
two_digits_of n h = omega (arith, h)

-- The codes of a date's text, digit by digit.
module _ (p : DateParts) where
  abbrev date_codes : List ℕ
  date_codes =
      digit_code (p.year / 100 / 10 % 10)
      ∷ digit_code (p.year / 100 % 10)
      ∷ digit_code (p.year % 100 / 10 % 10)
      ∷ digit_code (p.year % 100 % 10)
      ∷ b'-'
      ∷ digit_code (p.month / 10 % 10)
      ∷ digit_code (p.month % 10)
      ∷ b'-'
      ∷ digit_code (p.day / 10 % 10)
      ∷ digit_code (p.day % 10)
      ∷ []

  codes-date_text : codes (date_text p) ≡ date_codes
  unfolding date_text
  codes-date_text =
      rw
        (
          codes-digits (p.year / 100),
          codes-digits (p.year % 100),
          codes-digits p.month,
          codes-digits p.day,
        )
        refl

  parse-date_codes :
      p.year < 10000 → p.month < 100 → p.day < 100 → parse_date_codes date_codes ≡ some p
  unfolding parse_date_codes
  parse-date_codes y m d =
      rw
        (
          is_digit_of (p.year / 100 / 10),
          is_digit_of (p.year / 100),
          is_digit_of (p.year % 100 / 10),
          is_digit_of (p.year % 100),
          is_digit_of (p.month / 10),
          is_digit_of p.month,
          is_digit_of (p.day / 10),
          is_digit_of p.day,
        )
        (ap some (
          ground (
            arith,
            two_digits_of (p.year / 100),
            two_digits_of (p.year % 100),
            two_digits_of p.month,
            two_digits_of p.day,
          )))

parse_date_only_text :
    (p : DateParts)
    → p.year < 10000
    → p.month < 100
    → p.day < 100
    → parse_date_only (date_text p) ≡ ok p
unfolding parse_date_only
parse_date_only_text p y m d = rw (codes-date_text p, parse-date_codes p y m d) refl

iso_date_lem : (d : ℕ) → (parts_of_day d).year < 10000 → iso_date d ≡ date_text (parts_of_day d)
unfolding iso_date
iso_date_lem d h = ground arith

-- Up to the year 9999, the text of a day parses to the day's year, month and day of the month.
pub parse_date_only-format_date_only :
    (d : ℕ)
    → (parts_of_day d).year < 10000
    → parse_date_only (format_date_only d) ≡ ok (parts_of_day d)
parse_date_only-format_date_only d modern =
    let day = (parts_of_day-Dated d).day_of in
    let days = days_in_month_le (parts_of_day d).year (suc day.month) in
    rw (iso_date_lem d modern) (
      parse_date_only_text (parts_of_day d) modern (omega (arith, day.same_month, day.in_year))
        (omega (arith, day.day_to, days)))

-- For a day of the years 100 to 9999, the text that `formatDateOnly` gives for it is read back by
-- `toUtcMidnight` as the same day.
pub to_utc_midnight-format_date_only :
    (d : ℕ)
    → 100 ≤ (parts_of_day d).year
    → (parts_of_day d).year < 10000
    → to_utc_midnight (format_date_only d) ≡ ok d
unfolding to_utc_midnight
to_utc_midnight-format_date_only d old modern =
    rw (parse_date_only-format_date_only d modern, utc_day-parts_of_day d old) refl
