-- ===== src/Skill/Schedule/Calendar.antt =====
-- What skill/src/utils/cohortSchedule.ts uses of `Date`, on the proleptic Gregorian calendar. An
-- instant is its number of milliseconds, a day its number of days, since the start of the year 0,
-- so that none of those that the code makes is negative.
pub mod Walk
use Prim.Native.Char.{Char}
use Prim.Native.String.{◌∷◌ as text_cons, [] as text_nil}
use skill_stew_api.Prelude.{
  ℕ, zero, suc, ◌+◌, ◌-◌, ◌*◌, ◌/◌, ◌%◌, Bool, ◌||◌, ◌&&◌, not, true, false, ◌==◌, ltb, leb, String,
  if◌then◌else◌,
}

pub record DateParts : Type 0 where
  pub year : ℕ
  pub month : ℕ
  pub day : ℕ

abbrev pub day_ms : ℕ
day_ms = 24 * 60 * 60 * 1000

pub is_leap : ℕ → Bool
is_leap y = if y % 4 == 0 then (if y % 100 == 0 then y % 400 == 0 else true) else false

pub days_in_year : ℕ → ℕ
unfolding is_leap
days_in_year y = if is_leap y then 366 else 365

pub days_in_month : ℕ → ℕ → ℕ
unfolding is_leap
days_in_month y m =
    if m == 2
    then (if is_leap y then 29 else 28)
    else if m == 4 || m == 6 || m == 9 || m == 11
    then 30
    else 31

-- The days before the first of January, and those of the first `m` months.
pub days_before_year : ℕ → ℕ
days_before_year y = y * 365 + (y + 3) / 4 - (y + 99) / 100 + (y + 399) / 400

pub days_before_month : ℕ → ℕ → ℕ
unfolding days_in_month
days_before_month y zero = 0
days_before_month y (suc m) = days_before_month y m + days_in_month y (suc m)

-- `Date.UTC(year, month - 1, day)` as a day: a year below 100 is one of the 20th century, and a month
-- past December one of a later year.
unfoldable pub utc_day : DateParts → ℕ
unfolding days_before_year days_before_month
utc_day p =
    let y = if leb p.year 99 then 1900 + p.year else p.year in
    if p.month == 0
    then days_before_year (y - 1) + days_before_month (y - 1) 11 + p.day - 1
    else let y' = y + (p.month - 1) / 12 in
      days_before_year y' + days_before_month y' ((p.month - 1) % 12) + p.day - 1

-- `getUTCDay`, with Sunday as 0.
abbrev pub utc_weekday : ℕ → ℕ
utc_weekday d = (d + 6) % 7

-- The month and the day of the day `d` of a year, from the month `suc m` on.
month_walk : ℕ → ℕ → ℕ → ℕ → DateParts
unfolding days_in_month
month_walk zero y m d = record { year = y; month = suc m; day = suc d }
month_walk (suc fuel) y m d =
    let rest = month_walk fuel y (suc m) (d - days_in_month y (suc m)) in
    if ltb d (days_in_month y (suc m))
    then record { year = y; month = suc m; day = suc d }
    else rest

-- The date of the day `d` counted from the start of the year `y`.
year_walk : ℕ → ℕ → ℕ → DateParts
unfolding days_in_year month_walk
year_walk zero y d = month_walk 12 y 0 d
year_walk (suc fuel) y d =
    let rest = year_walk fuel (suc y) (d - days_in_year y) in
    if ltb d (days_in_year y) then month_walk 12 y 0 d else rest

-- `getUTCFullYear`, `getUTCMonth() + 1` and `getUTCDate`
unfoldable pub parts_of_day : ℕ → DateParts
unfolding year_walk
parts_of_day d = year_walk (suc d) 0 d

abbrev pub digit : ℕ → Char
digit d =
    if d == 0
    then "0"
    else if d == 1
    then "1"
    else if d == 2
    then "2"
    else if d == 3
    then "3"
    else if d == 4
    then "4"
    else if d == 5
    then "5"
    else if d == 6
    then "6"
    else if d == 7
    then "7"
    else if d == 8
    then "8"
    else "9"

abbrev pub digits : ℕ → String → String
digits n rest = text_cons (digit (n / 10 % 10)) (text_cons (digit (n % 10)) rest)

-- YYYY-MM-DD
unfoldable pub date_text : DateParts → String
date_text p =
    digits (p.year / 100) (
      digits (p.year % 100)
        (text_cons "-" (digits p.month (text_cons "-" (digits p.day text_nil)))))

-- `toISOString().slice(0, 10)`: a year past 9999 is written with a sign and six digits.
unfoldable pub iso_date : ℕ → String
iso_date d =
    let p = parts_of_day d in
    if ltb p.year 10000
    then date_text p
    else text_cons "+" (
        digits (p.year / 10000)
          (digits (p.year / 100) (digits p.year (text_cons "-" (digits p.month text_nil)))))
