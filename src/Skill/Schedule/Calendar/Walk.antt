-- ===== src/Skill/Schedule/Calendar/Walk.antt =====
-- The walk from a day to its year, month and day of the month, and the way back.
use skill_stew_api.Prelude.{
  ℕ, zero, suc, ◌+◌, ◌-◌, ◌≤◌, ◌<◌, ◌≡◌, ◌∙◌, refl, sym, subst, arith, ltb, inl, inr, Bool-cases,
}
use skill_stew_api.Skill.Schedule.Calendar.{
  DateParts, is_leap, days_in_year, days_in_month, days_before_year, days_before_month, utc_day,
  month_walk, year_walk, parts_of_day,
}

pub days_before_year-suc : (y : ℕ) → days_before_year (suc y) ≡ days_before_year y + days_in_year y
unfolding days_before_year days_in_year is_leap
days_before_year-suc y = ground arith

pub days_before_month-year : (y : ℕ) → days_before_month y 12 ≡ days_in_year y
unfolding days_before_month days_in_month days_in_year
days_before_month-year y = elim (Bool-cases (is_leap y)) [
  | inl e ↦ rw (e, days_before_month, days_in_month, days_in_year) refl
  | inr e ↦ rw (e, days_before_month, days_in_month, days_in_year) refl
]

days_before_year-zero : days_before_year 0 ≡ 0
unfolding days_before_year
days_before_year-zero = refl

pub days_in_year-pos : (y : ℕ) → 365 ≤ days_in_year y
unfolding days_in_year
days_in_year-pos y = ground arith

pub days_in_month_le : (y m : ℕ) → days_in_month y m ≤ 31
unfolding days_in_month
days_in_month_le y m = ground arith

days_before_month-zero : (y r : ℕ) → days_before_month y 0 + r ≡ r
unfolding days_before_month
days_before_month-zero y r = omega arith

days_before_month-suc :
    (y m : ℕ) → days_before_month y (suc m) ≡ days_before_month y m + days_in_month y (suc m)
unfolding days_before_month
days_before_month-suc y m = refl

-- The month and the day of the month that are `d` days into the year `y`.
pub record IsDayOf (y d : ℕ) (p : DateParts) : Type 0 where
  pub month : ℕ
  pub same_year : p.year ≡ y
  pub same_month : p.month ≡ suc month
  pub in_year : month < 12
  pub day_from : 1 ≤ p.day
  pub day_to : p.day ≤ days_in_month y (suc month)
  pub sum : days_before_month y month + p.day ≡ suc d

month_walk_lem :
    (fuel y m d : ℕ)
    → m + fuel ≡ 12
    → days_before_month y m + d < days_before_month y 12
    → IsDayOf y (days_before_month y m + d) (month_walk fuel y m d)
unfolding month_walk
month_walk_lem zero y m d e h = absurd (ground arith)
month_walk_lem (suc fuel) y m d e h = elim (Bool-cases (ltb d (days_in_month y (suc m)))) [
  | inl here ↦
      rw (here, month_walk)
        (record {
          month = m;
          same_year = refl;
          same_month = refl;
          in_year = omega (arith, e);
          day_from = omega arith;
          day_to = ground (arith, here);
          sum = omega arith;
        })
  | inr later ↦
      let past : days_in_month y (suc m) ≤ d = ground (arith, later) in
      let next = days_before_month-suc y m in
      let whole : days_before_month y (suc m) + (d - days_in_month y (suc m))
          ≡ days_before_month y m + d =
        omega (arith, past, next) in
      let walked =
        month_walk_lem fuel y (suc m) (d - days_in_month y (suc m)) (omega (arith, e))
          (omega (arith, whole, h)) in
      rw (later, month_walk)
        (subst (λ n. IsDayOf y n (month_walk fuel y (suc m) (d - days_in_month y (suc m)))) whole
          walked)
]

-- The year that the walk ends in, and the day of that year.
year_walk_lem :
    (fuel y d : ℕ)
    → d < fuel
    → (z : ℕ) × (r : ℕ) × (days_before_year z + r ≡ days_before_year y + d)
      × (r < days_in_year z)
      × (year_walk fuel y d ≡ month_walk 12 z 0 r)
      × (y ≤ z)
unfolding year_walk
year_walk_lem zero y d h = absurd (ground arith)
year_walk_lem (suc fuel) y d h = elim (Bool-cases (ltb d (days_in_year y))) [
  | inl here ↦ (y, d, refl, ground (arith, here), rw (here, year_walk) refl, omega arith)
  | inr later ↦
      let past : days_in_year y ≤ d = ground (arith, later) in
      let (z, r, sum, inside, same, le) =
        year_walk_lem fuel (suc y) (d - days_in_year y)
          (omega (arith, h, past, days_in_year-pos y)) in
      (
        z,
        r,
        omega (arith, sum, past, days_before_year-suc y),
        inside,
        rw (later, year_walk) same,
        omega (arith, le),
      )
]

-- Where the day comes from: its year and its place in the year.
pub record Dated (d : ℕ) (p : DateParts) : Type 0 where
  pub into : ℕ
  pub sum : days_before_year p.year + into ≡ d
  pub inside : into < days_in_year p.year
  pub day_of : IsDayOf p.year into p

parts-Dated :
    (d z r : ℕ) (p : DateParts)
    → days_before_year z + r ≡ d
    → r < days_in_year z
    → IsDayOf z r p
    → Dated d p
parts-Dated d z r p sum inside day = record {
  into = r;
  sum = rw day.same_year sum;
  inside = rw day.same_year inside;
  day_of = subst (λ y. IsDayOf y r p) (sym day.same_year) day;
}

walk_from_zero : (d : ℕ) → parts_of_day d ≡ year_walk (suc d) 0 d
unfolding parts_of_day
walk_from_zero d = refl

pub parts_of_day-Dated : (d : ℕ) → Dated d (parts_of_day d)
parts_of_day-Dated d =
    let (z, r, sum, inside, same, le) = year_walk_lem (suc d) 0 d (omega arith) in
    let start : days_before_month z 0 + r ≡ r = days_before_month-zero z r in
    let walked =
      month_walk_lem 12 z 0 r refl (omega (arith, start, inside, days_before_month-year z)) in
    let day = subst (λ n. IsDayOf z n (month_walk 12 z 0 r)) start walked in
    parts-Dated d z r (parts_of_day d) (omega (arith, sum, days_before_year-zero)) inside
      (subst (IsDayOf z r) (sym (walk_from_zero d ∙ same)) day)

-- A date is the day that it was made from, after the years that `Date.UTC` moves.
utc_day_of : (d : ℕ) (p : DateParts) → 100 ≤ p.year → Dated d p → utc_day p ≡ d
unfolding utc_day
utc_day_of d p modern h =
    let day = h.day_of in ground (arith, h.sum, day.same_month, day.in_year, day.sum, day.day_from)

-- `Date.UTC` of the year, the month and the day of a day is that day, from the year 100 on.
pub utc_day-parts_of_day : (d : ℕ) → 100 ≤ (parts_of_day d).year → utc_day (parts_of_day d) ≡ d
utc_day-parts_of_day d modern = utc_day_of d (parts_of_day d) modern (parts_of_day-Dated d)

-- The years of days, in numbers.
year_from_of : (d : ℕ) (p : DateParts) → Dated d p → 36525 ≤ d → 100 ≤ p.year
unfolding days_before_year days_in_year
year_from_of d p h le = ground (arith, h.sum, h.inside)

pub year_from : (d : ℕ) → 36525 ≤ d → 100 ≤ (parts_of_day d).year
year_from d = year_from_of d (parts_of_day d) (parts_of_day-Dated d)

year_to_of : (d : ℕ) (p : DateParts) → Dated d p → d < 3652425 → p.year < 10000
unfolding days_before_year
year_to_of d p h le = ground (arith, h.sum)

pub year_to : (d : ℕ) → d < 3652425 → (parts_of_day d).year < 10000
year_to d = year_to_of d (parts_of_day d) (parts_of_day-Dated d)
