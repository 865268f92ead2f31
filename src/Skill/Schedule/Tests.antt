-- ===== src/Skill/Schedule/Tests.antt =====
-- The schedule of one cohort in India, and the properties of schedules applied to it.
use skill_stew_api.Prelude.{
  ℕ, ◌≡◌, ◌≢◌, refl, arith, Option, none, some, List, [], ◌∷◌, All, String, false, map,
}
use skill_stew_api.Prelude.Sorting.{sort, insert}
use skill_stew_api.Effect.{ok}
use skill_stew_api.Skill.Workshop.{Session}
use skill_stew_api.Skill.Schedule.Calendar.{utc_day, parts_of_day, date_text, iso_date}
use skill_stew_api.Skill.Schedule.DateText.{to_utc_midnight-format_date_only}
use skill_stew_api.Skill.Schedule.Sessions.{derive_cohort_sessions-weekdays}
use skill_stew_api.Skill.Schedule.Window.{Bounded, derive_cohort_window-Bounded}
use skill_stew_api.Skill.Schedule.Offsets.{derive_cohort_sessions_gmt}
use skill_stew_api.Skill.Schedule

abbrev session : ℕ → ℕ → ℕ → Session
session week day order = record {
  id = order;
  week_number = week;
  day_of_week = day;
  session_order = order;
  title = none;
  description = none;
  start_time = "18:30";
}

abbrev in_india : String → ℕ → Option String
in_india zone instant = some "GMT+5:30"

abbrev in_utc : String → ℕ → Option String
in_utc zone instant = some "GMT"

abbrev plan : List Session
plan = session 1 3 1 ∷ session 2 0 1 ∷ session 1 0 1 ∷ []

abbrev derived : Session → String → ℕ → Schedule.DerivedSession
derived s date at = record { session = s; date = date; starts_at = at }

abbrev planned : List Schedule.DerivedSession
planned =
    derived (session 1 0 1) "2026-06-01" 63947538000000
    ∷ derived (session 1 3 1) "2026-06-04" 63947797200000
    ∷ derived (session 2 0 1) "2026-06-08" 63948142800000
    ∷ []

days :
    (utc_day (record { year = 1970; month = 1; day = 1 }) ≡ 719528)
    × (utc_day (record { year = 2026; month = 3; day = 1 }) ≡ 740041)
    × (parts_of_day 740133 ≡ record { year = 2026; month = 6; day = 1 })
    × (iso_date 740133 ≡ "2026-06-01")
    × (Schedule.to_utc_midnight "2026-06-01" ≡ ok 740133)
    × (Schedule.to_utc_midnight "2026-02-31" ≡ ok 740043)
    × (Schedule.date_only_weekday "2026-06-01" ≡ ok 0)
unfolding utc_day parts_of_day date_text iso_date Schedule.date_only_weekday
    Schedule.to_utc_midnight Schedule.parse_date_only
days = (refl, refl, refl, refl, refl, refl, refl)

earliest_session : Schedule.get_earliest_workshop_session plan ≡ ok (session 1 0 1)
unfolding Schedule.get_earliest_workshop_session Schedule.sort_sessions sort insert
earliest_session = refl

sessions_derived :
    Schedule.derive_cohort_sessions in_india plan "2026-06-01" "Asia/Kolkata" ≡ ok planned
unfolding utc_day parts_of_day date_text iso_date Schedule.derive_cohort_sessions
    Schedule.derive_session Schedule.local_date_time_to_utc Schedule.settle_offset
    Schedule.get_offset_minutes Schedule.parse_time Schedule.parse_offset_minutes
    Schedule.to_utc_midnight Schedule.parse_date_only Schedule.get_earliest_workshop_session
    Schedule.sort_sessions sort insert
sessions_derived = refl

abbrev around : Schedule.CohortWindow
around = record {
  first_session_starts_at = 63947538000000;
  last_session_starts_at = 63948142800000;
}

window_derived : Schedule.derive_cohort_window planned ≡ ok around
unfolding Schedule.derive_cohort_window
window_derived = refl

abbrev kolkata : Schedule.Offset
kolkata = record { negative = false; minutes = 330 }

offset_of_india : (t : ℕ) → Schedule.get_offset_minutes in_india "Asia/Kolkata" t ≡ ok kolkata
unfolding Schedule.get_offset_minutes Schedule.parse_offset_minutes
offset_of_india t = refl

year_of_day : (parts_of_day 740133).year ≡ 2026
unfolding parts_of_day
year_of_day = refl

to_utc_midnight-format_date_only_example :
    Schedule.to_utc_midnight (Schedule.format_date_only 740133) ≡ ok 740133
to_utc_midnight-format_date_only_example =
    to_utc_midnight-format_date_only 740133 (omega (arith, year_of_day))
      (omega (arith, year_of_day))

derive_cohort_sessions-weekdays_example :
    (map (λ r. r.session) planned ≡ Schedule.sort_sessions plan)
    × All (λ r. Schedule.date_only_weekday r.date ≡ ok r.session.day_of_week) planned
derive_cohort_sessions-weekdays_example =
    derive_cohort_sessions-weekdays in_india plan "2026-06-01" "Asia/Kolkata" 740133 (session 1 0 1)
      planned (omega arith, (omega arith, (omega arith, tt)))
      (omega arith, (omega arith, (omega arith, tt))) (omega arith) days.4 earliest_session days.6
      sessions_derived

derive_cohort_window-Bounded_example : Bounded around planned
derive_cohort_window-Bounded_example = derive_cohort_window-Bounded planned around window_derived

derive_cohort_sessions_gmt_example :
    Schedule.derive_cohort_sessions in_utc plan "2026-06-01" "UTC" ≢ ok planned
derive_cohort_sessions_gmt_example =
    derive_cohort_sessions_gmt in_utc "UTC" (λ t. refl) plan "2026-06-01" planned
