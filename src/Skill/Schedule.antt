-- ===== src/Skill/Schedule.antt =====
-- skill/src/utils/cohortSchedule.ts: from the sessions of a workshop and a start date to the instants
-- at which the sessions of a cohort start. `short_offset` is `Intl.DateTimeFormat`: the text that it
-- gives as the offset of a time zone at an instant, or `none` where it gives none or throws.
pub mod Calendar
pub mod DateText
pub mod Sessions
pub mod Window
pub mod Offsets
mod Tests
use Prim.Native.Char.{code}
use skill_stew_api.Prelude.{
  ℕ, zero, suc, ◌+◌, ◌-◌, ◌*◌, ◌/◌, ◌%◌, Bool, true, false, not, ◌&&◌, Option, none, some, List, [],
  ◌∷◌, map, ◌==◌, ltb, leb, String, if◌then◌else◌,
}
use skill_stew_api.Prelude.Sorting.{sort}
use skill_stew_api.Effect.{Result, ok, err}
use skill_stew_api.Effect.Results.{◌>>=◌, traverse, found_or}
use skill_stew_api.Skill.Workshop.{Session}
use skill_stew_api.Skill.Schedule.Calendar.{
  DateParts, day_ms, utc_day, utc_weekday, parts_of_day, date_text, iso_date,
}

-- What the functions throw.
pub data ScheduleError : Type 0 where
  bad_start_date no_sessions first_week weekday_mismatch : ScheduleError
  bad_offset bad_time : ScheduleError

abbrev pub codes : String → List ℕ
codes String.[] = []
codes (String.◌∷◌ c s) = code c ∷ codes s

abbrev pub is_digit : ℕ → Bool
is_digit c = leb b'0' c && leb c b'9'

-- `Number` of two digits
abbrev pub two_digits : ℕ → ℕ → ℕ
two_digits a b = (a - b'0') * 10 + (b - b'0')

parse_date_codes : List ℕ → Option DateParts
parse_date_codes (a ∷ b ∷ c ∷ d ∷ h ∷ e ∷ f ∷ i ∷ g ∷ k ∷ []) =
    if is_digit a
      && is_digit b
      && is_digit c
      && is_digit d
      && h == b'-'
      && is_digit e
      && is_digit f
      && i == b'-'
      && is_digit g
      && is_digit k
    then some (record {
      year = two_digits a b * 100 + two_digits c d;
      month = two_digits e f;
      day = two_digits g k;
    })
    else none
parse_date_codes _ = none

-- `parseDateOnly`
unfoldable pub parse_date_only : String → Result ScheduleError DateParts
unfolding parse_date_codes
parse_date_only s = found_or bad_start_date (parse_date_codes (codes s))

-- `toUtcMidnight`, as a day
unfoldable pub to_utc_midnight : String → Result ScheduleError ℕ
to_utc_midnight s = parse_date_only s >>= λ p. ok (utc_day p)

-- `formatDateOnly` of the midnight of a day
abbrev pub format_date_only : ℕ → String
format_date_only = iso_date

-- `dateOnlyWeekday`: Monday is 0.
unfoldable pub date_only_weekday : String → Result ScheduleError ℕ
date_only_weekday s = to_utc_midnight s >>= λ d. ok ((utc_weekday d + 6) % 7)

-- An offset in minutes: its sign and its size.
pub record Offset : Type 0 where
  pub negative : Bool
  pub minutes : ℕ

abbrev pub hours_minutes : ℕ → ℕ → ℕ → Offset
hours_minutes sign h m = record { negative = sign == b'-'; minutes = h * 60 + m }

abbrev pub is_sign : ℕ → Bool
is_sign s = if s == b'+' then true else s == b'-'

-- What follows `GMT` in the pattern of `parseOffsetMinutes`.
offset_codes : List ℕ → Option Offset
offset_codes (s ∷ h ∷ []) =
    if is_sign s && is_digit h then some (hours_minutes s (h - b'0') 0) else none
offset_codes (s ∷ g ∷ h ∷ []) =
    if is_sign s && is_digit g && is_digit h
    then some (hours_minutes s (two_digits g h) 0)
    else none
offset_codes (s ∷ h ∷ c ∷ m ∷ n ∷ []) =
    if is_sign s && is_digit h && c == b':' && is_digit m && is_digit n
    then some (hours_minutes s (h - b'0') (two_digits m n))
    else none
offset_codes (s ∷ g ∷ h ∷ c ∷ m ∷ n ∷ []) =
    if is_sign s && is_digit g && is_digit h && c == b':' && is_digit m && is_digit n
    then some (hours_minutes s (two_digits g h) (two_digits m n))
    else none
offset_codes _ = none

gmt_codes : List ℕ → Option Offset
unfolding offset_codes
gmt_codes (g ∷ m ∷ t ∷ rest) =
    if g == b'G' && m == b'M' && t == b'T' then offset_codes rest else none
gmt_codes _ = none

-- `parseOffsetMinutes`
unfoldable pub parse_offset_minutes : String → Option Offset
unfolding gmt_codes
parse_offset_minutes s = gmt_codes (codes s)

-- `time.split(":").map(Number)` of a start time as the schema of a session demands it, HH:MM.
time_codes : List ℕ → Option (ℕ × ℕ)
time_codes (g ∷ h ∷ c ∷ m ∷ n ∷ []) =
    if is_digit g && is_digit h && c == b':' && is_digit m && is_digit n
    then some (two_digits g h, two_digits m n)
    else none
time_codes _ = none

unfoldable pub parse_time : String → Option (ℕ × ℕ)
unfolding time_codes
parse_time s = time_codes (codes s)

-- `localMillis - offsetMinutes * 60 * 1000`
abbrev pub adjust : ℕ → Offset → ℕ
adjust local o = if o.negative then local + o.minutes * 60 * 1000 else local - o.minutes * 60 * 1000

-- `[...sessions].sort(…)`: which of two sessions goes first.
abbrev pub session_before : Session → Session → Bool
session_before a b =
    if not (a.week_number == b.week_number)
    then ltb a.week_number b.week_number
    else if not (a.day_of_week == b.day_of_week)
    then ltb a.day_of_week b.day_of_week
    else ltb a.session_order b.session_order

-- `sortSessions`
unfoldable pub sort_sessions : List Session → List Session
sort_sessions = sort session_before

abbrev pub first_of : List Session → Result ScheduleError Session
first_of [] = err no_sessions
first_of (s ∷ _) = ok s

-- `getEarliestWorkshopSession`
unfoldable pub get_earliest_workshop_session : List Session → Result ScheduleError Session
get_earliest_workshop_session sessions = first_of (sort_sessions sessions)

pub record DerivedSession : Type 0 where
  pub session : Session
  pub date : String
  pub starts_at : ℕ

pub record CohortWindow : Type 0 where
  pub first_session_starts_at : ℕ
  pub last_session_starts_at : ℕ

abbrev pub smaller : ℕ → ℕ → ℕ
smaller a b = if ltb b a then b else a

abbrev pub larger : ℕ → ℕ → ℕ
larger a b = if ltb a b then b else a

-- `Math.min` and `Math.max` over the starts, from the first one on.
abbrev pub window_of : ℕ → ℕ → List DerivedSession → CohortWindow
window_of lo hi [] = record { first_session_starts_at = lo; last_session_starts_at = hi }
window_of lo hi (s ∷ ss) = window_of (smaller lo s.starts_at) (larger hi s.starts_at) ss

-- `deriveCohortWindow`
unfoldable pub derive_cohort_window : List DerivedSession → Result ScheduleError CohortWindow
derive_cohort_window [] = err no_sessions
derive_cohort_window (s ∷ ss) = ok (window_of s.starts_at s.starts_at ss)

module _ (short_offset : String → ℕ → Option String) where
  -- `getOffsetMinutes`
  unfoldable pub get_offset_minutes : String → ℕ → Result ScheduleError Offset
  get_offset_minutes zone instant = found_or bad_offset (short_offset zone instant) >>= λ text.
      found_or bad_offset (parse_offset_minutes text)

  -- The rounds of the loop of `localDateTimeToUtc`, which ends early once nothing changes.
  unfoldable pub settle_offset : ℕ → String → ℕ → ℕ → Result ScheduleError ℕ
  settle_offset zero zone local utc = ok utc
  settle_offset (suc rounds) zone local utc = elim (get_offset_minutes zone utc) [
    | err e ↦ err e
    | ok o ↦
        if adjust local o == utc then ok utc else settle_offset rounds zone local (adjust local o)
  ]

  -- `localDateTimeToUtc`
  unfoldable pub local_date_time_to_utc : String → String → String → Result ScheduleError ℕ
  local_date_time_to_utc date_only time zone = to_utc_midnight date_only >>= λ d.
      found_or bad_time (parse_time time) >>= λ t.
      let (hour, minute) = t in
      let local = d * day_ms + (hour * 60 + minute) * 60 * 1000 in settle_offset 3 zone local local

  -- One session of `deriveCohortSessions`. Days of the week are below 7, so that no session comes
  -- before the earliest one and the difference is what `offsetDays` is.
  unfoldable pub derive_session :
      Session → ℕ → String → Session → Result ScheduleError DerivedSession
  derive_session earliest start zone s =
      let day =
        start
        + (s.week_number * 7 + s.day_of_week)
        - (earliest.week_number * 7 + earliest.day_of_week) in
      let date = format_date_only day in
      local_date_time_to_utc date s.start_time zone >>= λ starts_at.
      ok (record { session = s; date = date; starts_at = starts_at })

  -- `deriveCohortSessions`
  unfoldable pub derive_cohort_sessions :
      List Session → String → String → Result ScheduleError (List DerivedSession)
  derive_cohort_sessions sessions start_date zone =
      get_earliest_workshop_session (sort_sessions sessions) >>= λ earliest.
      to_utc_midnight start_date >>= λ start.
      traverse (derive_session earliest start zone) (sort_sessions sessions)
