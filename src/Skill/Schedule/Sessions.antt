-- ===== src/Skill/Schedule/Sessions.antt =====
-- The sessions of a cohort: their order and their dates.
use skill_stew_api.Prelude.{
  ℕ, ◌+◌, ◌-◌, ◌*◌, ◌%◌, ◌≤◌, ◌<◌, ◌≡◌, refl, subst, ap, true, false, Option, List, [], ◌∷◌, map,
  All, All-zip, arith, String,
}
use skill_stew_api.Prelude.Sorting.{sort, All-sort, All-sort_back, HasLeastHead, sort-HasLeastHead}
use skill_stew_api.Effect.{Result, ok}
use skill_stew_api.Effect.Results.{>>=-eq-ok, All-traverse, map-traverse}
use skill_stew_api.Skill.Workshop.{Session}
use skill_stew_api.Skill.Schedule.Calendar.Walk.{year_from, year_to}
use skill_stew_api.Skill.Schedule.DateText.{to_utc_midnight-format_date_only}
use skill_stew_api.Skill.Schedule.{
  ScheduleError, DerivedSession, to_utc_midnight, format_date_only, date_only_weekday,
  session_before, sort_sessions, first_of, get_earliest_workshop_session, derive_session,
  derive_cohort_sessions, local_date_time_to_utc,
}

-- The earliest session comes no later than any other.
abbrev pub week_day : Session → ℕ
week_day s = s.week_number * 7 + s.day_of_week

abbrev pub HasWeekday : Session → Type 0
HasWeekday s = s.day_of_week < 7

before_trans :
    (a b c : Session)
    → session_before b a ≡ false
    → session_before c b ≡ false
    → session_before c a ≡ false
before_trans a b c h k = ground arith

before_asym : (a b : Session) → session_before a b ≡ true → session_before b a ≡ false
before_asym a b h = ground arith

least_of :
    (ss : List Session) (e : Session)
    → All HasWeekday ss
    → HasLeastHead session_before before_trans before_asym ss
    → first_of ss ≡ ok e
    → HasWeekday e × All (λ s. week_day e ≤ week_day s) ss
least_of [] e days least h = absurd (ground arith)
least_of (s ∷ ss) e (day, days) (self, least) h =
    let same : s ≡ e = cc in
    subst (λ x. HasWeekday x × ((week_day x ≤ week_day s) × All (λ t. week_day x ≤ week_day t) ss))
      same (day, (omega arith, All-zip (λ t after in_week. ground arith) ss least days))

pub get_earliest-least :
    (ss : List Session) (e : Session)
    → All HasWeekday ss
    → get_earliest_workshop_session ss ≡ ok e
    → HasWeekday e × All (λ s. week_day e ≤ week_day s) ss
unfolding get_earliest_workshop_session sort_sessions
get_earliest-least ss e days h =
    let (day, least) =
      least_of (sort session_before ss) e (All-sort HasWeekday session_before ss days)
        (sort-HasLeastHead session_before before_trans before_asym ss) h in
    (day, All-sort_back (λ s. week_day e ≤ week_day s) session_before ss least)

-- What holds of all the sessions holds of the earliest.
first_of-holds :
    (P : Session → Type 0) (ss : List Session) (e : Session) → All P ss → first_of ss ≡ ok e → P e
first_of-holds P [] e h found = absurd (ground arith)
first_of-holds P (s ∷ ss) e (p, h) found = let same : s ≡ e = cc in subst P same p

pub get_earliest-holds :
    (P : Session → Type 0) (ss : List Session) (e : Session)
    → All P ss
    → get_earliest_workshop_session ss ≡ ok e
    → P e
unfolding get_earliest_workshop_session sort_sessions
get_earliest-holds P ss e h found =
    first_of-holds P (sort session_before ss) e (All-sort P session_before ss h) found

weekday_back :
    (text : String) (d k : ℕ)
    → to_utc_midnight text ≡ ok d
    → date_only_weekday text ≡ ok k
    → (d + 12) % 7 ≡ k
unfolding date_only_weekday
weekday_back text d k back h =
    let day : Path (Result ScheduleError ℕ) (ok (((d + 6) % 7 + 6) % 7)) (ok k) = rw back at h in
    ground arith

weekday_of :
    (text : String) (d k : ℕ)
    → to_utc_midnight text ≡ ok d
    → (d + 12) % 7 ≡ k
    → date_only_weekday text ≡ ok k
unfolding date_only_weekday
weekday_of text d k back day = rw (back, date_only_weekday) (ap ok (omega (arith, day)))

derived_inj :
    (a b : DerivedSession) → Path (Result ScheduleError DerivedSession) (ok a) (ok b) → b ≡ a
derived_inj a b h = cc

module _ (short_offset : String → ℕ → Option String) (earliest : Session) (start : ℕ)
    (zone : String) (from : 36525 ≤ start) (on : (start + 12) % 7 ≡ earliest.day_of_week) where
  -- The date of a session is a day of the week of the session.
  pub derive_session-weekday :
      (s : Session) (r : DerivedSession)
      → HasWeekday s
      → week_day earliest ≤ week_day s
      → start + week_day s < 3652425
      → derive_session short_offset earliest start zone s ≡ ok r
      → (r.session ≡ s) × (date_only_weekday r.date ≡ ok s.day_of_week)
  unfolding derive_session date_only_weekday
  derive_session-weekday s r day least to h =
      let d = start + week_day s - week_day earliest in
      let (t, at, last) =
        >>=-eq-ok (local_date_time_to_utc short_offset (format_date_only d) s.start_time zone) _ r
          h in
      let back =
        to_utc_midnight-format_date_only d (year_from d (omega (arith, from, least)))
          (year_to d (omega (arith, to))) in
      let whole = derived_inj _ r last in
      rw whole
        (refl, weekday_of (format_date_only d) d s.day_of_week back (omega (arith, on, day, least)))

  derive_session-from :
      (s : Session) (r : DerivedSession)
      → derive_session short_offset earliest start zone s ≡ ok r
      → r.session ≡ s
  unfolding derive_session
  derive_session-from s r h =
      let (t, at, last) =
        >>=-eq-ok (local_date_time_to_utc short_offset _ s.start_time zone) _ r h in
      rw (derived_inj _ r last) refl

module _ (short_offset : String → ℕ → Option String) (sessions : List Session)
    (start_date zone : String) where
  each :
      (f : Session) (d : ℕ) (s : Session)
      → 36525 ≤ d
      → (d + 12) % 7 ≡ f.day_of_week
      → HasWeekday s × (week_day f ≤ week_day s)
      → d + week_day s < 3652425
      → (r : DerivedSession) → derive_session short_offset f d zone s ≡ ok r
      → date_only_weekday r.date ≡ ok r.session.day_of_week
  each f d s from day (week, after) bound r h =
      let (same, on) =
        derive_session-weekday short_offset f d zone from day s r week after bound h in
      rw same on

  -- Where the start date falls on the weekday of the earliest session, each session of the cohort
  -- falls on its own weekday, and the sessions stand in the order of the workshop's weeks, days and
  -- numbers: for weekdays below 7 and dates from the year 100 to 9999.
  pub derive_cohort_sessions-weekdays :
      (start : ℕ) (e : Session) (rs : List DerivedSession)
      → All HasWeekday sessions
      → All (λ s. start + week_day s < 3652425) sessions
      → 36525 ≤ start
      → to_utc_midnight start_date ≡ ok start
      → get_earliest_workshop_session sessions ≡ ok e
      → date_only_weekday start_date ≡ ok e.day_of_week
      → derive_cohort_sessions short_offset sessions start_date zone ≡ ok rs
      → (map (λ r. r.session) rs ≡ sort_sessions sessions)
        × All (λ r. date_only_weekday r.date ≡ ok r.session.day_of_week) rs
  unfolding derive_cohort_sessions sort_sessions date_only_weekday
  derive_cohort_sessions-weekdays start e rs days to from at earliest on h =
      let sorted = sort session_before sessions in
      let (f, first, rest) = >>=-eq-ok (get_earliest_workshop_session sorted) _ rs h in
      let (d, midnight, last) = >>=-eq-ok (to_utc_midnight start_date) _ rs rest in
      let (in_week, least) = get_earliest-least sessions e days earliest in
      let sorted_days = All-sort HasWeekday session_before sessions days in
      let (f_week, f_least) = get_earliest-least sorted f sorted_days first in
      let f_least' = All-sort_back (λ s. week_day f ≤ week_day s) session_before sessions f_least in
      let le = get_earliest-holds (λ s. week_day f ≤ week_day s) sessions e f_least' earliest in
      let ge =
        get_earliest-holds (λ s. week_day e ≤ week_day s) sorted f
          (All-sort (λ s. week_day e ≤ week_day s) session_before sessions least) first in
      let on_day = weekday_back start_date start e.day_of_week at on in
      let same : d ≡ start = ground arith in
      let f_day : (d + 12) % 7 ≡ f.day_of_week =
        omega (arith, same, on_day, le, ge, in_week, f_week) in
      (
        map-traverse (λ r. r.session) _ sorted rs
            (derive_session-from short_offset f d zone (omega (arith, from, same)) f_day) last,
        All-traverse (λ r. date_only_weekday r.date ≡ ok r.session.day_of_week) _ sorted rs
            (All-zip
              (λ s week_and_least bound.
                each f d s (omega (arith, from, same)) f_day week_and_least
                  (omega (arith, bound, same)))
              sorted (All-zip (λ s week after. (week, after)) sorted sorted_days f_least)
              (All-sort (λ s. start + week_day s < 3652425) session_before sessions to))
            last,
      )
