-- ===== src/Skill/Cohorts/Ready.antt =====
-- The checks of a workshop and a start date, before a cohort is created.
use skill_stew_api.Prelude.{ℕ, ◌≡◌, ◌∙◌, ap, not, true, Option, List, String, arith, ◌==◌}
use skill_stew_api.Effect.{Result, ok, err, raise_if}
use skill_stew_api.Effect.Results
use skill_stew_api.Effect.Inversion.{raise_if-eq-ok, >>=-eq-ok}
use skill_stew_api.Skill.Workshop.{Workshop, Session}
use skill_stew_api.Skill.Schedule.{
  ScheduleError, first_week, DerivedSession, CohortWindow, derive_cohort_sessions,
  derive_cohort_window, get_earliest_workshop_session, date_only_weekday,
}
use skill_stew_api.Skill.World.{World, schedule}
use skill_stew_api.Skill.Cohorts.{
  zone_text, derive_schedule, lifted, assert_workshop_ready, is_published,
}

pub lifted-eq-ok :
    {A : Type 0} (r : Result ScheduleError A) (w v : World) (a : A)
    → lifted r w ≡ (ok a, v)
    → r ≡ ok a
lifted-eq-ok (ok b) w v a h = ground arith
lifted-eq-ok (err e) w v a h = absurd (ground arith)

week_of :
    (e : Session) (w v : World)
    → raise_if (not (e.week_number == 1)) (schedule first_week) w ≡ (ok tt, v)
    → e.week_number ≡ 1
week_of e w v h = ground arith

first_again :
    {r : Result ScheduleError Session} (e f : Session)
    → r ≡ ok e
    → r ≡ ok f
    → e.week_number ≡ 1
    → f.week_number ≡ 1
first_again e f one two week = ground arith

pub assert_workshop_ready-eq-ok :
    (x : Workshop) (w v : World)
    → assert_workshop_ready x w ≡ (ok tt, v)
    → (is_published x.status ≡ true)
      × ((e : Session) → get_earliest_workshop_session x.sessions ≡ ok e → e.week_number ≡ 1)
unfolding assert_workshop_ready
assert_workshop_ready-eq-ok x w v h =
    let (shown, rest) = raise_if-eq-ok _ _ _ w v tt h in
    let (zone, rest') = raise_if-eq-ok _ _ _ w v tt rest in
    let (some_there, after) = raise_if-eq-ok _ _ _ w v tt rest' in
    let (e, u, lift, last) =
      >>=-eq-ok (lifted (get_earliest_workshop_session x.sessions)) _ w v tt after in
    let first = lifted-eq-ok (get_earliest_workshop_session x.sessions) w u e lift in
    (ground (arith, shown), λ f is_f. first_again e f first is_f (week_of e u v last))

module _ (short_offset : String → ℕ → Option String) (cdn : String) where
  -- A start date whose window is derived has sessions.
  pub derive_schedule-eq-ok :
      (x : Workshop) (start_date : String) (window : CohortWindow)
      → derive_schedule short_offset cdn x start_date ≡ ok window
      → (e : Session) × (sessions : List DerivedSession) × (get_earliest_workshop_session x.sessions
          ≡ ok e)
        × (date_only_weekday start_date ≡ ok e.day_of_week)
        × (derive_cohort_sessions short_offset x.sessions start_date (zone_text x.timezone)
            ≡ ok sessions)
        × (derive_cohort_window sessions ≡ ok window)
  unfolding derive_schedule
  derive_schedule-eq-ok x start_date window h =
      let (e, earliest, rest) =
        Results.>>=-eq-ok (get_earliest_workshop_session x.sessions) _ window h in
      let (d, weekday, matched) = Results.>>=-eq-ok (date_only_weekday start_date) _ window rest in
      let (_, on_day, derived) =
        Results.>>=-eq-ok (Results.fail_if (not (d == e.day_of_week)) _) _ window matched in
      let (sessions, on, around) =
        Results.>>=-eq-ok
          (derive_cohort_sessions short_offset x.sessions start_date (zone_text x.timezone)) _
          window derived in
      let same : d ≡ e.day_of_week = ground (arith, on_day) in
      (e, sessions, earliest, weekday ∙ ap ok same, on, around)
