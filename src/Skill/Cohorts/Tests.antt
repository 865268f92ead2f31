-- ===== src/Skill/Cohorts/Tests.antt =====
-- One workshop whose expert opens a cohort, cannot open a second one at the same time, and closes it.
use skill_stew_api.Prelude.{ℕ, ◌≡◌, refl, Option, none, some, List, [], ◌∷◌, String}
use skill_stew_api.Prelude.Sorting.{sort, insert}
use skill_stew_api.Effect.{ok, err, ◌>>=◌}
use skill_stew_api.Skill.Workshop.{Session, Workshop, published}
use skill_stew_api.Skill.Schedule.Calendar.{utc_day, parts_of_day, date_text, iso_date}
use skill_stew_api.Skill.Schedule
use skill_stew_api.Skill.World.{World, conflict, overlapping_cohort}
use skill_stew_api.Skill.Repos.{insert_cohort, remove_cohort, count_by_cohort, find_overlapping}
use skill_stew_api.Skill.Cohorts.{
  CohortInput, CohortResponse, assert_workshop_ready, get_owned_cohort, ensure_no_overlap,
  derive_schedule, to_response, to_summary_response, save_new_cohort, create_cohort, delete_cohort,
}
use skill_stew_api.Skill.Cohorts.Creating.{adding}
use skill_stew_api.Skill.Cohorts.Outcome.{stored, answer, Created, create_cohort-Created}
use skill_stew_api.Skill.Cohorts.Deletion.{Deleted, delete_cohort-Deleted}

abbrev evening : Session
evening = record {
  id = 1;
  week_number = 1;
  day_of_week = 0;
  session_order = 1;
  title = none;
  description = none;
  start_time = "18:30";
}

abbrev pottery : Workshop
pottery = record {
  id = 1;
  expert_id = 100;
  title = "Pottery";
  description = none;
  target_audience = none;
  banner_image_key = none;
  max_cohort_size = 10;
  status = published;
  sessions = evening ∷ [];
  timezone = some "Asia/Kolkata";
  created_at = none;
  updated_at = none;
}

abbrev studio : World
studio = record {
  now = 63900000000000;
  next_id = 7;
  workshops = pottery ∷ [];
  cohorts = [];
  memberships = [];
  checkouts = [];
  outbox = [];
}

abbrev request : CohortInput
request = record {
  expert_id = 100;
  workshop_id = 1;
  spot_price_amount = 500;
  currency = "INR";
  start_date = "2026-06-01";
  max_students = none;
}

abbrev in_india : String → ℕ → Option String
in_india zone instant = some "GMT+5:30"

abbrev evenings : List Schedule.DerivedSession
evenings = record { session = evening; date = "2026-06-01"; starts_at = 63947538000000 } ∷ []

abbrev window : Schedule.CohortWindow
window = record {
  first_session_starts_at = 63947538000000;
  last_session_starts_at = 63947538000000;
}

abbrev reply : CohortResponse
reply = answer in_india "cdn" request pottery window evenings studio

abbrev opened : World
opened = adding (stored request pottery window studio) studio

-- The first request is met, and the same again is refused.
creations :
    (create_cohort in_india "cdn" request studio ≡ (ok reply, opened))
    × (create_cohort in_india "cdn" request opened ≡ (err (conflict overlapping_cohort), opened))
unfolding create_cohort assert_workshop_ready ensure_no_overlap derive_schedule save_new_cohort
    to_response to_summary_response insert_cohort find_overlapping ◌>>=◌ utc_day parts_of_day
    date_text iso_date Schedule.date_only_weekday Schedule.derive_cohort_sessions
    Schedule.derive_cohort_window Schedule.derive_session Schedule.local_date_time_to_utc
    Schedule.settle_offset Schedule.get_offset_minutes Schedule.parse_time
    Schedule.parse_offset_minutes Schedule.to_utc_midnight Schedule.parse_date_only
    Schedule.get_earliest_workshop_session Schedule.sort_sessions sort insert
creations = (refl, refl)

abbrev closed : World
closed = (delete_cohort 7 100 opened).1

deletion : delete_cohort 7 100 opened ≡ (ok tt, closed)
unfolding delete_cohort get_owned_cohort count_by_cohort remove_cohort ◌>>=◌
deletion = refl

create_cohort-Created_example : Created in_india "cdn" request studio reply opened
create_cohort-Created_example =
    create_cohort-Created in_india "cdn" request studio opened reply creations.0

delete_cohort-Deleted_example : Deleted 7 100 opened closed
delete_cohort-Deleted_example = delete_cohort-Deleted 7 100 opened closed deletion
