-- ===== src/Skill/Cohorts.antt =====
-- The operations of the expert on cohorts: `createCohort`, `updateCohort` and `deleteCohort` of
-- skill/src/application/services/CohortService.ts, with the checks and responses that they share.
-- They run outside of a transaction. `short_offset` is the time zone data, as in the schedule, and
-- `cdn` the address that `getPublicUrl` of S3StorageService.ts reads from the environment.
pub mod Checks
pub mod Creating
pub mod Updating
pub mod Ready
pub mod Outcome
pub mod Deletion
mod Tests
pub mod Deleting
use Prim.Native.String.{◌++◌ as append}
use text.Mathlib.Text.{◌==◌ as str_eq}
use skill_stew_api.Prelude.{
  ℕ, ◌+◌, ◌-◌, Bool, true, false, not, ◌&&◌, ◌||◌, Option, none, some, List, [], ◌∷◌, String, ◌==◌,
  ltb, if◌then◌else◌,
}
use skill_stew_api.Effect.{Result, ok, err, pure, raise, gets, ◌>>=◌, ◌>>◌, raise_if}
use skill_stew_api.Effect.Results
use skill_stew_api.Skill.Membership.{given_or}
use skill_stew_api.Skill.Cohort.{
  Cohort, CohortStatus, CohortChanges, update_mutable_fields, cohort_status,
}
use skill_stew_api.Skill.Workshop.{Workshop, WorkshopStatus, Session, published}
use skill_stew_api.Skill.Schedule.{
  ScheduleError, first_week, weekday_mismatch, DerivedSession, CohortWindow, date_only_weekday,
  get_earliest_workshop_session, derive_cohort_sessions, derive_cohort_window,
}
use skill_stew_api.Skill.World.{
  World, Action, Error, conflict, forbidden, schedule, unpublished_workshop, no_timezone,
  no_workshop_sessions, overlapping_cohort, has_memberships, below_held_seats, fresh_id,
}
use skill_stew_api.Skill.Repos.{
  get_cohort, get_workshop, insert_cohort, save_cohort, remove_cohort, count_by_cohort,
  find_overlapping,
}
use skill_stew_api.Skill.Seats.{SeatCounts, seat_counts}

-- What the schedule throws, thrown by the service.
abbrev pub lifted : {A : Type 0} → Result ScheduleError A → Action A
lifted (ok a) = pure a
lifted (err e) = raise (schedule e)

abbrev pub is_published : WorkshopStatus → Bool
is_published published = true
is_published _ = false

-- `!workshop.timezone`
abbrev pub lacks_text : Option String → Bool
lacks_text none = true
lacks_text (some s) = str_eq s ""

-- `workshop.timezone!`, which is written out where it is null
abbrev pub zone_text : Option String → String
zone_text none = "null"
zone_text (some s) = s

abbrev pub is_empty : List Session → Bool
is_empty [] = true
is_empty (_ ∷ _) = false

-- `CreateCohortDTO`
pub record CohortInput : Type 0 where
  pub expert_id : ℕ
  pub workshop_id : ℕ
  pub spot_price_amount : ℕ
  pub currency : String
  pub start_date : String
  pub max_students : Option ℕ

-- `UpdateCohortBodyDTO`
pub record CohortUpdate : Type 0 where
  pub spot_price_amount : Option ℕ
  pub currency : Option String
  pub start_date : Option String
  pub max_students : Option ℕ

pub record CohortSummary : Type 0 where
  pub cohort : Cohort
  pub workshop_banner_image_url : Option String
  pub status : CohortStatus
  pub active_seats : ℕ
  pub held_seats : ℕ
  pub available_seats : ℕ

pub record CohortResponse : Type 0 where
  pub summary : CohortSummary
  pub created_at : ℕ
  pub updated_at : ℕ
  pub sessions : List DerivedSession

-- `assertCanManageWorkshop`
abbrev pub assert_can_manage_workshop : Workshop → ℕ → Action (Unit {0})
assert_can_manage_workshop x expert = raise_if (not (x.expert_id == expert)) forbidden

-- `assertWorkshopReadyForCohorts`
unfoldable pub assert_workshop_ready : Workshop → Action (Unit {0})
assert_workshop_ready x = do
  raise_if (not (is_published x.status)) (conflict unpublished_workshop)
  raise_if (lacks_text x.timezone) (conflict no_timezone)
  raise_if (is_empty x.sessions) (conflict no_workshop_sessions)
  earliest ← lifted (get_earliest_workshop_session x.sessions)
  raise_if (not (earliest.week_number == 1)) (schedule first_week)

-- `getOwnedCohort`
unfoldable pub get_owned_cohort : ℕ → ℕ → Action Cohort
get_owned_cohort id expert = do
  c ← get_cohort id
  raise_if (not (c.expert_id == expert)) forbidden
  pure c

-- `ensureNoOverlap`
unfoldable pub ensure_no_overlap : ℕ → CohortWindow → Option ℕ → Action (Unit {0})
ensure_no_overlap workshop window exclude = do
  found ← gets (λ w.
      find_overlapping workshop window.first_session_starts_at window.last_session_starts_at exclude
        w.cohorts)
  raise_if (elim found [ none ↦ false | some _ ↦ true ]) (conflict overlapping_cohort)

-- `getPublicUrl`
abbrev pub public_url : String → String → String
public_url cdn key = append "https://" (append cdn (append "/" key))

abbrev pub banner_url : String → Option String → Option String
banner_url cdn key = if lacks_text key then none else some (public_url cdn (zone_text key))

-- `toSummaryResponse`; the fields that are the cohort's stand in `cohort`.
unfoldable pub to_summary_response : String → ℕ → Cohort → ℕ → ℕ → CohortSummary
to_summary_response cdn now c active held = record {
  cohort = c;
  workshop_banner_image_url = banner_url cdn c.workshop_banner_image_key;
  status = cohort_status c now;
  active_seats = active;
  held_seats = held;
  available_seats = c.max_students - held;
}

-- `new Cohort({ … })` of `createCohort`
abbrev pub new_cohort : ℕ → CohortInput → Workshop → CohortWindow → Cohort
new_cohort id input x window = record {
  id = id;
  workshop_id = input.workshop_id;
  expert_id = input.expert_id;
  workshop_title = x.title;
  workshop_banner_image_key = x.banner_image_key;
  workshop_timezone = zone_text x.timezone;
  spot_price_amount = input.spot_price_amount;
  currency = input.currency;
  start_date = input.start_date;
  max_students = given_or input.max_students x.max_cohort_size;
  first_session_starts_at = window.first_session_starts_at;
  last_session_starts_at = window.last_session_starts_at;
  created_at = none;
  updated_at = none;
}

abbrev pub is_given {ℓ} : {A : Type ℓ} → Option A → Bool
is_given none = false
is_given (some _) = true

-- The argument of `updateMutableFields`
abbrev pub cohort_changes : CohortUpdate → CohortWindow → CohortChanges
cohort_changes d window = record {
  spot_price_amount = d.spot_price_amount;
  currency = d.currency;
  start_date = d.start_date;
  max_students = d.max_students;
  first_session_starts_at = some window.first_session_starts_at;
  last_session_starts_at = some window.last_session_starts_at;
}

abbrev pub own_window : Cohort → CohortWindow
own_window c = record {
  first_session_starts_at = c.first_session_starts_at;
  last_session_starts_at = c.last_session_starts_at;
}

-- The block `if (data.maxStudents !== undefined)`
unfoldable pub check_max_students : Cohort → Option ℕ → Action (Unit {0})
check_max_students c none = pure tt
check_max_students c (some most) = do
  held ← gets (λ w. (seat_counts w.now c.id w.memberships).held_seats)
  raise_if (ltb most held) (conflict below_held_seats)

-- The block `if (membershipCount > 0)`
unfoldable pub check_members : Cohort → CohortUpdate → Action (Unit {0})
check_members c d = do
  members ← gets (λ w. count_by_cohort c.id w.memberships)
  if ltb 0 members
      then (raise_if (is_given d.start_date || is_given d.spot_price_amount || is_given d.currency)
            (conflict has_memberships)
          >> check_max_students c d.max_students)
      else pure tt

-- `deleteCohort`
unfoldable pub delete_cohort : ℕ → ℕ → Action (Unit {0})
delete_cohort id expert = do
  c ← get_owned_cohort id expert
  members ← gets (λ w. count_by_cohort c.id w.memberships)
  raise_if (ltb 0 members) (conflict has_memberships)
  remove_cohort c.id

module _ (short_offset : String → ℕ → Option String) (cdn : String) where
  -- `deriveSchedule`, of which only the window is read
  unfoldable pub derive_schedule : Workshop → String → Result ScheduleError CohortWindow
  derive_schedule x start_date =
      Results.◌>>=◌ (get_earliest_workshop_session x.sessions) λ earliest.
        Results.◌>>=◌ (date_only_weekday start_date) λ weekday.
          Results.◌>>=◌ (Results.fail_if (not (weekday == earliest.day_of_week)) weekday_mismatch)
            λ _.
              Results.◌>>=◌
                (derive_cohort_sessions short_offset x.sessions start_date (zone_text x.timezone))
                derive_cohort_window

  -- `toResponse`
  unfoldable pub to_response : Cohort → Workshop → ℕ → ℕ → Action CohortResponse
  to_response c x active held = do
    now ← gets (λ w. w.now)
    sessions ←
        lifted (derive_cohort_sessions short_offset x.sessions c.start_date c.workshop_timezone)
    pure (record {
      summary = to_summary_response cdn now c active held;
      created_at = given_or c.created_at now;
      updated_at = given_or c.updated_at now;
      sessions = sessions;
    })

  unfoldable pub save_new_cohort : CohortInput → Workshop → CohortWindow → Action CohortResponse
  save_new_cohort input x window = do
    id ← fresh_id
    saved ← insert_cohort (new_cohort id input x window)
    to_response saved x 0 0

  -- `createCohort`
  unfoldable pub create_cohort : CohortInput → Action CohortResponse
  create_cohort input = do
    x ← get_workshop input.workshop_id
    assert_can_manage_workshop x input.expert_id
    assert_workshop_ready x
    window ← lifted (derive_schedule x input.start_date)
    ensure_no_overlap input.workshop_id window none
    save_new_cohort input x window

  -- The window of an update, and the check of it where the start date is given.
  unfoldable pub updated_window : Cohort → Workshop → Option String → Action CohortWindow
  updated_window c x none = pure (own_window c)
  updated_window c x (some start_date) = do
    window ← lifted (derive_schedule x start_date)
    ensure_no_overlap c.workshop_id window (some c.id)
    pure window

  unfoldable pub save_updated :
      Cohort → Workshop → CohortUpdate → CohortWindow → Action CohortResponse
  save_updated c x d window = do
    saved ← save_cohort (update_mutable_fields c (cohort_changes d window))
    counts ← gets (λ w. seat_counts w.now saved.id w.memberships)
    to_response saved x counts.active_seats counts.held_seats

  -- `updateCohort`
  unfoldable pub update_cohort : ℕ → ℕ → CohortUpdate → Action CohortResponse
  update_cohort id expert d = do
    c ← get_owned_cohort id expert
    x ← get_workshop c.workshop_id
    check_members c d
    window ← updated_window c x d.start_date
    save_updated c x d window
