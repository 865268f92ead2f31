-- ===== src/Skill/Cohort.antt =====
-- skill/src/domain/entities/Cohort.ts and CohortStatus.enum.ts, and `getDerivedCohortStatus` of
-- skill/src/utils/cohortSchedule.ts.
use skill_stew_api.Prelude.{ℕ, Bool, true, false, Option, String, ltb, if◌then◌else◌}
use skill_stew_api.Skill.Membership.{given_or}

pub data CohortStatus : Type 0 where
  upcoming active completed : CohortStatus

pub record Cohort : Type 0 where
  pub id : ℕ
  pub workshop_id : ℕ
  pub expert_id : ℕ
  pub workshop_title : String
  pub workshop_banner_image_key : Option String
  pub workshop_timezone : String
  pub spot_price_amount : ℕ
  pub currency : String
  pub start_date : String
  pub max_students : ℕ
  pub first_session_starts_at : ℕ
  pub last_session_starts_at : ℕ
  pub created_at : Option ℕ
  pub updated_at : Option ℕ

pub record CohortChanges : Type 0 where
  pub spot_price_amount : Option ℕ
  pub currency : Option String
  pub start_date : Option String
  pub max_students : Option ℕ
  pub first_session_starts_at : Option ℕ
  pub last_session_starts_at : Option ℕ

-- `Cohort.updateMutableFields`
unfoldable pub update_mutable_fields : Cohort → CohortChanges → Cohort
update_mutable_fields c d = record c {
  spot_price_amount = given_or d.spot_price_amount c.spot_price_amount;
  currency = given_or d.currency c.currency;
  start_date = given_or d.start_date c.start_date;
  max_students = given_or d.max_students c.max_students;
  first_session_starts_at = given_or d.first_session_starts_at c.first_session_starts_at;
  last_session_starts_at = given_or d.last_session_starts_at c.last_session_starts_at;
}

-- `getDerivedCohortStatus`, with `now` given
unfoldable pub derived_status : ℕ → ℕ → ℕ → CohortStatus
derived_status first last now =
    if ltb now first then upcoming else if ltb last now then completed else active

abbrev pub is_upcoming : CohortStatus → Bool
is_upcoming upcoming = true
is_upcoming _ = false

abbrev pub cohort_status : Cohort → ℕ → CohortStatus
cohort_status c now = derived_status c.first_session_starts_at c.last_session_starts_at now
