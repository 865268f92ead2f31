-- ===== src/Skill/Workshop.antt =====
-- skill/src/domain/entities/Workshop.ts and WorkshopStatus.enum.ts.
use skill_stew_api.Prelude.{
  ℕ, suc, Bool, true, false, Option, none, some, List, [], ◌∷◌, map, String, ◌==◌, if◌then◌else◌,
}
use skill_stew_api.Skill.Membership.{given_or}
use skill_stew_api.Skill.Text.{trim}

pub data WorkshopStatus : Type 0 where
  draft published archived : WorkshopStatus

abbrev pub status_is : WorkshopStatus → WorkshopStatus → Bool
status_is draft draft = true
status_is published published = true
status_is archived archived = true
status_is _ _ = false

pub record Session : Type 0 where
  pub id : ℕ
  pub week_number : ℕ
  pub day_of_week : ℕ
  pub session_order : ℕ
  pub title : Option String
  pub description : Option String
  pub start_time : String

pub record Workshop : Type 0 where
  pub id : ℕ
  pub expert_id : ℕ
  pub title : String
  pub description : Option String
  pub target_audience : Option String
  pub banner_image_key : Option String
  pub max_cohort_size : ℕ
  pub status : WorkshopStatus
  pub sessions : List Session
  pub timezone : Option String
  pub created_at : Option ℕ
  pub updated_at : Option ℕ

-- The constructor trims the title.
abbrev pub trimmed : Workshop → Workshop
trimmed x = record x { title = trim x.title }

-- An entry of `sessions` in `replaceSchedule`; `undefined` and `null` titles are both `none`.
pub record SessionInput : Type 0 where
  pub week_number : ℕ
  pub day_of_week : ℕ
  pub session_order : ℕ
  pub start_time : String
  pub title : Option String
  pub description : Option String

abbrev pub new_session : ℕ → SessionInput → Session
new_session id s = record {
  id = id;
  week_number = s.week_number;
  day_of_week = s.day_of_week;
  session_order = s.session_order;
  title = s.title;
  description = s.description;
  start_time = s.start_time;
}

-- The sessions under ids from `id` on.
abbrev pub new_sessions : ℕ → List SessionInput → List Session
new_sessions id [] = []
new_sessions id (s ∷ ss) = new_session id s ∷ new_sessions (suc id) ss

-- `Workshop.replaceSchedule`
unfoldable pub replace_schedule : Workshop → String → List Session → Workshop
replace_schedule x timezone sessions = record (trimmed x) {
  timezone = some timezone;
  sessions = sessions;
}

-- The argument of `updateBasics`; `some none` is a `null` that is given.
pub record WorkshopChanges : Type 0 where
  pub title : Option String
  pub description : Option (Option String)
  pub target_audience : Option (Option String)
  pub banner_image_key : Option (Option String)
  pub max_cohort_size : Option ℕ

-- `Workshop.updateBasics`
unfoldable pub update_basics : Workshop → WorkshopChanges → Workshop
update_basics x d = record x {
  title = trim (given_or d.title x.title);
  description = given_or d.description x.description;
  target_audience = given_or d.target_audience x.target_audience;
  banner_image_key = given_or d.banner_image_key x.banner_image_key;
  max_cohort_size = given_or d.max_cohort_size x.max_cohort_size;
}

-- The argument of `updateSession`
pub record SessionChanges : Type 0 where
  pub title : Option String
  pub description : Option (Option String)
  pub start_time : Option String

abbrev pub either : Option String → Option String → Option String
either none old = old
either (some s) old = some s

abbrev pub changed_session : ℕ → SessionChanges → Session → Session
changed_session id d s =
    if s.id == id
    then record s {
      title = either d.title s.title;
      description = given_or d.description s.description;
      start_time = given_or d.start_time s.start_time;
    }
    else s

-- `Workshop.updateSession`
unfoldable pub update_session : Workshop → ℕ → SessionChanges → Workshop
update_session x id d = record (trimmed x) { sessions = map (changed_session id d) x.sessions }

-- `Workshop.publish`
unfoldable pub publish : Workshop → Workshop
publish x = record (trimmed x) { status = published }
