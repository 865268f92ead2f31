-- ===== src/Accounts/World.antt =====
-- user/src/domain/entities: users, their profiles and the applications of experts, and the state
-- that the use cases of accounts share. `now` is the clock, in milliseconds.
use skill_stew_api.Prelude.{ℕ, suc, Bool, Option, List, String}
use skill_stew_api.Effect.{Run, ok, transact}
use skill_stew_api.Tokens.{UserRole}

pub record User : Type 0 where
  pub id : ℕ
  pub email : String
  pub role : UserRole
  pub is_verified : Bool
  pub is_blocked : Bool
  pub has_google_auth : Bool
  pub username : Option String
  pub password_hash : Option String
  pub created_at : Option ℕ
  pub updated_at : Option ℕ

-- Coordinates are only copied, as their text.
pub record UserLocation : Type 0 where
  pub formatted_address : String
  pub latitude : String
  pub longitude : String

pub record UserProfile : Type 0 where
  pub id : ℕ
  pub user_id : ℕ
  pub is_subscribed : Bool
  pub name : Option String
  pub phone_number : Option String
  pub avatar_key : Option String
  pub banner_key : Option String
  pub timezone : Option String
  pub about : Option String
  pub social_links : Option (List String)
  pub languages : Option (List String)
  pub location : Option UserLocation
  pub is_onboarding_complete : Bool
  pub created_at : Option ℕ
  pub updated_at : Option ℕ

pub record AdminProfile : Type 0 where
  pub id : ℕ
  pub user_id : ℕ
  pub name : Option String
  pub avatar_key : Option String
  pub created_at : Option ℕ
  pub updated_at : Option ℕ

pub data ExpertApplicationStatus : Type 0 where
  pending approved rejected : ExpertApplicationStatus

-- What an applicant fills in.
pub record ApplicationForm : Type 0 where
  pub full_name : String
  pub phone : String
  pub social_links : List String
  pub years_experience : ℕ
  pub evidence_links : List String
  pub has_teaching_experience : Bool
  pub teaching_experience_desc : Option String
  pub bio : String
  pub proposed_title : String
  pub proposed_description : String
  pub target_audience : String
  pub confirmed_internet : Bool
  pub confirmed_camera : Bool
  pub confirmed_microphone : Bool
  pub terms_agreed : Bool

pub record ExpertApplication : Type 0 where
  pub id : ℕ
  pub expert_id : ℕ
  pub status : ExpertApplicationStatus
  pub submitted_at : ℕ
  pub reviewed_at : Option ℕ
  pub reviewed_by_admin_id : Option ℕ
  pub rejection_reason : Option String
  pub form : ApplicationForm
  pub terms_agreed_at : ℕ

pub record ExpertProfile : Type 0 where
  pub id : ℕ
  pub expert_id : ℕ
  pub full_name : String
  pub phone : String
  pub social_links : List String
  pub bio : String
  pub years_experience : ℕ
  pub evidence_links : List String
  pub has_teaching_experience : Bool
  pub teaching_experience_desc : Option String
  pub avatar_key : Option String
  pub banner_key : Option String
  pub languages : List String
  pub joined_at : ℕ

-- The payload of `user.profileUpdated`
pub record ProfilePayload : Type 0 where
  pub id : ℕ
  pub username : Option String
  pub name : Option String
  pub languages : Option (List String)
  pub location : Option UserLocation
  pub avatar_key : Option String

-- The names and payloads of the events.
pub data AccountEvent : Type 0 where
  user_registered expert_registered : ℕ → String → Option String → AccountEvent
  user_verified expert_verified : ℕ → AccountEvent
  profile_updated : ProfilePayload → AccountEvent
  provider_linked : ℕ → String → UserRole → AccountEvent
  link_requested : String → String → AccountEvent
  application_submitted : ℕ → ℕ → Option String → String → List ℕ → ℕ → AccountEvent
  application_approved : ℕ → String → ℕ → AccountEvent
  application_rejected : ℕ → String → ℕ → String → AccountEvent
  expert_onboarded : ℕ → String → String → List String → String → ℕ → Bool → String → AccountEvent

-- A row of the outbox, as it is made: pending.
pub record OutboxRow : Type 0 where
  pub id : ℕ
  pub event : AccountEvent
  pub created_at : ℕ

pub record World : Type 0 where
  pub now : ℕ
  pub next_id : ℕ
  pub users : List User
  pub profiles : List UserProfile
  pub admin_profiles : List AdminProfile
  pub applications : List ExpertApplication
  pub expert_profiles : List ExpertProfile
  pub outbox : List OutboxRow

pub data Error : Type 0 where
  not_found unique_violation foreign_key : Error
  already_exists provider_conflict invalid_credentials blocked_user : Error
  not_verified verified_user invalid_token google_failed : Error
  not_pending not_an_applicant : Error

abbrev pub Action : Type 0 → Type 0
Action = Run World Error

-- `uuidv7()`
abbrev pub fresh_id : Action ℕ
fresh_id w = (ok w.next_id, record w { next_id = suc w.next_id })

-- `UnitOfWork.transact` over the tables
abbrev pub rollback : World → World → World
rollback w w' = record w' {
  users = w.users;
  profiles = w.profiles;
  admin_profiles = w.admin_profiles;
  applications = w.applications;
  expert_profiles = w.expert_profiles;
  outbox = w.outbox;
}

abbrev pub in_transaction : {A : Type 0} → Action A → Action A
in_transaction = transact rollback
