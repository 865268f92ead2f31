-- ===== src/Accounts/Views.antt =====
-- user/src/application/use-cases: what a signed-in user, expert, applicant or administrator sees of
-- the own account, and an administrator of an application.
pub mod Experts
use Prim.Native.String.{◌++◌ as append}
use skill_stew_api.Prelude.{
  ℕ, Bool, true, false, Option, none, some, List, find, String, ◌==◌, if◌then◌else◌,
}
use skill_stew_api.Effect.{pure, gets, or_raise, ◌>>=◌}
use skill_stew_api.Tokens.{UserRole, expert, expert_applicant, admin}
use skill_stew_api.Accounts.World.{
  User, UserLocation, UserProfile, AdminProfile, ExpertApplicationStatus, rejected,
  ExpertApplication, ExpertProfile, World, Error, not_found, Action,
}
use skill_stew_api.Accounts.Repo.{get_user, get_application, is_of_applicant}
use skill_stew_api.Accounts.Profiles.{get_profile, asset_url}

abbrev pub is_of_expert : ℕ → ExpertProfile → Bool
is_of_expert id p = p.expert_id == id

-- `findByExpertId` of the profiles, and `findByUserId` of those of administrators
abbrev pub get_expert_profile : ℕ → Action ExpertProfile
get_expert_profile id w = or_raise (find (is_of_expert id) w.expert_profiles) not_found w

abbrev pub is_of_admin : ℕ → AdminProfile → Bool
is_of_admin id p = p.user_id == id

abbrev pub get_admin_profile : ℕ → Action AdminProfile
get_admin_profile id w = or_raise (find (is_of_admin id) w.admin_profiles) not_found w

-- `GetCurrentExpertProfileOutputDTO`
pub record CurrentExpert : Type 0 where
  pub id : ℕ
  pub email : String
  pub role : UserRole
  pub bio : String
  pub social_links : List String
  pub full_name : String
  pub joined_at : ℕ
  pub languages : List String
  pub phone : String
  pub avatar_url : Option String
  pub banner_url : Option String

abbrev pub current_expert : String → User → ExpertProfile → CurrentExpert
current_expert cdn u p = record {
  id = u.id;
  email = u.email;
  role = expert;
  bio = p.bio;
  social_links = p.social_links;
  full_name = p.full_name;
  joined_at = p.joined_at;
  languages = p.languages;
  phone = p.phone;
  avatar_url = asset_url cdn p.avatar_key;
  banner_url = asset_url cdn p.banner_key;
}

-- `GetCurrentExpertProfileUsecase`
unfoldable pub get_current_expert_profile : String → ℕ → Action CurrentExpert
get_current_expert_profile cdn id = do
  u ← get_user id
  p ← get_expert_profile id
  pure (current_expert cdn u p)

pub data ApplicantStatus : Type 0 where
  not_done verification_pending turned_down : ApplicantStatus

abbrev pub applicant_status : Option ExpertApplication → ApplicantStatus
applicant_status none = not_done
applicant_status (some a) = elim a.status [ rejected ↦ turned_down | _ ↦ verification_pending ]

-- `GetCurrentExpertApplicantProfileOutputDTO`
pub record CurrentApplicant : Type 0 where
  pub email : String
  pub id : ℕ
  pub application_status : ApplicantStatus
  pub role : UserRole

-- `GetCurrentExpertApplicantProfile`
unfoldable pub get_current_expert_applicant_profile : ℕ → Action CurrentApplicant
get_current_expert_applicant_profile id = do
  u ← get_user id
  a ← gets (λ w. find (is_of_applicant id) w.applications)
  pure (record {
    email = u.email;
    id = id;
    application_status = applicant_status a;
    role = expert_applicant;
  })

-- `GetCurrentAdminProfileDTO`
pub record CurrentAdmin : Type 0 where
  pub id : ℕ
  pub email : String
  pub username : Option String
  pub role : UserRole
  pub avatar_url : Option String

-- `GetCurrentAdminProfile`
unfoldable pub get_current_admin_profile : String → ℕ → Action CurrentAdmin
get_current_admin_profile cdn id = do
  u ← get_user id
  p ← get_admin_profile id
  pure (record {
    id = u.id;
    email = u.email;
    username = u.username;
    role = admin;
    avatar_url = asset_url cdn p.avatar_key;
  })

-- `GetCurrentUserProfileDTO`; the role is the user's, whatever it is.
pub record CurrentUser : Type 0 where
  pub id : ℕ
  pub name : Option String
  pub email : String
  pub role : UserRole
  pub username : Option String
  pub phone_number : Option String
  pub avatar_url : Option String
  pub banner_url : Option String
  pub timezone : Option String
  pub location : Option UserLocation
  pub about : Option String
  pub social_links : Option (List String)
  pub languages : Option (List String)
  pub is_onboarding_complete : Bool

-- `GetCurrentUserProfile`
unfoldable pub get_current_user_profile : String → ℕ → Action CurrentUser
get_current_user_profile cdn id = do
  p ← get_profile id
  u ← get_user id
  pure (record {
    id = id;
    name = p.name;
    email = u.email;
    role = u.role;
    username = u.username;
    phone_number = p.phone_number;
    avatar_url = asset_url cdn p.avatar_key;
    banner_url = asset_url cdn p.banner_key;
    timezone = p.timezone;
    location = p.location;
    about = p.about;
    social_links = p.social_links;
    languages = p.languages;
    is_onboarding_complete = p.is_onboarding_complete;
  })

-- `GetExpertApplicationDetails`: the application, with the applicant's email
unfoldable pub get_expert_application_details : ℕ → Action (ExpertApplication × String)
get_expert_application_details id = do
  a ← get_application id
  u ← get_user a.expert_id
  pure (a, u.email)
