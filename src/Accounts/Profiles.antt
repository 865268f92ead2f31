-- ===== src/Accounts/Profiles.antt =====
-- user/src/application/use-cases/user: how users fill in their profile and see profiles. `cdn` is
-- the address that `getPublicUrl` of S3StorageService.ts reads from the environment.
pub mod Updating
use Prim.Native.String.{◌++◌ as append}
use text.Mathlib.Text.{◌==◌ as str_eq}
use skill_stew_api.Prelude.{
  ℕ, Bool, true, false, Option, none, some, List, [], ◌∷◌, map, find, String, ◌==◌, if◌then◌else◌,
}
use skill_stew_api.Effect.{ok, err, pure, or_raise, ◌>>=◌, ◌>>◌}
use skill_stew_api.Skill.Membership.{given_or}
use skill_stew_api.Tokens.{UserRole}
use skill_stew_api.Accounts.World.{
  User, UserLocation, UserProfile, profile_updated, World, Error, not_found, Action, in_transaction,
}
use skill_stew_api.Accounts.Repo.{get_user, announce_event}

-- The argument of `updateByUserId`: `none` is a key left out.
pub record ProfileChanges : Type 0 where
  pub name : Option String
  pub phone_number : Option String
  pub avatar_key : Option String
  pub banner_key : Option String
  pub timezone : Option String
  pub about : Option String
  pub social_links : Option (List String)
  pub languages : Option (List String)
  pub location : Option UserLocation
  pub is_onboarding_complete : Option Bool

-- A column that may be empty
abbrev pub changed_or {ℓ} : {A : Type ℓ} → Option A → Option A → Option A
changed_or none old = old
changed_or (some a) old = some a

abbrev pub changed_profile : ℕ → ProfileChanges → UserProfile → UserProfile
changed_profile now d p = record p {
  name = changed_or d.name p.name;
  phone_number = changed_or d.phone_number p.phone_number;
  avatar_key = changed_or d.avatar_key p.avatar_key;
  banner_key = changed_or d.banner_key p.banner_key;
  timezone = changed_or d.timezone p.timezone;
  about = changed_or d.about p.about;
  social_links = changed_or d.social_links p.social_links;
  languages = changed_or d.languages p.languages;
  location = changed_or d.location p.location;
  is_onboarding_complete = given_or d.is_onboarding_complete p.is_onboarding_complete;
  updated_at = some now;
}

abbrev pub is_of_user : ℕ → UserProfile → Bool
is_of_user id p = p.user_id == id

-- `findByUserId`
abbrev pub get_profile : ℕ → Action UserProfile
get_profile id w = or_raise (find (is_of_user id) w.profiles) not_found w

abbrev pub change_of_user : ℕ → ℕ → ProfileChanges → UserProfile → UserProfile
change_of_user id now d p = if is_of_user id p then changed_profile now d p else p

-- `updateByUserId`: every row of the user is updated, and the first is returned.
unfoldable pub update_by_user_id : ℕ → ProfileChanges → Action UserProfile
update_by_user_id id d w = elim (find (is_of_user id) w.profiles) [
  | none ↦ (err not_found, w)
  | some old ↦ (
    ok (changed_profile w.now d old),
    record w { profiles = map (change_of_user id w.now d) w.profiles },
  )
]

-- `getPublicUrl` of a key that is there and not empty
abbrev pub asset_url : String → Option String → Option String
asset_url cdn none = none
asset_url cdn (some key) =
    if str_eq key "" then none else some (append "https://" (append cdn (append "/" key)))

unfoldable pub announce_profile : UserProfile → Action (Unit {0})
announce_profile p = announce_event (
    profile_updated (record {
      id = p.user_id;
      username = none;
      name = p.name;
      languages = p.languages;
      location = p.location;
      avatar_key = p.avatar_key;
    }))

unfoldable pub profile_work : ℕ → ProfileChanges → Action UserProfile
profile_work id d = do saved ← update_by_user_id id d; announce_profile saved; pure saved

-- `UpdateProfileOutputDTO`
pub record ProfileResponse : Type 0 where
  pub name : Option String
  pub languages : Option (List String)
  pub avatar_url : Option String
  pub banner_url : Option String
  pub location : Option UserLocation
  pub phone_number : Option String
  pub social_links : Option (List String)
  pub timezone : Option String
  pub about : Option String

abbrev pub profile_response : String → UserProfile → ProfileResponse
profile_response cdn p = record {
  name = p.name;
  languages = p.languages;
  avatar_url = asset_url cdn p.avatar_key;
  banner_url = asset_url cdn p.banner_key;
  location = p.location;
  phone_number = p.phone_number;
  social_links = p.social_links;
  timezone = p.timezone;
  about = p.about;
}

-- What `UpdateUserProfile` changes is all but the mark of onboarding.
abbrev pub without_onboarding : ProfileChanges → ProfileChanges
without_onboarding d = record d { is_onboarding_complete = none }

-- `UpdateUserProfile`
unfoldable pub update_user_profile : String → ℕ → ProfileChanges → Action ProfileResponse
update_user_profile cdn id d = do
  saved ← in_transaction (profile_work id (without_onboarding d))
  pure (profile_response cdn saved)

abbrev pub onboarding_changes :
    Option String → Option String → Option UserLocation → Option (List String) → ProfileChanges
onboarding_changes name avatar_key location languages = record {
  name = name;
  phone_number = none;
  avatar_key = avatar_key;
  banner_key = none;
  timezone = none;
  about = none;
  social_links = none;
  languages = languages;
  location = location;
  is_onboarding_complete = none;
}

-- `OnboardingUpdateUserProfileOutputDTO`
pub record OnboardingResponse : Type 0 where
  pub name : Option String
  pub languages : Option (List String)
  pub avatar_url : Option String
  pub location : Option UserLocation

-- `OnboardingUpdateProfile`: its address of the avatar is the key.
unfoldable pub onboarding_update_profile :
    ℕ
    → Option String
    → Option String
    → Option UserLocation
    → Option (List String)
    → Action OnboardingResponse
onboarding_update_profile id name avatar_key location languages = do
  saved ← in_transaction (profile_work id (onboarding_changes name avatar_key location languages))
  pure (record {
    name = saved.name;
    languages = saved.languages;
    avatar_url = saved.avatar_key;
    location = saved.location;
  })

-- `SetOnboardingComplete`
unfoldable pub set_onboarding_complete : ℕ → Action (Unit {0})
set_onboarding_complete id =
    update_by_user_id id
      (record (onboarding_changes none none none none) { is_onboarding_complete = some true })
    >> pure tt

-- `GetUserAvatar`
unfoldable pub get_user_avatar : String → ℕ → Action (Option String)
get_user_avatar cdn id = do p ← get_profile id; pure (asset_url cdn p.avatar_key)

-- `GetUserProfileOutputDTO`
pub record PublicProfile : Type 0 where
  pub user_id : ℕ
  pub username : Option String
  pub is_verified : Bool
  pub name : Option String
  pub about : Option String
  pub languages : Option (List String)
  pub location : Option String
  pub social_links : Option (List String)
  pub timezone : Option String
  pub avatar_url : Option String
  pub banner_url : Option String

abbrev pub address_of : Option UserLocation → Option String
address_of none = none
address_of (some l) = some l.formatted_address

-- `GetUserProfile`
unfoldable pub get_user_profile : String → ℕ → Action PublicProfile
get_user_profile cdn id = do
  u ← get_user id
  p ← get_profile id
  pure (record {
    user_id = u.id;
    username = u.username;
    is_verified = u.is_verified;
    name = p.name;
    about = p.about;
    languages = p.languages;
    location = address_of p.location;
    social_links = p.social_links;
    timezone = p.timezone;
    avatar_url = asset_url cdn p.avatar_key;
    banner_url = asset_url cdn p.banner_key;
  })
