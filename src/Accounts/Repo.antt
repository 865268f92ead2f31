-- ===== src/Accounts/Repo.antt =====
-- user/src/infrastructure/repositories: UserRepository.ts, ExpertApplicationRepository.ts and
-- OutboxEventRepository.ts, over BaseRepository.ts. The unique columns are the email and the
-- username of a user and the applicant of an application; an update of a row sets what is given.
use text.Mathlib.Text.{◌==◌ as str_eq}
use skill_stew_api.Prelude.{
  ℕ, Bool, true, false, not, ◌&&◌, ◌||◌, Option, none, some, List, [], ◌∷◌, ◌++◌, map, filter, find,
  String, ◌==◌, if◌then◌else◌,
}
use skill_stew_api.Prelude.Table.{lookup, replace}
use skill_stew_api.Effect.{ok, err, or_raise, ◌>>=◌}
use skill_stew_api.Skill.Membership.{given_or}
use skill_stew_api.Tokens.{UserRole, admin}
use skill_stew_api.Accounts.World.{
  User, UserProfile, AdminProfile, ExpertApplicationStatus, ExpertApplication, ExpertProfile,
  AccountEvent, not_found, unique_violation, foreign_key, Action, fresh_id,
}

abbrev pub user_key : User → ℕ
user_key u = u.id

abbrev pub application_key : ExpertApplication → ℕ
application_key a = a.id

abbrev pub has_email : String → User → Bool
has_email email u = str_eq u.email email

abbrev pub has_username : String → User → Bool
has_username name u = elim u.username [ none ↦ false | some n ↦ str_eq n name ]

abbrev pub is_some {ℓ} : {A : Type ℓ} → Option A → Bool
is_some none = false
is_some (some _) = true

-- `findByEmail`, `findByUsername` and `findAdminUserIds`
abbrev pub find_by_email : String → List User → Option User
find_by_email email = find (has_email email)

abbrev pub find_by_username : String → List User → Option User
find_by_username name = find (has_username name)

abbrev pub is_admin : User → Bool
is_admin u = elim u.role [ admin ↦ true | _ ↦ false ]

abbrev pub find_admin_user_ids : List User → List ℕ
find_admin_user_ids us = map user_key (filter is_admin us)

-- `findById` of users and of applications
abbrev pub get_user : ℕ → Action User
get_user id w = or_raise (lookup user_key id w.users) not_found w

abbrev pub get_application : ℕ → Action ExpertApplication
get_application id w = or_raise (lookup application_key id w.applications) not_found w

-- Another user has the username.
abbrev pub is_name_of_other : ℕ → Option String → User → Bool
is_name_of_other id none u = false
is_name_of_other id (some name) u = has_username name u && not (u.id == id)

abbrev pub is_taken_name : ℕ → Option String → List User → Bool
is_taken_name id name us = is_some (find (is_name_of_other id name) us)

abbrev pub is_duplicate : User → List User → Bool
is_duplicate u us = is_some (find_by_email u.email us) || is_taken_name u.id u.username us

-- `toPersistence` fills in the times.
abbrev pub stored_user : ℕ → User → User
stored_user now u = record u {
  created_at = some (given_or u.created_at now);
  updated_at = some (given_or u.updated_at now);
}

-- `create` of a user
unfoldable pub insert_user : User → Action User
insert_user u w =
    if is_duplicate u w.users
    then (err unique_violation, w)
    else (ok (stored_user w.now u), record w { users = w.users ++ stored_user w.now u ∷ [] })

-- The argument of `update`: `none` is a key left out; the time of the update is the clock's then.
pub record UserChanges : Type 0 where
  pub role : Option UserRole
  pub is_verified : Option Bool
  pub is_blocked : Option Bool
  pub has_google_auth : Option Bool
  pub username : Option String
  pub updated_at : Option ℕ

abbrev pub no_changes : UserChanges
no_changes = record {
  role = none;
  is_verified = none;
  is_blocked = none;
  has_google_auth = none;
  username = none;
  updated_at = none;
}

abbrev pub name_or : Option String → Option String → Option String
name_or none old = old
name_or (some n) old = some n

abbrev pub changed_user : ℕ → UserChanges → User → User
changed_user now d u = record u {
  role = given_or d.role u.role;
  is_verified = given_or d.is_verified u.is_verified;
  is_blocked = given_or d.is_blocked u.is_blocked;
  has_google_auth = given_or d.has_google_auth u.has_google_auth;
  username = name_or d.username u.username;
  updated_at = some (given_or d.updated_at now);
}

-- `update` of a user
unfoldable pub update_user : ℕ → UserChanges → Action User
update_user id d w = elim (lookup user_key id w.users) [
  | none ↦ (err not_found, w)
  | some old ↦ if is_taken_name id d.username w.users then (err unique_violation, w) else (
    ok (changed_user w.now d old),
    record w { users = replace user_key id (changed_user w.now d old) w.users },
  )
]

-- `create` of profiles; the mappers fill in what is not given.
abbrev pub stored_profile : ℕ → UserProfile → UserProfile
stored_profile now p = record p {
  social_links = some (given_or p.social_links []);
  languages = some (given_or p.languages []);
  created_at = some (given_or p.created_at now);
  updated_at = some (given_or p.updated_at now);
}

unfoldable pub insert_profile : UserProfile → Action UserProfile
insert_profile p w =
    (ok (stored_profile w.now p), record w { profiles = w.profiles ++ stored_profile w.now p ∷ [] })

abbrev pub stored_admin_profile : ℕ → AdminProfile → AdminProfile
stored_admin_profile now p = record p {
  created_at = some (given_or p.created_at now);
  updated_at = some (given_or p.updated_at now);
}

unfoldable pub insert_admin_profile : AdminProfile → Action AdminProfile
insert_admin_profile p w = (
  ok (stored_admin_profile w.now p),
  record w { admin_profiles = w.admin_profiles ++ stored_admin_profile w.now p ∷ [] },
)

unfoldable pub insert_expert_profile : ExpertProfile → Action ExpertProfile
insert_expert_profile p w = (ok p, record w { expert_profiles = w.expert_profiles ++ p ∷ [] })

abbrev pub is_of_applicant : ℕ → ExpertApplication → Bool
is_of_applicant id a = a.expert_id == id

abbrev pub has_applied : ℕ → List ExpertApplication → Bool
has_applied id xs = is_some (find (is_of_applicant id) xs)

-- `create` of an application
unfoldable pub insert_application : ExpertApplication → Action ExpertApplication
insert_application a w =
    if has_applied a.expert_id w.applications
    then (err unique_violation, w)
    else if is_some (lookup user_key a.expert_id w.users)
    then (ok a, record w { applications = w.applications ++ a ∷ [] })
    else (err foreign_key, w)

-- `update` of an application that is reviewed
abbrev pub reviewed :
    ExpertApplicationStatus → ℕ → ℕ → Option String → ExpertApplication → ExpertApplication
reviewed status now admin_id reason a = record a {
  status = status;
  reviewed_at = some now;
  reviewed_by_admin_id = some admin_id;
  rejection_reason = name_or reason a.rejection_reason;
}

unfoldable pub update_application :
    ℕ → ExpertApplicationStatus → ℕ → Option String → Action ExpertApplication
update_application id status admin_id reason w = elim (lookup application_key id w.applications) [
  | none ↦ (err not_found, w)
  | some old ↦
      if is_some (lookup user_key admin_id w.users)
      then (
        ok (reviewed status w.now admin_id reason old),
        record w {
          applications =
              replace application_key id (reviewed status w.now admin_id reason old) w.applications;
        },
      )
      else (err foreign_key, w)
]

-- `OutboxEventRepository.create`
unfoldable pub announce_event : AccountEvent → Action (Unit {0})
announce_event e = do
  id ← fresh_id
  λ w. (
    ok tt,
    record w { outbox = w.outbox ++ record { id = id; event = e; created_at = w.now } ∷ [] },
  )
