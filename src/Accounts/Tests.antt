-- ===== src/Accounts/Tests.antt =====
-- An administrator, a user and an applicant: sign-ins, an application that is approved, user names.
use text.Mathlib.Text.{◌==◌ as str_eq}
use text.Mathlib.TextPositions.{eq_refl}
use skill_stew_api.Prelude.{
  ℕ, ◌≡◌, ◌≢◌, refl, Bool, true, false, not, ◌||◌, none, some, List, [], ◌∷◌, String, ltb,
  if◌then◌else◌, arith, length, map,
}
use skill_stew_api.Effect.{ok, err, ◌>>=◌, transact}
use skill_stew_api.Tokens.{
  user, expert, expert_applicant, admin, Claims, verify_refresh_token, generate_access_token,
  generate_refresh_token,
}
use skill_stew_api.Accounts.World.{
  ExpertProfile, User, ApplicationForm, World, not_pending, blocked_user,
}
use skill_stew_api.Accounts.Repo.{
  is_some, user_key, no_changes, changed_user, insert_profile, find_by_email, find_by_username,
  update_user, insert_application, update_application, insert_expert_profile, announce_event,
}
use skill_stew_api.Accounts.Access.{
  Services, new_user, new_profile, issue_tokens, login_user, refresh_access_token,
  update_user_block_status, seconds,
}
use skill_stew_api.Accounts.Access.Granting.{
  MaySignIn, pair_of, login_user-Granted, refresh_access_token_blocked,
}
use skill_stew_api.Accounts.Applications.{
  announce_submission, submit_work, submit_expert_application, announce_approval, make_expert,
  approve_work, approve_expert_application,
}
use skill_stew_api.Accounts.Earned.{IsEarned}
use skill_stew_api.Accounts.Earned.History.{Step, History, History-IsEarned}
use skill_stew_api.Accounts.Profiles.{
  ProfileChanges, ProfileResponse, update_by_user_id, announce_profile, profile_work,
  update_user_profile, onboarding_changes, get_user_avatar,
}
use skill_stew_api.Accounts.Profiles.Updating.{get_user_avatar-update_user_profile}
use skill_stew_api.Prelude.Table.{lookup}
use skill_stew_api.Accounts.Views.{current_expert, get_current_expert_profile}
use skill_stew_api.Accounts.Views.Experts.{get_current_expert_profile_returns}
use skill_stew_api.Accounts.Usernames.{
  NameServices, Site, rename_work, rename_user, initialize_filter, is_available, update_username,
  renames,
}
use skill_stew_api.Accounts.Usernames.Filter.{Remembers}
use skill_stew_api.Accounts.Usernames.Renaming.{is_available_exact}

abbrev claims : Claims
claims = record {
  body = record { user_id = 2; email = "b@c.d"; role = "USER" };
  iat = 1;
  exp = 900;
}

abbrev services : Services
services = record {
  jwt = record {
    sign = λ b secret options issued. b.email;
    decode = λ token. some (some "USER");
    verify = λ token secret now. if ltb now 900 then some claims else none;
  };
  secrets = record {
    access = record { user_secret = "u"; expert_secret = "e"; admin_secret = "a" };
    refresh = record { user_secret = "r"; expert_secret = "s"; admin_secret = "t" };
  };
  sign_email = λ email now. email;
  verify_email = λ token now. some token;
  hash = λ password. password;
  compare = λ password stored. str_eq password stored;
  google = λ credential. none;
}

abbrev site_of : List User → World
site_of us = record {
  now = 5000;
  next_id = 10;
  users = us;
  profiles = [];
  admin_profiles = [];
  applications = [];
  expert_profiles = [];
  outbox = [];
}

abbrev world : World
world = site_of (
    new_user 1 "a@b.c" admin true false (some "one")
    ∷ new_user 2 "b@c.d" user false false (some "two")
    ∷ new_user 3 "c@d.e" expert_applicant true false (some "three")
    ∷ [])

abbrev form : ApplicationForm
form = record {
  full_name = "C";
  phone = "3";
  social_links = [];
  years_experience = 4;
  evidence_links = [];
  has_teaching_experience = false;
  teaching_experience_desc = none;
  bio = "c";
  proposed_title = "t";
  proposed_description = "d";
  target_audience = "u";
  confirmed_internet = true;
  confirmed_camera = true;
  confirmed_microphone = true;
  terms_agreed = true;
}

abbrev applied : World
applied = (submit_expert_application 3 form world).1

abbrev decided : World
decided = (approve_expert_application 10 1 applied).1

absurd_of : {A : Type 0} → false ≡ true → A
absurd_of e = absurd (ground arith)

nobody_expert : IsEarned world
nobody_expert = record { earned = (absurd_of, (absurd_of, (absurd_of, tt))) }

History-IsEarned_example : IsEarned decided
History-IsEarned_example =
    History-IsEarned services nobody_expert
      (History.later (History.later History.start (Step.applies 3 form)) (Step.approves 10 1))

-- The applicant is an expert then, with a profile; three events are on their way, and the
-- application cannot be approved again.
approval :
    (map (λ u. u.role) decided.users ≡ admin ∷ user ∷ expert ∷ [])
    × (map (λ p. p.expert_id) decided.expert_profiles ≡ 3 ∷ [])
    × (length decided.outbox ≡ 3)
    × ((approve_expert_application 10 1 decided).0 ≡ err not_pending)
unfolding ◌>>=◌ transact insert_application update_application update_user insert_expert_profile
    announce_event announce_submission submit_work submit_expert_application announce_approval
    make_expert approve_work approve_expert_application
approval = (refl, refl, refl, refl)

abbrev promoted : User
promoted =
    changed_user 5000 (record no_changes { role = some expert })
      (new_user 3 "c@d.e" expert_applicant true false (some "three"))

promoted_there : lookup user_key 3 decided.users ≡ some promoted
unfolding ◌>>=◌ transact insert_application update_application update_user insert_expert_profile
    announce_event announce_submission submit_work submit_expert_application announce_approval
    make_expert approve_work approve_expert_application
promoted_there = refl

get_current_expert_profile_returns_example :
    (p : ExpertProfile) × (p.expert_id ≡ 3)
    × (get_current_expert_profile "cdn" 3 decided ≡ (ok (current_expert "cdn" promoted p), decided))
get_current_expert_profile_returns_example =
    get_current_expert_profile_returns services "cdn" 3 world decided promoted nobody_expert
      (History.later (History.later History.start (Step.applies 3 form)) (Step.approves 10 1))
      promoted_there refl

login_returns : login_user services "b@c.d" "two" world ≡ (
  ok (pair_of services (new_user 2 "b@c.d" user false false (some "two")) "b@c.d" world),
  world,
)
unfolding login_user issue_tokens ◌>>=◌ generate_access_token generate_refresh_token
login_returns = refl

login_user-Granted_example :
    (world ≡ world)
    × ((u : User) × (find_by_email "b@c.d" world.users ≡ some u)
        × MaySignIn services "two" u
        × (pair_of services (new_user 2 "b@c.d" user false false (some "two")) "b@c.d" world
            ≡ pair_of services u "b@c.d" world))
login_user-Granted_example =
    login_user-Granted services "b@c.d" "two" world world
      (pair_of services (new_user 2 "b@c.d" user false false (some "two")) "b@c.d" world)
      login_returns

refresh_valid : verify_refresh_token services.jwt services.secrets (seconds world) "t" ≡ ok claims
unfolding verify_refresh_token
refresh_valid = refl

refresh_access_token_blocked_example :
    refresh_access_token services "t" (update_user_block_status 2 true world).1 ≡ (
      ok (generate_access_token services.jwt services.secrets claims.body user (seconds world)),
      (update_user_block_status 2 true world).1,
    )
refresh_access_token_blocked_example =
    refresh_access_token_blocked services 2 "t" world claims user refresh_valid refl refl

-- The same user cannot sign in again.
blocked_sign_in :
    (login_user services "b@c.d" "two" (update_user_block_status 2 true world).1).0
    ≡ err blocked_user
unfolding login_user update_user_block_status update_user ◌>>=◌
blocked_sign_in = refl

-- A profile with an avatar
abbrev profiled : World
profiled = (insert_profile (new_profile 5 2 none) (record world { now = 6000 })).1

abbrev portrait : ProfileChanges
portrait = onboarding_changes (some "Bo") (some "k") none none

abbrev answer : ProfileResponse
answer = record {
  name = some "Bo";
  languages = some [];
  avatar_url = some "https://cdn/k";
  banner_url = none;
  location = none;
  phone_number = none;
  social_links = some [];
  timezone = none;
  about = none;
}

edited :
    update_user_profile "cdn" 2 portrait profiled
    ≡ (ok answer, (update_user_profile "cdn" 2 portrait profiled).1)
unfolding update_user_profile profile_work announce_profile update_by_user_id insert_profile
    announce_event transact ◌>>=◌
edited = refl

get_user_avatar-update_user_profile_example :
    (get_user_avatar "cdn" 2 (update_user_profile "cdn" 2 portrait profiled).1
      ≡ (ok (some "https://cdn/k"), (update_user_profile "cdn" 2 portrait profiled).1))
    × ((j : ℕ)
        → j ≢ 2
        → (get_user_avatar "cdn" j (update_user_profile "cdn" 2 portrait profiled).1).0
          ≡ (get_user_avatar "cdn" j profiled).0)
get_user_avatar-update_user_profile_example =
    get_user_avatar-update_user_profile "cdn" 2 portrait profiled
      (update_user_profile "cdn" 2 portrait profiled).1 answer edited

-- A filter that keeps a list, over texts without capitals.
abbrev listed : List String → String → Bool
listed [] name = false
listed (n ∷ ns) name = str_eq n name || listed ns name

abbrev names : NameServices (List String)
names = record { has = listed; add = λ n ns. n ∷ ns; lower = λ n. n }

added : (ns : List String) (n : String) → listed (n ∷ ns) n ≡ true
added ns n = ground (arith, eq_refl n)

names-Remembers : Remembers names
names-Remembers = record { added = added; kept = λ ns m n h. ground (arith, h) }

abbrev site : Site (List String)
site = record { store = world; filter = [] }

abbrev calls : List (ℕ × String)
calls = (2, "bee") ∷ (1, "bee") ∷ []

is_available_exact_example :
    is_available names "bee" (renames names calls (initialize_filter names site))
    ≡ not (
        is_some
          (find_by_username "bee" (renames names calls (initialize_filter names site)).store.users))
is_available_exact_example = is_available_exact names names-Remembers calls site "bee"

-- The first has the name then, and the second is left without one.
renamed :
    map (λ u. u.username) (renames names calls (initialize_filter names site)).store.users
    ≡ none ∷ some "bee" ∷ none ∷ []
unfolding update_username rename_user rename_work update_user announce_event transact ◌>>=◌
renamed = refl
