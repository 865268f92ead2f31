-- ===== src/Accounts/Access.antt =====
-- user/src/application/use-cases/auth and admin: registration, tokens, verification and blocking.
-- The libraries for tokens and passwords and Google's check of a credential are parameters.
pub mod Granting
use skill_stew_api.Prelude.{
  ℕ, ◌/◌, Bool, true, false, not, ◌&&◌, ◌||◌, Option, none, some, List, [], ◌∷◌, String,
  if◌then◌else◌,
}
use text.Mathlib.Text.{◌==◌ as str_eq}
use skill_stew_api.Effect.{Result, ok, err, pure, raise, gets, or_raise, ◌>>=◌, ◌>>◌, raise_if}
use skill_stew_api.Tokens.{
  UserRole, user, expert, expert_applicant, admin, role_text, known_role, TokenBody, Claims, Jwt,
  UserSecrets, generate_access_token, generate_refresh_token, verify_refresh_token,
}
use skill_stew_api.Accounts.World.{
  User, UserProfile, AdminProfile, AccountEvent, user_registered, expert_registered, user_verified,
  expert_verified, profile_updated, provider_linked, link_requested, World, Error, not_found,
  unique_violation, already_exists, provider_conflict, invalid_credentials, blocked_user,
  not_verified, verified_user, invalid_token, google_failed, Action, fresh_id, in_transaction,
}
use skill_stew_api.Accounts.Repo.{
  find_by_email, get_user, insert_user, update_user, UserChanges, no_changes, insert_profile,
  insert_admin_profile, announce_event, is_some,
}

-- What a verified credential of Google says.
pub record GooglePayload : Type 0 where
  pub email : Option String
  pub name : Option String

-- `google` throws where it gives none; a ticket may have no payload.
pub record Services : Type 0 where
  pub jwt : Jwt
  pub secrets : UserSecrets
  pub sign_email : String → ℕ → String
  pub verify_email : String → ℕ → Option String
  pub hash : String → String
  pub compare : String → String → Bool
  pub google : String → Option (Option GooglePayload)

pub record TokenPair : Type 0 where
  pub refresh_token : String
  pub access_token : String

-- The claims of tokens count seconds.
abbrev pub seconds : World → ℕ
seconds w = w.now / 1000

abbrev pub is_applicant : UserRole → Bool
is_applicant expert_applicant = true
is_applicant _ = false

-- `new User(…)`
abbrev pub new_user : ℕ → String → UserRole → Bool → Bool → Option String → User
new_user id email role verified google password = record {
  id = id;
  email = email;
  role = role;
  is_verified = verified;
  is_blocked = false;
  has_google_auth = google;
  username = none;
  password_hash = password;
  created_at = none;
  updated_at = none;
}

abbrev pub new_profile : ℕ → ℕ → Option String → UserProfile
new_profile id user_id name = record {
  id = id;
  user_id = user_id;
  is_subscribed = false;
  name = name;
  phone_number = none;
  avatar_key = none;
  banner_key = none;
  timezone = none;
  about = none;
  social_links = none;
  languages = none;
  location = none;
  is_onboarding_complete = false;
  created_at = none;
  updated_at = none;
}

-- The check of a password that is there
abbrev pub password_matches : (String → String → Bool) → String → Option String → Bool
password_matches compare password none = false
password_matches compare password (some stored) = compare password stored

-- `GenerateAccessToken` compares the role of an applicant's token with the user's.
abbrev pub role_eq : UserRole → UserRole → Bool
role_eq a b = str_eq (role_text a) (role_text b)

abbrev pub lifted_claims : {E : Type 0} → Result E Claims → Action Claims
lifted_claims (ok c) = pure c
lifted_claims (err e) = raise invalid_token

-- Verification writes the user back as it was read, with its time of update.
abbrev pub as_verified : User → UserChanges
as_verified u = record no_changes { is_verified = some true; updated_at = u.updated_at }

abbrev pub verification_of : UserRole → ℕ → AccountEvent
verification_of expert_applicant id = expert_verified id
verification_of _ id = user_verified id

-- `AlreadyExistsError("Email")` where the row is refused as a duplicate
abbrev pub or_exists : {A : Type 0} → Result Error A × World → Result Error A × World
or_exists (ok a, w) = (ok a, w)
or_exists (err unique_violation, w) = (err already_exists, w)
or_exists (err e, w) = (err e, w)

module _ (s : Services) where
  -- The two tokens of a user, under the email that was given
  unfoldable pub issue_tokens : User → String → Action TokenPair
  issue_tokens u email =
      let body : TokenBody = record { user_id = u.id; email = email; role = role_text u.role } in
      gets (λ w. record {
        refresh_token = generate_refresh_token s.jwt s.secrets body u.role (seconds w);
        access_token = generate_access_token s.jwt s.secrets body u.role (seconds w);
      })

  -- The work of `RegisterUser`
  unfoldable pub register_work : String → String → Action User
  register_work email password = do
    id ← fresh_id
    saved ← insert_user (new_user id email user false false (some (s.hash password)))
    profile_id ← fresh_id
    insert_profile (new_profile profile_id saved.id none)
    token ← gets (λ w. s.sign_email email (seconds w))
    announce_event (user_registered saved.id saved.email (some token))
    pure saved

  -- `RegisterUser`: nothing is done for an email that is known.
  unfoldable pub register_user : String → String → Action (Option TokenPair)
  register_user email password = do
    known ← gets (λ w. is_some (find_by_email email w.users))
    if known then pure none else (do
      saved ← in_transaction (register_work email password)
      pair ← issue_tokens saved email
      pure (some pair))

  -- `RegisterExpert`
  unfoldable pub register_expert_work : String → String → Action (Unit {0})
  register_expert_work email password = do
    id ← fresh_id
    saved ← λ w.
        or_exists
          (insert_user (new_user id email expert_applicant false false (some (s.hash password))) w)
    token ← gets (λ w. s.sign_email saved.email (seconds w))
    announce_event (expert_registered saved.id saved.email (some token))

  unfoldable pub register_expert : String → String → Action (Unit {0})
  register_expert email password = in_transaction (register_expert_work email password)

  -- `LoginUser`
  unfoldable pub login_user : String → String → Action TokenPair
  login_user email password = do
    u ← (λ w. or_raise (find_by_email email w.users) not_found w)
    raise_if (not (is_some u.password_hash)) provider_conflict
    raise_if (not (password_matches s.compare password u.password_hash)) invalid_credentials
    raise_if u.is_blocked blocked_user
    raise_if (is_applicant u.role && not u.is_verified) not_verified
    issue_tokens u email

  -- `GenerateAccessToken`
  unfoldable pub refresh_access_token : String → Action String
  refresh_access_token token = do
    now ← gets seconds
    c ← lifted_claims (verify_refresh_token s.jwt s.secrets now token)
    role ← (λ w. or_raise (known_role (some c.body.role)) invalid_token w)
    if is_applicant role
        then (do u ← get_user c.body.user_id; raise_if (not (role_eq u.role role)) invalid_token)
        else pure tt
    pure (generate_access_token s.jwt s.secrets c.body role now)

  -- `VerifyUser`
  unfoldable pub verify_work : User → Action (Unit {0})
  verify_work u = do
    updated ← update_user u.id (as_verified u)
    announce_event (verification_of updated.role updated.id)

  unfoldable pub verify_user : String → Action (Unit {0})
  verify_user token = do
    email ← (λ w. or_raise (s.verify_email token (seconds w)) invalid_token w)
    u ← (λ w. or_raise (find_by_email email w.users) not_found w)
    raise_if u.is_verified verified_user
    in_transaction (verify_work u)

  -- `SendVerificationLink`
  unfoldable pub send_verification_link : String → Action (Unit {0})
  send_verification_link email = do
    u ← (λ w. or_raise (find_by_email email w.users) not_found w)
    raise_if u.is_verified verified_user
    token ← gets (λ w. s.sign_email email (seconds w))
    announce_event (link_requested email token)

  -- `CreateAdmin`
  unfoldable pub create_admin : String → String → Action (Unit {0})
  create_admin email password = do
    id ← fresh_id
    saved ← insert_user (new_user id email admin true false (some (s.hash password)))
    profile_id ← fresh_id
    insert_admin_profile (record {
      id = profile_id;
      user_id = saved.id;
      name = none;
      avatar_key = none;
      created_at = none;
      updated_at = none;
    })
    pure tt

-- `UpdateUserBlockStatus`
unfoldable pub update_user_block_status : ℕ → Bool → Action User
update_user_block_status id blocked =
    update_user id (record no_changes { is_blocked = some blocked })
