-- ===== src/Accounts/Google.antt =====
-- user/src/application/use-cases/auth/GoogleAuth.usecase.ts: accounts that Google vouches for.
use skill_stew_api.Prelude.{Bool, true, Option, none, some, String, if◌then◌else◌}
use text.Mathlib.Text.{◌==◌ as str_eq}
use skill_stew_api.Effect.{pure, raise, gets, ◌>>=◌, ◌>>◌, raise_if}
use skill_stew_api.Tokens.{user, expert_applicant}
use skill_stew_api.Accounts.World.{
  User, user_registered, expert_registered, user_verified, expert_verified, profile_updated,
  provider_linked, invalid_credentials, blocked_user, google_failed, Action, fresh_id,
  in_transaction,
}
use skill_stew_api.Accounts.Repo.{
  find_by_email, insert_user, update_user, UserChanges, no_changes, insert_profile, announce_event,
}
use skill_stew_api.Accounts.Access.{
  GooglePayload, Services, TokenPair, new_user, new_profile, issue_tokens,
}

-- What linking a provider changes
abbrev pub google_linked : UserChanges
google_linked = record no_changes { has_google_auth = some true }

module _ (s : Services) where
  -- `createGoogleUser`
  unfoldable pub create_google_user : String → Option String → Action User
  create_google_user email name = do
    id ← fresh_id
    saved ← insert_user (new_user id email user true true none)
    profile_id ← fresh_id
    profile ← insert_profile (new_profile profile_id saved.id name)
    announce_event (user_registered saved.id saved.email none)
    announce_event (user_verified saved.id)
    announce_event (
        profile_updated (record {
          id = profile.user_id;
          username = none;
          name = profile.name;
          languages = none;
          location = none;
          avatar_key = none;
        }))
    pure saved

  -- `createGoogleExpertApplicant`
  unfoldable pub create_google_applicant : String → Action User
  create_google_applicant email = do
    id ← fresh_id
    saved ← insert_user (new_user id email expert_applicant true true none)
    announce_event (expert_registered saved.id saved.email none)
    announce_event (expert_verified saved.id)
    pure saved

  -- `linkGoogleAuth`
  unfoldable pub link_google_auth : User → Action User
  link_google_auth u = do
    updated ← update_user u.id google_linked
    announce_event (provider_linked updated.id updated.email updated.role)
    pure updated

  unfoldable pub google_account : Bool → String → Option String → Option User → Action User
  google_account as_expert email name (some u) = pure u
  google_account as_expert email name none =
      if as_expert
      then in_transaction (create_google_applicant email)
      else in_transaction (create_google_user email name)

  -- `GoogleAuth`, where `as_expert` says that the requested role is that of an applicant
  unfoldable pub google_login : Bool → String → Option String → Action TokenPair
  google_login as_expert email name = do
    found ← gets (λ w. find_by_email email w.users)
    u ← google_account as_expert email name found
    raise_if u.is_blocked blocked_user
    linked ← (if u.has_google_auth then pure u else in_transaction (link_google_auth u))
    issue_tokens s linked email

  unfoldable pub google_email : Bool → Option String → Option String → Action TokenPair
  google_email as_expert name none = raise invalid_credentials
  google_email as_expert name (some email) =
      if str_eq email "" then raise invalid_credentials else google_login as_expert email name

  unfoldable pub google_ticket : Bool → Option (Option GooglePayload) → Action TokenPair
  google_ticket as_expert none = raise google_failed
  google_ticket as_expert (some none) = raise invalid_credentials
  google_ticket as_expert (some (some p)) = google_email as_expert p.name p.email

  abbrev pub google_auth : Bool → String → Action TokenPair
  google_auth as_expert credential = google_ticket as_expert (s.google credential)
