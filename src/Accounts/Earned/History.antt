-- ===== src/Accounts/Earned/History.antt =====
-- The use cases of accounts in any order: nobody is an expert without having earned it.
use skill_stew_api.Prelude.{find, List, refl, ℕ, ◌≤◌, Bool, Option, none, some, String}
use skill_stew_api.Effect.Rules.{Keeps, Keeps-bind, Keeps-query, keeps_rules}
use skill_stew_api.Tokens.{user, expert_applicant, admin}
use skill_stew_api.Accounts.World.{User, UserLocation, ApplicationForm, World}
use skill_stew_api.Accounts.Repo.{insert_user}
use skill_stew_api.Accounts.Access.{
  Services, new_user, issue_tokens, register_work, register_user, register_expert_work,
  register_expert, GooglePayload, verify_work, verify_user, send_verification_link, create_admin,
  update_user_block_status,
}
use skill_stew_api.Accounts.Google.{
  create_google_user, create_google_applicant, link_google_auth, google_account, google_login,
  google_email, google_ticket, google_auth,
}
use skill_stew_api.Accounts.Usernames.{rename_work, rename_user}
use skill_stew_api.Accounts.Profiles.{
  ProfileChanges, is_of_user, update_by_user_id, announce_profile, profile_work,
  update_user_profile, onboarding_update_profile, set_onboarding_complete,
}
use skill_stew_api.Effect.Ending.{kept_by, Ends-found}
use skill_stew_api.Accounts.Applications.{
  submit_expert_application, approve_expert_application, reject_expert_application,
}
use skill_stew_api.Accounts.Earned.{
  IsEarned, in_transaction-Keeps, insert_user-Keeps, update_user-Keeps, or_exists-Keeps,
  earned_rules,
}
use skill_stew_api.Accounts.Earned.Review.{submit-Keeps, reject-Keeps}
use skill_stew_api.Accounts.Earned.Approval.{approve-Keeps}

module _ (s : Services) where
  issue_tokens-Keeps : (u : User) (email : String) → Keeps IsEarned (issue_tokens s u email)
  unfolding issue_tokens
  issue_tokens-Keeps u email = search keeps_rules

  insert_plain-Keeps :
      (id : ℕ) (email : String) (verified google : Bool) (password : Option String)
      → Keeps IsEarned (insert_user (new_user id email user verified google password))
  insert_plain-Keeps id email verified google password = insert_user-Keeps _ refl

  register_work-Keeps : (email password : String) → Keeps IsEarned (register_work s email password)
  unfolding register_work
  register_work-Keeps email password = search (earned_rules, insert_plain-Keeps) depth 20

  register_user-Keeps : (email password : String) → Keeps IsEarned (register_user s email password)
  unfolding register_user
  register_user-Keeps email password =
      search (earned_rules, issue_tokens-Keeps, register_work-Keeps) depth 20

  insert_applicant-Keeps :
      (id : ℕ) (email : String) (verified google : Bool) (password : Option String)
      → Keeps IsEarned (insert_user (new_user id email expert_applicant verified google password))
  insert_applicant-Keeps id email verified google password = insert_user-Keeps _ refl

  insert_admin-Keeps :
      (id : ℕ) (email : String) (verified google : Bool) (password : Option String)
      → Keeps IsEarned (insert_user (new_user id email admin verified google password))
  insert_admin-Keeps id email verified google password = insert_user-Keeps _ refl

  register_expert-Keeps :
      (email password : String) → Keeps IsEarned (register_expert s email password)
  unfolding register_expert register_expert_work
  register_expert-Keeps email password =
      search (earned_rules, or_exists-Keeps, insert_applicant-Keeps) depth 20

  create_google_user-Keeps :
      (email : String) (name : Option String) → Keeps IsEarned (create_google_user s email name)
  unfolding create_google_user
  create_google_user-Keeps email name = search (earned_rules, insert_plain-Keeps) depth 20

  create_google_applicant-Keeps :
      (email : String) → Keeps IsEarned (create_google_applicant s email)
  unfolding create_google_applicant
  create_google_applicant-Keeps email = search (earned_rules, insert_applicant-Keeps) depth 20

  link_google_auth-Keeps : (u : User) → Keeps IsEarned (link_google_auth s u)
  unfolding link_google_auth
  link_google_auth-Keeps u = Keeps-bind _ _ (update_user-Keeps u.id _ refl) λ x. search earned_rules

  google_account-Keeps :
      (as_expert : Bool) (email : String) (name : Option String) (found : Option User)
      → Keeps IsEarned (google_account s as_expert email name found)
  unfolding google_account
  google_account-Keeps as_expert email name none =
      search (earned_rules, create_google_applicant-Keeps, create_google_user-Keeps) depth 20
  google_account-Keeps as_expert email name (some u) = search keeps_rules

  google_login-Keeps :
      (as_expert : Bool) (email : String) (name : Option String)
      → Keeps IsEarned (google_login s as_expert email name)
  unfolding google_login
  google_login-Keeps as_expert email name =
      search (earned_rules, google_account-Keeps, link_google_auth-Keeps, issue_tokens-Keeps) depth
        20

  google_email-Keeps :
      (as_expert : Bool) (name email : Option String)
      → Keeps IsEarned (google_email s as_expert name email)
  unfolding google_email
  google_email-Keeps as_expert name none = search keeps_rules
  google_email-Keeps as_expert name (some email) = search (keeps_rules, google_login-Keeps)

  google_ticket-Keeps :
      (as_expert : Bool) (p : Option (Option GooglePayload))
      → Keeps IsEarned (google_ticket s as_expert p)
  unfolding google_ticket
  google_ticket-Keeps as_expert none = search keeps_rules
  google_ticket-Keeps as_expert (some none) = search keeps_rules
  google_ticket-Keeps as_expert (some (some p)) = google_email-Keeps as_expert p.name p.email

  verify_work-Keeps : (u : User) → Keeps IsEarned (verify_work s u)
  unfolding verify_work
  verify_work-Keeps u = Keeps-bind _ _ (update_user-Keeps u.id _ refl) λ x. search earned_rules

  verify_user-Keeps : (token : String) → Keeps IsEarned (verify_user s token)
  unfolding verify_user
  verify_user-Keeps token = search (earned_rules, verify_work-Keeps) depth 20

  send_verification_link-Keeps : (email : String) → Keeps IsEarned (send_verification_link s email)
  unfolding send_verification_link
  send_verification_link-Keeps email = search earned_rules depth 20

  create_admin-Keeps : (email password : String) → Keeps IsEarned (create_admin s email password)
  unfolding create_admin
  create_admin-Keeps email password = search (earned_rules, insert_admin-Keeps) depth 20

block-Keeps : (id : ℕ) (blocked : Bool) → Keeps IsEarned (update_user_block_status id blocked)
unfolding update_user_block_status
block-Keeps id blocked = update_user-Keeps id _ refl

rename_user-Keeps : (id : ℕ) (name : String) → Keeps IsEarned (rename_user id name)
unfolding rename_user rename_work
rename_user-Keeps id name = Keeps-bind _ _ (Keeps-query _ _) λ u.
    in_transaction-Keeps _ (Keeps-bind _ _ (update_user-Keeps u.id _ refl) λ x. search earned_rules)

update_by_user_id-Keeps : (id : ℕ) (d : ProfileChanges) → Keeps IsEarned (update_by_user_id id d)
unfolding update_by_user_id
update_by_user_id-Keeps id d = kept_by λ w h.
    Ends-found (find (is_of_user id) w.profiles) _ _ (record { ends = h })
      λ old found. record { ends = record { earned = h.earned } }

profile_work-Keeps : (id : ℕ) (d : ProfileChanges) → Keeps IsEarned (profile_work id d)
unfolding profile_work announce_profile
profile_work-Keeps id d = search (earned_rules, update_by_user_id-Keeps) depth 12

update_user_profile-Keeps :
    (cdn : String) (id : ℕ) (d : ProfileChanges) → Keeps IsEarned (update_user_profile cdn id d)
unfolding update_user_profile
update_user_profile-Keeps cdn id d = search (earned_rules, profile_work-Keeps) depth 12

onboarding-Keeps :
    (id : ℕ) (name avatar_key : Option String) (location : Option UserLocation)
    (languages : Option (List String))
    → Keeps IsEarned (onboarding_update_profile id name avatar_key location languages)
unfolding onboarding_update_profile
onboarding-Keeps id name avatar_key location languages =
    search (earned_rules, profile_work-Keeps) depth 12

set_onboarding_complete-Keeps : (id : ℕ) → Keeps IsEarned (set_onboarding_complete id)
unfolding set_onboarding_complete
set_onboarding_complete-Keeps id = search (keeps_rules, update_by_user_id-Keeps) depth 12

-- One use case that changes an account, whatever it answers, or the passing of time.
pub data Step (s : Services) (w : World) : World → Type 0 where
  registers : (email password : String) → Step s w (register_user s email password w).1
  registers_expert : (email password : String) → Step s w (register_expert s email password w).1
  signs_in :
      (as_expert : Bool) (credential : String) → Step s w (google_auth s as_expert credential w).1
  verifies : (token : String) → Step s w (verify_user s token w).1
  sends_link : (email : String) → Step s w (send_verification_link s email w).1
  adds_admin : (email password : String) → Step s w (create_admin s email password w).1
  blocks : (id : ℕ) (blocked : Bool) → Step s w (update_user_block_status id blocked w).1
  renames : (id : ℕ) (name : String) → Step s w (rename_user id name w).1
  edits : (cdn : String) (id : ℕ) (d : ProfileChanges) → Step s w (update_user_profile cdn id d w).1
  onboards :
      (id : ℕ) (name avatar_key : Option String) (location : Option UserLocation)
      (languages : Option (List String))
      → Step s w (onboarding_update_profile id name avatar_key location languages w).1
  completes : (id : ℕ) → Step s w (set_onboarding_complete id w).1
  applies : (id : ℕ) (form : ApplicationForm) → Step s w (submit_expert_application id form w).1
  approves : (id admin_id : ℕ) → Step s w (approve_expert_application id admin_id w).1
  rejects :
      (id admin_id : ℕ) (reason : String)
      → Step s w (reject_expert_application id admin_id reason w).1
  waits : (now : ℕ) → w.now ≤ now → Step s w (record w { now = now })

pub data History (s : Services) (w : World) : World → Type 0 where
  start : History s w w
  later : {u v : World} → History s w u → Step s u v → History s w v

module _ (s : Services) where
  Step-IsEarned : {w v : World} → Step s w v → IsEarned w → IsEarned v
  Step-IsEarned {w} (registers email password) = (register_user-Keeps s email password).kept w
  Step-IsEarned {w} (registers_expert email password) =
      (register_expert-Keeps s email password).kept w
  Step-IsEarned {w} (signs_in as_expert credential) =
      (google_ticket-Keeps s as_expert (s.google credential)).kept w
  Step-IsEarned {w} (verifies token) = (verify_user-Keeps s token).kept w
  Step-IsEarned {w} (sends_link email) = (send_verification_link-Keeps s email).kept w
  Step-IsEarned {w} (adds_admin email password) = (create_admin-Keeps s email password).kept w
  Step-IsEarned {w} (blocks id blocked) = (block-Keeps id blocked).kept w
  Step-IsEarned {w} (renames id name) = (rename_user-Keeps id name).kept w
  Step-IsEarned {w} (edits cdn id d) = (update_user_profile-Keeps cdn id d).kept w
  Step-IsEarned {w} (onboards id name avatar_key location languages) =
      (onboarding-Keeps id name avatar_key location languages).kept w
  Step-IsEarned {w} (completes id) = (set_onboarding_complete-Keeps id).kept w
  Step-IsEarned {w} (applies id form) = (submit-Keeps id form).kept w
  Step-IsEarned {w} (approves id admin_id) = (approve-Keeps id admin_id).kept w
  Step-IsEarned {w} (rejects id admin_id reason) = (reject-Keeps id admin_id reason).kept w
  Step-IsEarned (waits now le) = λ h. record { earned = h.earned }

  -- Where every expert has an application that was approved and a profile, that stays so through
  -- any sequence of registrations, sign-ins, verifications, blocks, renamings, changes of profiles,
  -- applications and reviews, whether they succeed or not.
  pub History-IsEarned : {w v : World} → IsEarned w → History s w v → IsEarned v
  History-IsEarned h start = h
  History-IsEarned h (later r k) = Step-IsEarned k (History-IsEarned h r)
