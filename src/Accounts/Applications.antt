-- ===== src/Accounts/Applications.antt =====
-- user/src/application/use-cases/expert-applications: how an application is submitted and reviewed.
use skill_stew_api.Prelude.{ℕ, Bool, true, false, not, none, some, List, [], ◌∷◌, String}
use skill_stew_api.Effect.{pure, gets, ◌>>=◌, ◌>>◌, raise_if}
use skill_stew_api.Skill.Membership.{given_or}
use skill_stew_api.Tokens.{expert}
use skill_stew_api.Accounts.World.{
  User, ExpertApplicationStatus, pending, approved, rejected, ApplicationForm, ExpertApplication,
  ExpertProfile, application_submitted, application_approved, application_rejected,
  expert_onboarded, not_pending, not_an_applicant, Action, fresh_id, in_transaction,
}
use skill_stew_api.Accounts.Repo.{
  find_admin_user_ids, get_user, get_application, update_user, no_changes, insert_expert_profile,
  insert_application, update_application, announce_event,
}
use skill_stew_api.Accounts.Access.{is_applicant}

abbrev pub is_pending : ExpertApplicationStatus → Bool
is_pending pending = true
is_pending _ = false

-- `new ExpertApplication(…)`
abbrev pub new_application : ℕ → ℕ → ApplicationForm → ℕ → ExpertApplication
new_application id expert_id form now = record {
  id = id;
  expert_id = expert_id;
  status = pending;
  submitted_at = now;
  reviewed_at = none;
  reviewed_by_admin_id = none;
  rejection_reason = none;
  form = form;
  terms_agreed_at = now;
}

-- The event goes to the administrators, where there is one.
unfoldable pub announce_submission : ExpertApplication → User → List ℕ → Action (Unit {0})
announce_submission a u [] = pure tt
announce_submission a u (id ∷ ids) =
    announce_event
      (application_submitted a.id a.expert_id u.username u.email (id ∷ ids) a.submitted_at)

-- `SubmitExpertApplication`
unfoldable pub submit_work : ℕ → ℕ → ApplicationForm → Action ExpertApplication
submit_work id expert_id form = do
  now ← gets (λ w. w.now)
  saved ← insert_application (new_application id expert_id form now)
  u ← get_user expert_id
  admins ← gets (λ w. find_admin_user_ids w.users)
  announce_submission saved u admins
  pure saved

unfoldable pub submit_expert_application : ℕ → ApplicationForm → Action ExpertApplication
submit_expert_application expert_id form = do
  id ← fresh_id
  in_transaction (submit_work id expert_id form)

-- `new ExpertProfile(…)` of an application that is approved
abbrev pub new_expert_profile : ℕ → ℕ → ExpertApplication → ℕ → ExpertProfile
new_expert_profile id expert_id a now = record {
  id = id;
  expert_id = expert_id;
  full_name = a.form.full_name;
  phone = a.form.phone;
  social_links = a.form.social_links;
  bio = a.form.bio;
  years_experience = a.form.years_experience;
  evidence_links = a.form.evidence_links;
  has_teaching_experience = a.form.has_teaching_experience;
  teaching_experience_desc = a.form.teaching_experience_desc;
  avatar_key = none;
  banner_key = none;
  languages = [];
  joined_at = now;
}

-- The two events of an approval
unfoldable pub announce_approval : User → ApplicationForm → ℕ → Action (Unit {0})
announce_approval u f now = do
  announce_event (
      expert_onboarded u.id f.full_name f.bio f.social_links (given_or u.username "")
        f.years_experience f.has_teaching_experience (given_or f.teaching_experience_desc ""))
  announce_event (application_approved u.id u.email now)

-- `ApproveExpertApplication`
unfoldable pub make_expert : ExpertApplication → User → ℕ → Action (Unit {0})
make_expert a u now = do
  id ← fresh_id
  insert_expert_profile (new_expert_profile id u.id a now)
  announce_approval u a.form now

unfoldable pub approve_work : ℕ → ℕ → ℕ → Action (Unit {0})
approve_work application_id admin_id applicant_id = do
  now ← gets (λ w. w.now)
  a ← update_application application_id approved admin_id none
  u ← update_user applicant_id (record no_changes { role = some expert })
  make_expert a u now

unfoldable pub approve_expert_application : ℕ → ℕ → Action Bool
approve_expert_application application_id admin_id = do
  a ← get_application application_id
  raise_if (not (is_pending a.status)) not_pending
  u ← get_user a.expert_id
  raise_if (not (is_applicant u.role)) not_an_applicant
  in_transaction (approve_work application_id admin_id u.id)
  pure true

-- `RejectExpertApplication`
unfoldable pub reject_work : ℕ → ℕ → String → User → Action (Unit {0})
reject_work application_id admin_id reason u = do
  update_application application_id rejected admin_id (some reason)
  now ← gets (λ w. w.now)
  announce_event (application_rejected u.id u.email now reason)

unfoldable pub reject_expert_application : ℕ → ℕ → String → Action Bool
reject_expert_application application_id admin_id reason = do
  a ← get_application application_id
  raise_if (not (is_pending a.status)) not_pending
  u ← get_user a.expert_id
  in_transaction (reject_work application_id admin_id reason u)
  pure true
