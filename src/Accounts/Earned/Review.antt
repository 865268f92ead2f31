-- ===== src/Accounts/Earned/Review.antt =====
-- user/src/application/use-cases/expert-applications: what submissions and rejections leave of the
-- approvals.
use skill_stew_api.Prelude.{
  ◌≡◌, ap, subst, ℕ, ◌≤◌, true, not, Option, some, List, [], ◌∷◌, arith, count, String,
}
use skill_stew_api.Prelude.Table.{lookup, replace, count-replace}
use skill_stew_api.Effect.{ok}
use skill_stew_api.Effect.Rules.{Keeps, keeps_rules, Reaches, Reaches-query, Reaches-raise_if}
use skill_stew_api.Effect.Ending.{Reaches-bind, Reaches-transact, reached_by, Ends-if, Ends-found}
use skill_stew_api.Accounts.World.{
  User, ExpertApplicationStatus, approved, rejected, ExpertApplication, ApplicationForm, World,
  not_found, not_pending, rollback,
}
use skill_stew_api.Accounts.Repo.{
  is_some, user_key, application_key, reviewed, update_application, changed_user, update_user,
  UserChanges,
}
use skill_stew_api.Accounts.Applications.{
  is_pending, announce_submission, submit_work, submit_expert_application, reject_work,
  reject_expert_application,
}
use skill_stew_api.Accounts.Earned.{
  is_approval_of, IsEarned, Earned-more, announce_event-Keeps, earned_rules,
}

-- An application that is updated, an account that is, and what they were.
pub update_application-led :
    (id : ℕ) (status : ExpertApplicationStatus) (admin_id : ℕ) (reason : Option String)
    (w v : World) (a : ExpertApplication)
    → update_application id status admin_id reason w ≡ (ok a, v)
    → (old : ExpertApplication) × (lookup application_key id w.applications ≡ some old)
      × (a ≡ reviewed status w.now admin_id reason old)
      × (v ≡ record w { applications = replace application_key id a w.applications })
unfolding update_application
update_application-led id status admin_id reason w v a h = ground arith

pub update_user-led :
    (id : ℕ) (d : UserChanges) (w v : World) (u : User)
    → update_user id d w ≡ (ok u, v)
    → (old : User) × (lookup user_key id w.users ≡ some old)
      × (u ≡ changed_user w.now d old)
      × (v ≡ record w { users = replace user_key id u w.users })
unfolding update_user
update_user-led id d w v u h = ground arith

-- The review of an application that was pending takes no approval away, and gives one if it
-- approves.
module _ (id admin_id now : ℕ) (reason : Option String) (old : ExpertApplication)
    (xs : List ExpertApplication) (found : lookup application_key id xs ≡ some old)
    (waiting : is_pending old.status ≡ true) where
  pub review_more :
      (status : ExpertApplicationStatus) (j : ℕ)
      → count (is_approval_of j) xs
        ≤ count
            (is_approval_of j)
            (replace application_key id (reviewed status now admin_id reason old) xs)
  review_more status j = ground (
    arith,
    count-replace application_key (is_approval_of j) id (reviewed status now admin_id reason old) xs
        old found,
  )

  pub approve_more :
      1
      ≤ count
          (is_approval_of old.expert_id)
          (replace application_key id (reviewed approved now admin_id reason old) xs)
  approve_more = ground (
    arith,
    count-replace application_key (is_approval_of old.expert_id) id
        (reviewed approved now admin_id reason old) xs old found,
  )

announce_submission-Keeps :
    (a : ExpertApplication) (u : User) (ids : List ℕ) → Keeps IsEarned (announce_submission a u ids)
unfolding announce_submission
announce_submission-Keeps a u [] = search keeps_rules
announce_submission-Keeps a u (id ∷ ids) = announce_event-Keeps _

submit_work-Keeps :
    (id expert_id : ℕ) (form : ApplicationForm) → Keeps IsEarned (submit_work id expert_id form)
unfolding submit_work
submit_work-Keeps id expert_id form = search (earned_rules, announce_submission-Keeps) depth 12

pub submit-Keeps :
    (expert_id : ℕ) (form : ApplicationForm)
    → Keeps IsEarned (submit_expert_application expert_id form)
unfolding submit_expert_application
submit-Keeps expert_id form = search (earned_rules, submit_work-Keeps)

-- A rejection
module _ (id admin_id : ℕ) (reason : String) (w : World) (h : IsEarned w) where
  update_rejected :
      (a : ExpertApplication)
      → lookup application_key id w.applications ≡ some a
      → is_pending a.status ≡ true
      → Reaches IsEarned w (update_application id rejected admin_id (some reason))
  unfolding update_application
  update_rejected a found waiting = reached_by (
      Ends-found (lookup application_key id w.applications) _ _ (record { ends = h })
        λ old again.
          Ends-if (is_some (lookup user_key admin_id w.users)) _ _
            (record {
              ends = record {
                earned =
                    Earned-more w.applications _ w.expert_profiles w.expert_profiles w.users
                      (review_more id admin_id w.now (some reason) old w.applications again
                        (ground arith) rejected)
                      (λ j. omega arith) h.earned;
              };
            })
            (record { ends = h }))

  reject_work-Reaches :
      (a : ExpertApplication) (u : User)
      → lookup application_key id w.applications ≡ some a
      → is_pending a.status ≡ true
      → Reaches IsEarned w (reject_work id admin_id reason u)
  unfolding reject_work
  reject_work-Reaches a u found waiting =
      Reaches-bind _ _ (update_rejected a found waiting) λ b. search earned_rules

pub reject-Keeps :
    (id admin_id : ℕ) (reason : String)
    → Keeps IsEarned (reject_expert_application id admin_id reason)
unfolding reject_expert_application
reject-Keeps id admin_id reason = record {
  kept = λ w h.
      (Reaches-query (λ v. lookup application_key id v.applications) not_found _ (λ _. h)
        λ a found. Reaches-raise_if (not (is_pending a.status)) not_pending _ h λ waiting.
          Reaches-query (λ v. lookup user_key a.expert_id v.users) not_found _ (λ _. h)
            λ u known.
              Reaches-bind _ _
                (Reaches-transact rollback (reject_work id admin_id reason u)
                  (λ t v done.
                    subst IsEarned (ap (λ p. p.1) done)
                      (reject_work-Reaches id admin_id reason w h a u found (ground arith)).reached)
                  (λ v. record { earned = h.earned }))
                (λ _. search keeps_rules)).reached;
}
