-- ===== src/Accounts/Earned/Approval.antt =====
-- ApproveExpertApplication.usecase.ts: who is made an expert has applied, and has a profile.
use skill_stew_api.Prelude.{
  ◌≡◌, sym, ap, subst, ◌∙◌, ℕ, suc, ◌≤◌, true, not, none, some, List, [], ◌∷◌, ◌++◌, arith, All,
  count, count-append, some_inj,
}
use skill_stew_api.Prelude.Table.{lookup, replace, All-replace, lookup-key}
use skill_stew_api.Effect.{ok, ◌>>=◌}
use skill_stew_api.Effect.Rules.{Keeps, keeps_rules, Reaches-query, Reaches-raise_if}
use skill_stew_api.Effect.Ending.{Reaches-bind, Reaches-transact}
use skill_stew_api.Effect.Inversion.{>>=-eq-ok, gets-eq-ok}
use skill_stew_api.Tokens.{expert}
use skill_stew_api.Accounts.World.{
  User, approved, ExpertApplication, ApplicationForm, ExpertProfile, World, not_found, not_pending,
  not_an_applicant, rollback,
}
use skill_stew_api.Accounts.Repo.{
  user_key, application_key, reviewed, update_application, changed_user, update_user, no_changes,
  insert_expert_profile,
}
use skill_stew_api.Accounts.Applications.{
  is_pending, new_expert_profile, announce_approval, make_expert, approve_work,
  approve_expert_application,
}
use skill_stew_api.Accounts.Access.{is_applicant}
use skill_stew_api.Accounts.Earned.{
  is_approval_of, is_profile_of, Earned, IsEarned, Earned-more, earned_rules,
}
use skill_stew_api.Accounts.Earned.Review.{
  update_application-led, update_user-led, review_more, approve_more,
}

announce_approval-Keeps :
    (u : User) (f : ApplicationForm) (now : ℕ) → Keeps IsEarned (announce_approval u f now)
unfolding announce_approval
announce_approval-Keeps u f now = search earned_rules

-- An approval: both rows are written before the account counts as one of an expert.
module _ (id admin_id : ℕ) (w : World) (h : IsEarned w) (a : ExpertApplication) (u : User)
    (found : lookup application_key id w.applications ≡ some a)
    (waiting : is_pending a.status ≡ true)
    (known : lookup user_key a.expert_id w.users ≡ some u) where
  abbrev reviewed_list : List ExpertApplication
  reviewed_list =
      replace application_key id (reviewed approved w.now admin_id none a) w.applications

  abbrev raised_users : User → List User
  raised_users old =
      replace user_key u.id (changed_user w.now (record no_changes { role = some expert }) old)
        w.users

  raised :
      (old : User)
      → lookup user_key u.id w.users ≡ some old
      → (p : ExpertProfile) → p.expert_id ≡ u.id
      → All (Earned reviewed_list (w.expert_profiles ++ p ∷ [])) (raised_users old)
  raised old again p same =
      All-replace user_key _ u.id _ w.users
        (λ _. (
          subst (λ j. 1 ≤ count (is_approval_of j) reviewed_list)
              (sym (lookup-key user_key a.expert_id w.users u known)
                ∙ sym (lookup-key user_key u.id w.users old again))
              (approve_more id admin_id w.now none a w.applications found waiting),
          ground (
            arith,
            lookup-key user_key u.id w.users old again,
            count-append (is_profile_of old.id) w.expert_profiles (p ∷ []),
          ),
        ))
        (Earned-more w.applications _ w.expert_profiles _ w.users
          (review_more id admin_id w.now none a w.applications found waiting approved)
          (λ j. omega (arith, count-append (is_profile_of j) w.expert_profiles (p ∷ []))) h.earned)

  abbrev raised_state : User → World
  raised_state old = record w { applications = reviewed_list; users = raised_users old }

  -- What the two updates lead to.
  updates_led :
      (b : ExpertApplication) (x : User) (w1 w2 : World)
      → update_application id approved admin_id none w ≡ (ok b, w1)
      → update_user u.id (record no_changes { role = some expert }) w1 ≡ (ok x, w2)
      → (old : User) × (lookup user_key u.id w.users ≡ some old)
        × (x.id ≡ old.id)
        × (w2 ≡ raised_state old)
  updates_led b x w1 w2 e1 e2 =
      let (old, found', b_eq, w1_eq) = update_application-led id approved admin_id none w w1 b e1 in
      let (y, again, x_eq, w2_eq) =
        update_user-led u.id (record no_changes { role = some expert }) w1 w2 x e2 in
      let same = some_inj (sym found' ∙ found) in
      (
        y,
        ap (λ s. lookup user_key u.id s.users) (sym w1_eq) ∙ again,
        ap (λ z. z.id) x_eq,
        w2_eq
            ∙ ap {B = World} (λ z. record w1 { users = replace user_key u.id z w1.users }) x_eq
            ∙ ap {B = World}
                (λ s. record s {
                  users =
                      replace user_key u.id
                        (changed_user s.now (record no_changes { role = some expert }) y) s.users;
                })
                w1_eq
            ∙ ap {B = World}
                (λ z. record w {
                  applications = replace application_key id z w.applications;
                  users = raised_users y;
                })
                (b_eq ∙ ap (reviewed approved w.now admin_id none) same),
      )

  made_expert-Earned :
      (b : ExpertApplication) (x old : User) (s v : World) (t : Unit {0})
      → lookup user_key u.id w.users ≡ some old
      → x.id ≡ old.id
      → s ≡ raised_state old
      → make_expert b x w.now s ≡ (ok t, v)
      → IsEarned v
  unfolding make_expert insert_expert_profile ◌>>=◌
  made_expert-Earned b x old s v t again same s_eq done = subst IsEarned (ap (λ p. p.1) done) (
      (announce_approval-Keeps x b.form w.now).kept _ (
        subst
          (λ s. IsEarned (record s {
            next_id = suc s.next_id;
            expert_profiles = s.expert_profiles ++ new_expert_profile s.next_id x.id b w.now ∷ [];
          }))
          (sym s_eq)
          (record {
            earned =
                raised old again (new_expert_profile w.next_id x.id b w.now)
                  (same ∙ lookup-key user_key u.id w.users old again);
          })))

  approve_work-Earned :
      (t : Unit {0}) (v : World) → approve_work id admin_id u.id w ≡ (ok t, v) → IsEarned v
  unfolding approve_work
  approve_work-Earned t v done =
      let (b, w1, e1, k1) = >>=-eq-ok _ _ w v t (gets-eq-ok (λ s. s.now) _ w v t done) in
      let (x, w2, e2, k2) = >>=-eq-ok _ _ w1 v t k1 in
      let (old, again, same, w2_eq) = updates_led b x w1 w2 e1 e2 in
      made_expert-Earned b x old w2 v t again same w2_eq k2

pub approve-Keeps : (id admin_id : ℕ) → Keeps IsEarned (approve_expert_application id admin_id)
unfolding approve_expert_application
approve-Keeps id admin_id = record {
  kept = λ w h.
      (Reaches-query (λ v. lookup application_key id v.applications) not_found _ (λ _. h)
        λ a found. Reaches-raise_if (not (is_pending a.status)) not_pending _ h λ waiting.
          Reaches-query (λ v. lookup user_key a.expert_id v.users) not_found _ (λ _. h)
            λ u known.
              Reaches-raise_if (not (is_applicant u.role)) not_an_applicant _ h λ applicant.
                Reaches-bind _ _
                  (Reaches-transact rollback (approve_work id admin_id u.id)
                    (approve_work-Earned id admin_id w h a u found (ground arith) known)
                    (λ v. record { earned = h.earned }))
                  (λ _. search keeps_rules)).reached;
}
