-- ===== src/Skill/Enrollment/Placement.antt =====
-- `enrollInCohort`, and the cohorts that memberships are of.
use skill_stew_api.Prelude.{ℕ, ◌≢◌, Option, none, some, List, All-filter, All-map, arith}
use skill_stew_api.Prelude.Sorting.{All-sort}
use skill_stew_api.Prelude.Table.{lookup, lookup-key}
use skill_stew_api.Effect.Rules.{
  Keeps, keeps_rules, Keeps-bind, Keeps-gets, Keeps-for_each_where, Reaches, Reaches-query,
  Keeps-Reaches, transact_rule,
}
use skill_stew_api.Skill.Membership.{Membership, MembershipStatus, pending_payment, new_membership}
use skill_stew_api.Skill.Cohort.{Cohort}
use skill_stew_api.Skill.Workshop.{Workshop}
use skill_stew_api.Skill.World.{World, CheckoutRequest, CheckoutSession, rollback, fresh_id}
use skill_stew_api.Skill.Repos.{cohort_key, find_by_user_and_statuses, find_by_cohort_and_statuses}
use skill_stew_api.Skill.Placement.{
  HasCohort, IsPlaced, save_membership-IsPlaced, create_membership-IsPlaced, create_membership-then,
  update_membership-HasCohort,
}
use skill_stew_api.Skill.Enrollment.{
  EnrollmentResponse, expire, expire_stale_of_user, expire_stale_of_cohort, create_checkout_session,
  resume, resume_live, join_free, reserve, take_seat, finish, settle, enroll_work, enroll_in_cohort,
}

module _ (cs : List Cohort) where
  expire-IsPlaced : (m : Membership) → HasCohort cs m → Keeps (IsPlaced cs) (expire m)
  unfolding expire
  expire-IsPlaced m known =
      search (keeps_rules, save_membership-IsPlaced cs, update_membership-HasCohort cs m _ known)

  user_sweep-IsPlaced : (user : ℕ) → Keeps (IsPlaced cs) (expire_stale_of_user user)
  unfolding expire_stale_of_user find_by_user_and_statuses
  user_sweep-IsPlaced user = record {
    kept = λ v h.
        (Keeps-for_each_where expire _ (
            All-map expire-IsPlaced _
              (All-filter (HasCohort cs) _ _ (All-filter (HasCohort cs) _ v.memberships h)))).kept
          v h;
  }

  cohort_sweep-IsPlaced : (id : ℕ) → Keeps (IsPlaced cs) (expire_stale_of_cohort id)
  unfolding expire_stale_of_cohort find_by_cohort_and_statuses
  cohort_sweep-IsPlaced id = record {
    kept = λ v h.
        (Keeps-for_each_where expire _ (
            All-map expire-IsPlaced _ (
              All-filter (HasCohort cs) _ _
                (All-sort (HasCohort cs) _ _ (All-filter (HasCohort cs) _ v.memberships h))))).kept
          v h;
  }

  fresh_id-IsPlaced : Keeps (IsPlaced cs) fresh_id
  fresh_id-IsPlaced = record { kept = λ v h. h }

  module _ (c : Cohort) (known : lookup cohort_key c.id cs ≢ none) where
    new-HasCohort :
        (id user : ℕ) (s : MembershipStatus) (joined expires : Option ℕ)
        → HasCohort cs (new_membership id c.id user s joined expires)
    unfolding new_membership
    new-HasCohort id user s joined expires = known

    join_free-IsPlaced : (user : ℕ) → Keeps (IsPlaced cs) (join_free c user)
    unfolding join_free
    join_free-IsPlaced user =
        search (keeps_rules, fresh_id-IsPlaced, create_membership-IsPlaced cs, new-HasCohort)

    module _ (pay : CheckoutRequest → Option CheckoutSession) where
      checkout-IsPlaced :
          (id : ℕ) (x : Workshop) (user : ℕ)
          → Keeps (IsPlaced cs) (create_checkout_session pay id c x user)
      unfolding create_checkout_session
      checkout-IsPlaced id x user = record { kept = λ v h. h }

      resume-IsPlaced :
          (s : MembershipStatus) (x : Workshop) (user : ℕ) (m : Membership)
          → Keeps (IsPlaced cs) (resume pay s c x user m)
      unfolding resume
      resume-IsPlaced pending_payment x user m = search (keeps_rules, checkout-IsPlaced)
      resume-IsPlaced _ x user m = search keeps_rules

      resume_live-IsPlaced :
          (x : Workshop) (user : ℕ) (m : Option Membership)
          → Keeps (IsPlaced cs) (resume_live pay c x user m)
      unfolding resume_live
      resume_live-IsPlaced x user none = search keeps_rules
      resume_live-IsPlaced x user (some m) = resume-IsPlaced m.status x user m

      reserve-IsPlaced : (x : Workshop) (user : ℕ) → Keeps (IsPlaced cs) (reserve pay c x user)
      unfolding reserve
      reserve-IsPlaced x user = Keeps-bind fresh_id _ fresh_id-IsPlaced λ id.
          Keeps-bind _ _ (Keeps-gets _) λ now.
            create_membership-then cs _ _ (new-HasCohort id user pending_payment none _)
              λ saved placed. search (
                keeps_rules,
                checkout-IsPlaced,
                save_membership-IsPlaced cs,
                update_membership-HasCohort cs saved _ placed,
              )

      take_seat-IsPlaced :
          (x : Workshop) (user : ℕ) (entries : List Cohort)
          → Keeps (IsPlaced cs) (take_seat pay c x user entries)
      unfolding take_seat
      take_seat-IsPlaced x user entries =
          search (keeps_rules, join_free-IsPlaced, reserve-IsPlaced) depth 12

      finish-IsPlaced :
          (x : Workshop) (user : ℕ) (entries : List Cohort) (settled : Option EnrollmentResponse)
          → Keeps (IsPlaced cs) (finish pay c x user entries settled)
      unfolding finish
      finish-IsPlaced x user entries none = take_seat-IsPlaced x user entries
      finish-IsPlaced x user entries (some r) = search keeps_rules

      settle-IsPlaced : (user : ℕ) → Keeps (IsPlaced cs) (settle pay c user)
      unfolding settle
      settle-IsPlaced user = search (keeps_rules, resume_live-IsPlaced, finish-IsPlaced) depth 12

module _ (pay : CheckoutRequest → Option CheckoutSession) (id user : ℕ) (w : World)
    (h : IsPlaced w.cohorts w) where
  work-IsPlaced : Reaches (IsPlaced w.cohorts) w (enroll_work pay id user)
  unfolding enroll_work
  work-IsPlaced =
      Reaches-query _ _ _ (λ _. h)
        λ c found.
          let key = lookup-key cohort_key id w.cohorts c found in
          Keeps-Reaches h (
            search
              (
                keeps_rules,
                user_sweep-IsPlaced w.cohorts,
                cohort_sweep-IsPlaced w.cohorts,
                settle-IsPlaced w.cohorts c (ground arith) pay,
              )
              depth 16)

  pub enroll_in_cohort-IsPlaced : IsPlaced w.cohorts (enroll_in_cohort pay id user w).1
  unfolding enroll_in_cohort
  enroll_in_cohort-IsPlaced =
      transact_rule rollback (IsPlaced w.cohorts) w (enroll_work pay id user)
        (λ _ v s. rw s at work-IsPlaced.reached) (λ _ _ _. h)
