-- ===== src/Skill/Enrollment/Runs.antt =====
-- What a run of the enrolment has gone through when it returns.
use skill_stew_api.Prelude.{
  ℕ, ◌<◌, ◌≡◌, ◌≢◌, false, not, Option, none, some, List, arith, refl, subst,
}
use skill_stew_api.Prelude.Table.{lookup}
use skill_stew_api.Skill.Membership.{Membership, MembershipStatus, pending_payment}
use skill_stew_api.Skill.Cohort.{Cohort, derived_status, cohort_status, is_upcoming}
use skill_stew_api.Skill.Workshop.{Workshop}
use skill_stew_api.Effect.{ok}
use skill_stew_api.Skill.World.{World, CheckoutRequest, CheckoutSession}
use skill_stew_api.Effect.Inversion.{>>=-eq-ok, gets-eq-ok, query-eq-ok, raise_if-eq-ok}
use skill_stew_api.Skill.Repos.{cohort_key, find_by_user_and_statuses}
use skill_stew_api.Skill.Enrollment.{
  EnrollmentResponse, to_enrollment_response, live_statuses, same_membership, same_workshop_entries,
  expire_stale_of_user, expire_stale_of_cohort, create_checkout_session, resume, resume_live,
  take_seat, finish, settle, enroll_work,
}

-- The live memberships of the user.
abbrev pub live_of : ℕ → World → List Membership
live_of user w = find_by_user_and_statuses user live_statuses w.memberships

-- The cohorts of the workshop of `c` that the live memberships of the user are for.
abbrev pub entries_of : Cohort → ℕ → World → List Cohort
entries_of c user w = same_workshop_entries c (live_of user w) w.cohorts

is_upcoming-lt :
    (c : Cohort) (now : ℕ)
    → not (is_upcoming (cohort_status c now)) ≡ false
    → now < c.first_session_starts_at
unfolding derived_status
is_upcoming-lt c now h = ground arith

module _ (pay : CheckoutRequest → Option CheckoutSession) where
  -- A request that returns has resumed a reservation of the same cohort, which changes no
  -- collection, or has found none and taken a seat.
  pub data Settled (c : Cohort) (user : ℕ) (w : World) (r : EnrollmentResponse) (v : World)
      : Type 0 where
    resumed :
        (m : Membership) (s : CheckoutSession)
        → same_membership c (live_of user w) (entries_of c user w) ≡ some m
        → m.status ≡ pending_payment
        → r ≡ to_enrollment_response m (some s)
        → v.memberships ≡ w.memberships
        → v.next_id ≡ w.next_id
        → Settled c user w r v
    seated :
        (x : Workshop)
        → take_seat pay c x user (entries_of c user w) w ≡ (ok r, v)
        → Settled c user w r v

  pub record Enrolled (id user : ℕ) (w : World) (r : EnrollmentResponse) (v : World) : Type 0 where
    pub cohort : Cohort
    pub user_swept : World
    pub swept : World
    pub found : lookup cohort_key id w.cohorts ≡ some cohort
    pub not_expert : cohort.expert_id ≢ user
    pub upcoming : swept.now < cohort.first_session_starts_at
    pub user_sweep : expire_stale_of_user user w ≡ (ok tt, user_swept)
    pub cohort_sweep : expire_stale_of_cohort cohort.id user_swept ≡ (ok tt, swept)
    pub settled : Settled cohort user swept r v

  checkout-eq-ok :
      (id : ℕ) (c : Cohort) (x : Workshop) (user : ℕ) (w v : World) (s : CheckoutSession)
      → create_checkout_session pay id c x user w ≡ (ok s, v)
      → (v.memberships ≡ w.memberships) × (v.next_id ≡ w.next_id)
  unfolding create_checkout_session
  checkout-eq-ok id c x user w v s h = ground arith

  resume-eq-ok_some :
      (s : MembershipStatus) (c : Cohort) (x : Workshop) (user : ℕ) (m : Membership) (w v : World)
      (r : EnrollmentResponse)
      → resume pay s c x user m w ≡ (ok (some r), v)
      → (co : CheckoutSession) × (s ≡ pending_payment)
        × (r ≡ to_enrollment_response m (some co))
        × (v.memberships ≡ w.memberships)
        × (v.next_id ≡ w.next_id)
  unfolding resume
  resume-eq-ok_some pending_payment c x user m w v r h =
      let (co, u, e, k) = >>=-eq-ok (create_checkout_session pay m.id c x user) _ w v (some r) h in
      let (same_ms, same_id) = checkout-eq-ok m.id c x user w u co e in
      (co, refl, ground arith, ground arith, ground arith)
  resume-eq-ok_some _ c x user m w v r h = cc

  resume-eq-ok_none :
      (s : MembershipStatus) (c : Cohort) (x : Workshop) (user : ℕ) (m : Membership) (w v : World)
      → resume pay s c x user m w ≡ (ok none, v)
      → v ≡ w
  unfolding resume
  resume-eq-ok_none pending_payment c x user m w v h =
      let (co, u, e, k) = >>=-eq-ok (create_checkout_session pay m.id c x user) _ w v none h in cc
  resume-eq-ok_none _ c x user m w v h = ground arith

  resume_live-eq-ok_none :
      (c : Cohort) (x : Workshop) (user : ℕ) (m : Option Membership) (w v : World)
      → resume_live pay c x user m w ≡ (ok none, v)
      → v ≡ w
  unfolding resume_live
  resume_live-eq-ok_none c x user none w v h = ground arith
  resume_live-eq-ok_none c x user (some m) w v h = resume-eq-ok_none m.status c x user m w v h

  finish-Settled :
      (c : Cohort) (x : Workshop) (user : ℕ) (w u v : World) (r : EnrollmentResponse)
      (m : Option Membership) (settled : Option EnrollmentResponse)
      → same_membership c (live_of user w) (entries_of c user w) ≡ m
      → resume_live pay c x user m w ≡ (ok settled, u)
      → finish pay c x user (entries_of c user w) settled u ≡ (ok r, v)
      → Settled c user w r v
  unfolding finish resume_live
  finish-Settled c x user w u v r (some m) (some r') same run h =
      let (co, pending, response, ms, ids) = resume-eq-ok_some m.status c x user m w u r' run in
      resumed m co same pending (ground arith) (ground arith) (ground arith)
  finish-Settled c x user w u v r none (some r') same run h = absurd (ground arith)
  finish-Settled c x user w u v r m none same run h = seated x (
      subst (λ y. take_seat pay c x user (entries_of c user w) y ≡ (ok r, v))
        (resume_live-eq-ok_none c x user m w u run) h)

  settle-Settled :
      (c : Cohort) (user : ℕ) (w v : World) (r : EnrollmentResponse)
      → settle pay c user w ≡ (ok r, v)
      → Settled c user w r v
  unfolding settle
  settle-Settled c user w v r h =
      let h1 = gets-eq-ok _ _ w v r h in
      let h2 = gets-eq-ok _ _ w v r h1 in
      let (x, _, h3) = query-eq-ok _ _ _ w v r h2 in
      let (settled, u, run, h4) = >>=-eq-ok _ _ w v r h3 in
      finish-Settled c x user w u v r _ settled refl run h4

  -- Every enrolment that returns is such a run.
  pub enroll_work-Enrolled :
      (id user : ℕ) (w v : World) (r : EnrollmentResponse)
      → enroll_work pay id user w ≡ (ok r, v)
      → Enrolled id user w r v
  unfolding enroll_work
  enroll_work-Enrolled id user w v r h =
      let (c, found, h1) = query-eq-ok _ _ _ w v r h in
      let (other, h2) = raise_if-eq-ok _ _ _ w v r h1 in
      let (_, u1, sweep1, h3) = >>=-eq-ok _ _ w v r h2 in
      let (_, u2, sweep2, h4) = >>=-eq-ok _ _ u1 v r h3 in
      let h5 = gets-eq-ok _ _ u2 v r h4 in
      let (open_, h6) = raise_if-eq-ok _ _ _ u2 v r h5 in
      record {
        cohort = c;
        user_swept = u1;
        swept = u2;
        found = found;
        not_expert = ground arith;
        upcoming = is_upcoming-lt c u2.now open_;
        user_sweep = ground arith;
        cohort_sweep = ground arith;
        settled = settle-Settled c user u2 v r h6;
      }
