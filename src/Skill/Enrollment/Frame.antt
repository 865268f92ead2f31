-- ===== src/Skill/Enrollment/Frame.antt =====
-- What every step of an enrolment leaves alone, whether it returns or throws.
use skill_stew_api.Prelude.{ℕ, Option, none, some, List, arith}
use skill_stew_api.Skill.Membership.{Membership, MembershipStatus, pending_payment}
use skill_stew_api.Skill.Cohort.{Cohort}
use skill_stew_api.Skill.Workshop.{Workshop}
use skill_stew_api.Skill.World.{World, CheckoutRequest, CheckoutSession}
use skill_stew_api.Effect.Rules.{Keeps, Keeps-for_each, keeps_rules}
use skill_stew_api.Skill.Frame.{
  Frame, save_membership-Frame, create_membership-Frame, fresh_id-Frame,
}
use skill_stew_api.Skill.Enrollment.{
  EnrollmentResponse, expire, expire_stale_of_user, expire_stale_of_cohort, create_checkout_session,
  resume, resume_live, join_free, reserve, take_seat, finish, settle, enroll_work,
}

module _ {w : World} where
  expire-Frame : (m : Membership) → Keeps (Frame w) (expire m)
  unfolding expire
  expire-Frame m = search (keeps_rules, save_membership-Frame)

  pub expire_stale_of_user-Frame : (user : ℕ) → Keeps (Frame w) (expire_stale_of_user user)
  unfolding expire_stale_of_user
  expire_stale_of_user-Frame user = record {
    kept = λ v h. (Keeps-for_each expire _ expire-Frame).kept v h;
  }

  pub expire_stale_of_cohort-Frame : (id : ℕ) → Keeps (Frame w) (expire_stale_of_cohort id)
  unfolding expire_stale_of_cohort
  expire_stale_of_cohort-Frame id = record {
    kept = λ v h. (Keeps-for_each expire _ expire-Frame).kept v h;
  }

  join_free-Frame : (c : Cohort) (user : ℕ) → Keeps (Frame w) (join_free c user)
  unfolding join_free
  join_free-Frame c user = search (keeps_rules, fresh_id-Frame, create_membership-Frame)

  module _ (pay : CheckoutRequest → Option CheckoutSession) where
    checkout-Frame :
        (id : ℕ) (c : Cohort) (x : Workshop) (user : ℕ)
        → Keeps (Frame w) (create_checkout_session pay id c x user)
    unfolding create_checkout_session
    checkout-Frame id c x user = record { kept = λ v h. ground arith }

    resume-Frame :
        (s : MembershipStatus) (c : Cohort) (x : Workshop) (user : ℕ) (m : Membership)
        → Keeps (Frame w) (resume pay s c x user m)
    unfolding resume
    resume-Frame pending_payment c x user m = search (keeps_rules, checkout-Frame)
    resume-Frame _ c x user m = search keeps_rules

    resume_live-Frame :
        (c : Cohort) (x : Workshop) (user : ℕ) (m : Option Membership)
        → Keeps (Frame w) (resume_live pay c x user m)
    unfolding resume_live
    resume_live-Frame c x user none = search keeps_rules
    resume_live-Frame c x user (some m) = resume-Frame m.status c x user m

    reserve-Frame : (c : Cohort) (x : Workshop) (user : ℕ) → Keeps (Frame w) (reserve pay c x user)
    unfolding reserve
    reserve-Frame c x user =
        search
          (
            keeps_rules, fresh_id-Frame, create_membership-Frame, save_membership-Frame,
            checkout-Frame,
          )
          depth 12

    pub take_seat-Frame :
        (c : Cohort) (x : Workshop) (user : ℕ) (entries : List Cohort)
        → Keeps (Frame w) (take_seat pay c x user entries)
    unfolding take_seat
    take_seat-Frame c x user entries = search (keeps_rules, join_free-Frame, reserve-Frame) depth 12

    finish-Frame :
        (c : Cohort) (x : Workshop) (user : ℕ) (entries : List Cohort)
        (settled : Option EnrollmentResponse)
        → Keeps (Frame w) (finish pay c x user entries settled)
    unfolding finish
    finish-Frame c x user entries none = take_seat-Frame c x user entries
    finish-Frame c x user entries (some r) = search keeps_rules

    settle-Frame : (c : Cohort) (user : ℕ) → Keeps (Frame w) (settle pay c user)
    unfolding settle
    settle-Frame c user = search (keeps_rules, resume_live-Frame, finish-Frame) depth 12

    pub enroll_work-Frame : (id user : ℕ) → Keeps (Frame w) (enroll_work pay id user)
    unfolding enroll_work
    enroll_work-Frame id user =
        search (keeps_rules, expire_stale_of_user-Frame, expire_stale_of_cohort-Frame, settle-Frame)
          depth 16
