-- ===== src/Skill/Soundness/Requests.antt =====
-- The enrolment and the payment events on the three collections.
use skill_stew_api.Prelude.{ℕ, Option}
use skill_stew_api.Effect.Rules.{transact_rule}
use skill_stew_api.Skill.World.{World, CheckoutRequest, CheckoutSession, rollback}
use skill_stew_api.Skill.Frame.{Frame, Frame-refl, rollback-Frame}
use skill_stew_api.Skill.Enrollment.{enroll_work, enroll_in_cohort}
use skill_stew_api.Skill.Enrollment.Frame.{enroll_work-Frame}
use skill_stew_api.Skill.Enrollment.Capacity.{enroll_in_cohort-IsValid}
use skill_stew_api.Skill.Enrollment.Placement.{enroll_in_cohort-IsPlaced}
use skill_stew_api.Skill.PaymentEvents.{
  PaymentEvent, Outcome, payment_succeeded_work, payment_outcome_work, handle_payment_succeeded,
  apply_payment_outcome,
}
use skill_stew_api.Skill.PaymentEvents.Safety.{
  payment_succeeded_work-Frame, payment_outcome_work-Frame, handle_payment_succeeded-IsValid,
  apply_payment_outcome-IsValid,
}
use skill_stew_api.Skill.PaymentEvents.Placement.{
  handle_payment_succeeded-IsPlaced, apply_payment_outcome-IsPlaced,
}
use skill_stew_api.Skill.Soundness.{IsSound, Frame-IsSound}

pub enroll_in_cohort-Frame :
    (pay : CheckoutRequest → Option CheckoutSession) (id user : ℕ) (w : World)
    → Frame w (enroll_in_cohort pay id user w).1
unfolding enroll_in_cohort
enroll_in_cohort-Frame pay id user w =
    let frame = (enroll_work-Frame pay id user).kept w (Frame-refl w) in
    transact_rule rollback (Frame w) w (enroll_work pay id user) (λ _ v e. rw e at frame)
      (λ _ v e. rollback-Frame w v (rw e at frame))

pub handle_payment_succeeded-Frame :
    (e : PaymentEvent) (w : World) → Frame w (handle_payment_succeeded e w).1
unfolding handle_payment_succeeded
handle_payment_succeeded-Frame e w =
    let frame = (payment_succeeded_work-Frame e).kept w (Frame-refl w) in
    transact_rule rollback (Frame w) w (payment_succeeded_work e) (λ _ v s. rw s at frame)
      (λ _ v s. rollback-Frame w v (rw s at frame))

pub apply_payment_outcome-Frame :
    (o : Outcome) (e : PaymentEvent) (w : World) → Frame w (apply_payment_outcome o e w).1
unfolding apply_payment_outcome
apply_payment_outcome-Frame o e w =
    let frame = (payment_outcome_work-Frame o e).kept w (Frame-refl w) in
    transact_rule rollback (Frame w) w (payment_outcome_work o e) (λ _ v s. rw s at frame)
      (λ _ v s. rollback-Frame w v (rw s at frame))

pub enroll_in_cohort-IsSound :
    (pay : CheckoutRequest → Option CheckoutSession) (id user : ℕ) (w : World)
    → IsSound w
    → IsSound (enroll_in_cohort pay id user w).1
enroll_in_cohort-IsSound pay id user w h =
    Frame-IsSound w _ (enroll_in_cohort-Frame pay id user w)
      (enroll_in_cohort-IsValid pay id user w h.valid)
      (enroll_in_cohort-IsPlaced pay id user w h.placed) h

pub handle_payment_succeeded-IsSound :
    (e : PaymentEvent) (w : World) → IsSound w → IsSound (handle_payment_succeeded e w).1
handle_payment_succeeded-IsSound e w h =
    Frame-IsSound w _ (handle_payment_succeeded-Frame e w)
      (handle_payment_succeeded-IsValid e w h.valid)
      (handle_payment_succeeded-IsPlaced w.cohorts e w h.placed) h

pub apply_payment_outcome-IsSound :
    (o : Outcome) (e : PaymentEvent) (w : World)
    → IsSound w
    → IsSound (apply_payment_outcome o e w).1
apply_payment_outcome-IsSound o e w h =
    Frame-IsSound w _ (apply_payment_outcome-Frame o e w)
      (apply_payment_outcome-IsValid o e w h.valid)
      (apply_payment_outcome-IsPlaced w.cohorts e w h.placed o) h
