-- ===== src/Skill/PaymentEvents/Placement.antt =====
-- The handlers of the payment events, and the cohorts that memberships are of.
use skill_stew_api.Prelude.{◌≡◌, some, List}
use skill_stew_api.Prelude.Table.{lookup, All-lookup}
use skill_stew_api.Effect.Rules.{
  Keeps, keeps_rules, Reaches, reach_rules, Keeps-Reaches, transact_rule,
}
use skill_stew_api.Skill.Membership.{Membership, MembershipChanges}
use skill_stew_api.Skill.Cohort.{Cohort}
use skill_stew_api.Skill.World.{World, rollback}
use skill_stew_api.Skill.Repos.{membership_key}
use skill_stew_api.Skill.Placement.{
  HasCohort, IsPlaced, save_membership-IsPlaced, update_membership-HasCohort,
}
use skill_stew_api.Skill.PaymentEvents.{
  PaymentEvent, Outcome, apply_changes, confirm, payment_succeeded_work, handle_payment_succeeded,
  payment_outcome_work, apply_payment_outcome,
}

module _ (cs : List Cohort) where
  module _ (m : Membership) (known : HasCohort cs m) where
    apply_changes-IsPlaced : (c : MembershipChanges) → Keeps (IsPlaced cs) (apply_changes m c)
    unfolding apply_changes
    apply_changes-IsPlaced c =
        search (keeps_rules, save_membership-IsPlaced cs, update_membership-HasCohort cs m c known)

    confirm-IsPlaced : (e : PaymentEvent) → Keeps (IsPlaced cs) (confirm e m)
    unfolding confirm
    confirm-IsPlaced e = search (keeps_rules, apply_changes-IsPlaced) depth 12

  module _ (e : PaymentEvent) (w : World) (h : IsPlaced cs w) where
    known_of :
        (m : Membership)
        → lookup membership_key e.membership_id w.memberships ≡ some m
        → HasCohort cs m
    known_of m found =
        All-lookup membership_key (HasCohort cs) e.membership_id w.memberships m h found

    apply_changes-Reaches :
        (m : Membership)
        → lookup membership_key e.membership_id w.memberships ≡ some m
        → (c : MembershipChanges) → Reaches (IsPlaced cs) w (apply_changes m c)
    apply_changes-Reaches m found c =
        Keeps-Reaches h (apply_changes-IsPlaced m (known_of m found) c)

    confirm-Reaches :
        (m : Membership)
        → lookup membership_key e.membership_id w.memberships ≡ some m
        → Reaches (IsPlaced cs) w (confirm e m)
    confirm-Reaches m found = Keeps-Reaches h (confirm-IsPlaced m (known_of m found) e)

    succeeded_work-IsPlaced : Reaches (IsPlaced cs) w (payment_succeeded_work e)
    unfolding payment_succeeded_work
    succeeded_work-IsPlaced = search (reach_rules, apply_changes-Reaches, confirm-Reaches) depth 12

    outcome_work-IsPlaced : (o : Outcome) → Reaches (IsPlaced cs) w (payment_outcome_work o e)
    unfolding payment_outcome_work
    outcome_work-IsPlaced o = search (reach_rules, apply_changes-Reaches) depth 12

    pub handle_payment_succeeded-IsPlaced : IsPlaced cs (handle_payment_succeeded e w).1
    unfolding handle_payment_succeeded
    handle_payment_succeeded-IsPlaced =
        transact_rule rollback (IsPlaced cs) w (payment_succeeded_work e)
          (λ _ v s. rw s at succeeded_work-IsPlaced.reached) (λ _ _ _. h)

    pub apply_payment_outcome-IsPlaced : (o : Outcome) → IsPlaced cs (apply_payment_outcome o e w).1
    unfolding apply_payment_outcome
    apply_payment_outcome-IsPlaced o =
        transact_rule rollback (IsPlaced cs) w (payment_outcome_work o e)
          (λ _ v s. rw s at (outcome_work-IsPlaced o).reached) (λ _ _ _. h)
