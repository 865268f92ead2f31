-- ===== src/Skill/PaymentEvents/Safety.antt =====
-- The handlers of the payment events and the invariant of the collections.
use skill_stew_api.Prelude.{ℕ, ◌≤◌, ◌≡◌, false, not, some, arith, refl, sym, subst, ◌∙◌, to_bit}
use skill_stew_api.Prelude.Table.{lookup, lookup-key}
use skill_stew_api.Skill.Membership.{
  Membership, MembershipStatus, MembershipChanges, pending_payment, status_eq, update_membership,
}
use skill_stew_api.Effect.{◌>>=◌}
use skill_stew_api.Skill.World.{World, rollback}
use skill_stew_api.Effect.Rules.{Keeps, keeps_rules, transact_rule, Reaches, reach_rules}
use skill_stew_api.Skill.Repos.{membership_key, save_membership}
use skill_stew_api.Skill.Seats.{is_stale}
use skill_stew_api.Skill.Seats.Counting.{is_holding}
use skill_stew_api.Skill.Frame.{Frame, Frame-refl, save_membership-Frame}
use skill_stew_api.Skill.Invariant.{IsDated, IsValid, save_IsValid, rollback-IsValid}
use skill_stew_api.Skill.PaymentEvents.{
  PaymentEvent, Outcome, apply_changes, to_reconcile, to_reconcile_other, to_active, to_outcome,
  confirm, payment_succeeded_work, payment_outcome_work, handle_payment_succeeded,
  apply_payment_outcome,
}

module _ {w : World} where
  apply_changes-Frame :
      (m : Membership) (c : MembershipChanges) → Keeps (Frame w) (apply_changes m c)
  unfolding apply_changes
  apply_changes-Frame m c = search (keeps_rules, save_membership-Frame)

  confirm-Frame : (e : PaymentEvent) (m : Membership) → Keeps (Frame w) (confirm e m)
  unfolding confirm
  confirm-Frame e m = search (keeps_rules, apply_changes-Frame) depth 12

  pub payment_succeeded_work-Frame : (e : PaymentEvent) → Keeps (Frame w) (payment_succeeded_work e)
  unfolding payment_succeeded_work
  payment_succeeded_work-Frame e = search (keeps_rules, apply_changes-Frame, confirm-Frame) depth 12

  pub payment_outcome_work-Frame :
      (o : Outcome) (e : PaymentEvent) → Keeps (Frame w) (payment_outcome_work o e)
  unfolding payment_outcome_work
  payment_outcome_work-Frame o e = search (keeps_rules, apply_changes-Frame) depth 12

pub apply_changes_state :
    (m : Membership) (c : MembershipChanges) (w : World)
    → (apply_changes m c w).1 ≡ (save_membership (update_membership m c) w).1
unfolding apply_changes ◌>>=◌
apply_changes_state m c w = ground arith

pub update_membership-id :
    (m : Membership) (c : MembershipChanges) → (update_membership m c).id ≡ m.id
unfolding update_membership
update_membership-id m c = refl

-- Changes that take up no seat which the membership did not hold keep the invariant.
module _ (w : World) (valid : IsValid w) (id : ℕ) (m : Membership)
    (found : lookup membership_key id w.memberships ≡ some m) where
  apply_changes-IsValid :
      (c : MembershipChanges)
      → IsDated (update_membership m c)
      → ((j : ℕ)
          → to_bit (is_holding w.now j (update_membership m c)) ≤ to_bit (is_holding w.now j m))
      → Reaches IsValid w (apply_changes m c)
  apply_changes-IsValid c dated less =
      let key = update_membership-id m c ∙ lookup-key membership_key id w.memberships m found in
      record {
        reached = rw (apply_changes_state m c w) (
            save_IsValid (update_membership m c) m w valid
              (subst (λ k. lookup membership_key k w.memberships ≡ some m) (sym key) found) dated
              less);
      }

  reconcile-IsValid : (e : PaymentEvent) → Reaches IsValid w (apply_changes m (to_reconcile e))
  unfolding update_membership
  reconcile-IsValid e = apply_changes-IsValid (to_reconcile e) (ground arith) (λ j. ground arith)

  reconcile_other-IsValid :
      (e : PaymentEvent) → Reaches IsValid w (apply_changes m (to_reconcile_other e))
  unfolding update_membership
  reconcile_other-IsValid e =
      apply_changes-IsValid (to_reconcile_other e) (ground arith) (λ j. ground arith)

  outcome-IsValid :
      (o : Outcome) (e : PaymentEvent) → Reaches IsValid w (apply_changes m (to_outcome o e))
  unfolding update_membership
  outcome-IsValid o e = apply_changes-IsValid (to_outcome o e) (ground arith) (λ j. ground arith)

  -- A reservation that has not lapsed already holds the seat that the payment confirms.
  active-IsValid :
      (e : PaymentEvent)
      → m.status ≡ pending_payment
      → is_stale w.now m ≡ false
      → Reaches IsValid w (apply_changes m (to_active e))
  unfolding update_membership
  active-IsValid e pending live =
      apply_changes-IsValid (to_active e) (ground arith)
        (λ j. ground (arith, valid.dated id m found))

-- Every branch of the handlers.
module _ (e : PaymentEvent) (w : World) (valid : IsValid w) where
  module _ (id : ℕ) (m : Membership) (found : lookup membership_key id w.memberships ≡ some m) where
    confirm-IsValid :
        m.status ≡ pending_payment → is_stale w.now m ≡ false → Reaches IsValid w (confirm e m)
    unfolding confirm
    confirm-IsValid pending live =
        search
          (reach_rules, reconcile-IsValid w valid id m found e, active-IsValid w valid id m found e)
          depth 12

  pending_of_test :
      (s : MembershipStatus) → not (status_eq s pending_payment) ≡ false → s ≡ pending_payment
  pending_of_test s h = ground arith

  succeeded_work-IsValid : Reaches IsValid w (payment_succeeded_work e)
  unfolding payment_succeeded_work
  succeeded_work-IsValid =
      search
        (
          reach_rules,
          reconcile-IsValid w valid e.membership_id,
          reconcile_other-IsValid w valid e.membership_id,
          confirm-IsValid e.membership_id,
          pending_of_test,
        )
        depth 12

  outcome_work-IsValid : (o : Outcome) → Reaches IsValid w (payment_outcome_work o e)
  unfolding payment_outcome_work
  outcome_work-IsValid o =
      search
        (
          reach_rules,
          reconcile-IsValid w valid e.membership_id,
          outcome-IsValid w valid e.membership_id,
        )
        depth 12

-- The handling of a successful payment keeps the invariant, whether it returns or throws: a payment
-- that comes late takes no seat that the membership does not hold.
pub handle_payment_succeeded-IsValid :
    (e : PaymentEvent) (w : World) → IsValid w → IsValid (handle_payment_succeeded e w).1
unfolding handle_payment_succeeded
handle_payment_succeeded-IsValid e w valid =
    let frame = (payment_succeeded_work-Frame e).kept w (Frame-refl w) in
    let done = (succeeded_work-IsValid e w valid).reached in
    transact_rule rollback IsValid w (payment_succeeded_work e) (λ _ v h. rw h at done)
      (λ x v h. rollback-IsValid w v (rw h at frame) valid)

-- The handling of a failed or refunded payment keeps the invariant, whether it returns or throws.
pub apply_payment_outcome-IsValid :
    (o : Outcome) (e : PaymentEvent) (w : World)
    → IsValid w
    → IsValid (apply_payment_outcome o e w).1
unfolding apply_payment_outcome
apply_payment_outcome-IsValid o e w valid =
    let frame = (payment_outcome_work-Frame o e).kept w (Frame-refl w) in
    let done = (outcome_work-IsValid e w valid o).reached in
    transact_rule rollback IsValid w (payment_outcome_work o e) (λ _ v h. rw h at done)
      (λ x v h. rollback-IsValid w v (rw h at frame) valid)
