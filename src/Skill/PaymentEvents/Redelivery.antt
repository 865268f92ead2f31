-- ===== src/Skill/PaymentEvents/Redelivery.antt =====
-- The message broker delivers an event at least once: what a second delivery does.
use skill_stew_api.Prelude.{
  ℕ, ap, some_inj, ◌≡◌, ◌≢◌, ◌∙◌, true, false, some, none, arith, refl, sym, subst,
}
use skill_stew_api.Prelude.Table.{lookup, lookup-replace, lookup-key}
use skill_stew_api.Skill.Membership.{
  Membership, MembershipStatus, MembershipChanges, active, status_eq, update_membership,
}
use skill_stew_api.Effect.{Result, ok, ◌>>=◌, transact}
use skill_stew_api.Skill.World.{World, Error, rollback}
use skill_stew_api.Effect.Rules.{Reaches, reach_rules, Reaches-query, Reaches-gets}
use skill_stew_api.Effect.Inversion.{transact-eq-ok}
use skill_stew_api.Skill.Repos.{membership_key, save_membership}
use skill_stew_api.Skill.PaymentEvents.{
  PaymentEvent, apply_changes, to_reconcile, to_reconcile_other, to_active, is_payment, confirm,
  payment_succeeded_work, handle_payment_succeeded,
}
use skill_stew_api.Skill.PaymentEvents.Safety.{apply_changes_state, update_membership-id}

-- If the membership of the event is active, it is so under the payment of the event.
pub record IsSettledBy (e : PaymentEvent) (w : World) : Type 0 where
  pub payment :
      (m : Membership)
      → lookup membership_key e.membership_id w.memberships ≡ some m
      → m.status ≡ active
      → m.payment_id ≡ some e.payment_id

-- A membership as `update` stores it.
abbrev stamped : World → Membership → MembershipChanges → Membership
stamped w m c = record (update_membership m c) {
  created_at = m.created_at;
  updated_at = some w.now;
}

module _ (id : ℕ) (w : World) (m : Membership)
    (found : lookup membership_key id w.memberships ≡ some m) where
  pub lookup-apply_changes :
      (c : MembershipChanges)
      → lookup membership_key id (apply_changes m c w).1.memberships ≡ some (stamped w m c)
  unfolding save_membership
  lookup-apply_changes c =
      let key = update_membership-id m c ∙ lookup-key membership_key id w.memberships m found in
      let here : lookup membership_key (update_membership m c).id w.memberships ≡ some m =
        subst (λ k. lookup membership_key k w.memberships ≡ some m) (sym key) found in
      rw (apply_changes_state m c w) (
        rw (here, save_membership)
          (lookup-replace membership_key id (update_membership m c).id (stamped w m c) w.memberships
              m refl here
            ∙ ground (arith, key)))

module _ (e : PaymentEvent) (w : World) (m : Membership)
    (found : lookup membership_key e.membership_id w.memberships ≡ some m) where
  saved_as :
      (c : MembershipChanges)
      → ((update_membership m c).status ≡ active
          → (update_membership m c).payment_id ≡ some e.payment_id)
      → Reaches (IsSettledBy e) w (apply_changes m c)
  saved_as c h = record {
    reached = record {
      payment = λ n known is_active.
          let same = some_inj (sym (lookup-apply_changes e.membership_id w m found c) ∙ known) in
          ap (λ (x : Membership). x.payment_id) (sym same)
          ∙ h (ap (λ (x : Membership). x.status) same ∙ is_active);
    };
  }

  reconcile_settled : Reaches (IsSettledBy e) w (apply_changes m (to_reconcile e))
  unfolding update_membership
  reconcile_settled = saved_as (to_reconcile e) (ground arith)

  reconcile_other_settled : Reaches (IsSettledBy e) w (apply_changes m (to_reconcile_other e))
  unfolding update_membership
  reconcile_other_settled = saved_as (to_reconcile_other e) (ground arith)

  active_settled : Reaches (IsSettledBy e) w (apply_changes m (to_active e))
  unfolding update_membership
  active_settled = saved_as (to_active e) (ground arith)

  not_active_settled : m.status ≢ active → IsSettledBy e w
  not_active_settled h = record {
    payment = λ n known is_active.
        absurd (h (ap (λ (x : Membership). x.status) (some_inj (sym found ∙ known)) ∙ is_active));
  }

  same_payment_settled : is_payment m.payment_id e.payment_id ≡ true → IsSettledBy e w
  same_payment_settled h = record {
    payment = λ n known is_active. let same = some_inj (sym found ∙ known) in ground arith;
  }

  confirm_settled : m.status ≢ active → Reaches (IsSettledBy e) w (confirm e m)
  unfolding confirm
  confirm_settled h =
      search (reach_rules, reconcile_settled, active_settled, not_active_settled) depth 12

none_settled :
    (e : PaymentEvent) (w : World)
    → lookup membership_key e.membership_id w.memberships ≡ none
    → IsSettledBy e w
none_settled e w h = record { payment = λ n known is_active. absurd (ground arith) }

ne-active_of_test : (s : MembershipStatus) → status_eq s active ≡ false → s ≢ active
ne-active_of_test s h = ground arith

succeeded_settled :
    (e : PaymentEvent) (w : World) → Reaches (IsSettledBy e) w (payment_succeeded_work e)
unfolding payment_succeeded_work
succeeded_settled e w = Reaches-query _ _ _ (none_settled e w) λ m found. Reaches-gets _ _ (
    search (
      reach_rules,
      reconcile_settled e w m found,
      reconcile_other_settled e w m found,
      same_payment_settled e w m found,
      confirm_settled e w m found,
      ne-active_of_test,
    ))

-- Redelivery of an event that has been confirmed: nothing changes.
redelivered :
    (e : PaymentEvent) (w : World) (m : Membership)
    → lookup membership_key e.membership_id w.memberships ≡ some m
    → m.status ≡ active
    → m.payment_id ≡ some e.payment_id
    → handle_payment_succeeded e w ≡ (ok tt, w)
unfolding handle_payment_succeeded payment_succeeded_work transact ◌>>=◌
redelivered e w m found is_active paid = ground arith

-- If the membership is active once the event of a successful payment has been handled, then it is
-- active under that payment, and a second delivery of the event changes nothing at all.
pub handle_payment_succeeded_redelivery :
    (e : PaymentEvent) (w v : World) (m : Membership)
    → handle_payment_succeeded e w ≡ (ok tt, v)
    → lookup membership_key e.membership_id v.memberships ≡ some m
    → m.status ≡ active
    → (m.payment_id ≡ some e.payment_id) × (handle_payment_succeeded e v ≡ (ok tt, v))
unfolding handle_payment_succeeded
handle_payment_succeeded_redelivery e w v m h found is_active =
    let work = transact-eq-ok rollback (payment_succeeded_work e) w v tt h in
    let settled =
      subst (λ (p : Result Error (Unit {0}) × World). IsSettledBy e p.1) work
        (succeeded_settled e w).reached in
    let paid = settled.payment m found is_active in (paid, redelivered e v m found is_active paid)
