-- ===== src/Payments/Webhook/Announcing.antt =====
-- `handleStripeWebhook` and the invariant of the tables.
use skill_stew_api.Prelude.{
  ℕ, ◌+◌, ◌≤◌, ◌≡◌, ◌∙◌, refl, false, some, [], ◌∷◌, arith, ◌==◌, to_bit, count-append, inl, inr,
  Bool-cases, Option,
}
use skill_stew_api.Prelude.Table.{lookup}
use skill_stew_api.Payments.World.{PaymentStatus, World}
use skill_stew_api.Payments.Rows.{
  payment_key, lookup-find, lookup-update, update_unique, count-update,
}
use skill_stew_api.Payments.Invariant.{IsValid, announcements, announces, past, event_name_eq}
use skill_stew_api.Payments.Webhook.{
  StripeEvent, TransitionKind, Transition, is_dropped, kind_status, kind_event, next_payment,
  new_outbox_event, handle_stripe_webhook,
}
use skill_stew_api.Payments.Webhook.Cases.{after_transition}
use skill_stew_api.Payments.Webhook.Handling.{
  refused, missed, passed, committed, handle_stripe_webhook-Handling,
}

-- A transition puts a payment past itself, and past whatever it was past before.
past_next :
    (next kind : TransitionKind) (s : PaymentStatus)
    → is_dropped next s ≡ false
    → to_bit (is_dropped kind s) + to_bit (event_name_eq (kind_event next) (kind_event kind))
      ≤ to_bit (is_dropped kind (kind_status next))
past_next next kind s h = ground arith

announcements_after :
    (kind : TransitionKind) (k : ℕ) (w : World) (t : Transition)
    → announcements kind k (after_transition w t)
      ≡ announcements kind k w + to_bit (announces kind k (new_outbox_event w.next_id w.now t))
unfolding announcements
announcements_after kind k w t =
    count-append (announces kind k) w.outbox (new_outbox_event w.next_id w.now t ∷ []) ∙ omega arith

module _ (w : World) (t : Transition) (valid : IsValid w)
    (known : lookup payment_key t.payment.payment_id w.payments ≡ some t.payment)
    (not_past : is_dropped t.kind t.payment.status ≡ false) where
  after_announced :
      (kind : TransitionKind) (k : ℕ)
      → announcements kind k (after_transition w t)
        ≤ past kind (lookup payment_key k (after_transition w t).payments)
  after_announced kind k =
      rw (announcements_after kind k w t, lookup-update (next_payment w.now t) k w.payments)
        (elim (Bool-cases (k == t.payment.payment_id)) [
          | inl here ↦
              ground
                (arith, valid.announced kind k, past_next t.kind kind t.payment.status not_past)
          | inr other ↦ ground (arith, valid.announced kind k)
        ])

  after_transition-IsValid : IsValid (after_transition w t)
  after_transition-IsValid = record {
    unique = update_unique (next_payment w.now t) w.payments valid.unique;
    fresh = λ k le.
        rw (lookup-update (next_payment w.now t) k w.payments) (ground (arith, valid.fresh k));
    announced = after_announced;
    single = λ id.
        rw (count-update (next_payment w.now t) id w.payments t.payment valid.unique known refl)
          (valid.single id);
  }

module _ {Body : Type 0} (construct_event : Body → Option StripeEvent) where
  -- The webhook keeps the invariant of the tables, whatever the body and however it ends: above all
  -- that a transition of a payment is announced at most once.
  pub handle_stripe_webhook-IsValid :
      (body : Body) (w : World)
      → IsValid w
      → IsValid (handle_stripe_webhook construct_event body w).1
  handle_stripe_webhook-IsValid body w valid =
      elim (handle_stripe_webhook-Handling construct_event body w) [
        | refused e ↦ rw e valid
        | missed e ↦ rw e valid
        | passed e again ↦ rw e valid
        | committed event t read d e ↦ rw e (
            after_transition-IsValid w t valid
              (lookup-find d.test w.payments t.payment valid.unique d.found) d.not_past)
      ]
