-- ===== src/Payments/Webhook/Moving.antt =====
-- The statuses of a payment as a state machine, which the webhook drives.
use skill_stew_api.Prelude.{
  ℕ, ◌≡◌, ◌≢◌, ◌⊎◌, inl, inr, refl, false, some, [], ◌∷◌, ◌++◌, arith, Option,
}
use skill_stew_api.Prelude.Table.{lookup}
use skill_stew_api.Payments.World.{
  PaymentStatus, pending, succeeded, failed, refunded, Payment, EventName, payment_succeeded,
  payment_failed, payment_refunded, OutboxEvent, World,
}
use skill_stew_api.Payments.Rows.{payment_key, lookup-find, lookup-update, row_after_other}
use skill_stew_api.Payments.Invariant.{IsValid}
use skill_stew_api.Payments.Webhook.{
  StripeEvent, TransitionKind, to_succeeded, to_failed, to_refunded, Transition, is_dropped,
  kind_status, kind_event, next_payment, new_outbox_event, handle_stripe_webhook,
}
use skill_stew_api.Payments.Webhook.Cases.{after_transition}
use skill_stew_api.Payments.Webhook.Handling.{
  refused, missed, passed, committed, handle_stripe_webhook-Handling,
}

-- One move of a payment, with the event that announces it. A payment that has failed can still
-- succeed; one that has been refunded moves no more.
pub data Moves : PaymentStatus → EventName → PaymentStatus → Type 0 where
  succeeds : Moves pending payment_succeeded succeeded
  succeeds_late : Moves failed payment_succeeded succeeded
  fails : Moves pending payment_failed failed
  returns : Moves succeeded payment_refunded refunded
  returns_unpaid : Moves pending payment_refunded refunded
  returns_failed : Moves failed payment_refunded refunded

Moves-kind :
    (s : PaymentStatus) (kind : TransitionKind)
    → is_dropped kind s ≡ false
    → Moves s (kind_event kind) (kind_status kind)
Moves-kind pending to_succeeded h = succeeds
Moves-kind failed to_succeeded h = succeeds_late
Moves-kind succeeded to_succeeded h = absurd (ground arith)
Moves-kind refunded to_succeeded h = absurd (ground arith)
Moves-kind pending to_failed h = fails
Moves-kind failed to_failed h = absurd (ground arith)
Moves-kind succeeded to_failed h = absurd (ground arith)
Moves-kind refunded to_failed h = absurd (ground arith)
Moves-kind pending to_refunded h = returns_unpaid
Moves-kind failed to_refunded h = returns_failed
Moves-kind succeeded to_refunded h = returns
Moves-kind refunded to_refunded h = absurd (ground arith)

-- From `w` to `v` one payment makes one move, one event announces it, and the rest stays.
pub record Moved (w v : World) : Type 0 where
  pub before : Payment
  pub after : Payment
  pub event : OutboxEvent
  pub found : lookup payment_key event.payment_id w.payments ≡ some before
  pub stored : lookup payment_key event.payment_id v.payments ≡ some after
  pub others :
      (k : ℕ)
      → k ≢ event.payment_id
      → lookup payment_key k v.payments ≡ lookup payment_key k w.payments
  pub moves : Moves before.status event.name after.status
  pub announced : v.outbox ≡ w.outbox ++ event ∷ []
  pub membership :
      (event.membership_id ≡ before.membership_id) × (after.membership_id ≡ before.membership_id)
  pub price : (after.amount ≡ before.amount) × (after.currency ≡ before.currency)

after_transition-Moved :
    (w : World) (t : Transition)
    → lookup payment_key t.payment.payment_id w.payments ≡ some t.payment
    → is_dropped t.kind t.payment.status ≡ false
    → Moved w (after_transition w t)
after_transition-Moved w t known due =
    let b = next_payment w.now t in
    record {
      before = t.payment;
      after = b;
      event = new_outbox_event w.next_id w.now t;
      found = known;
      stored = ground (arith, lookup-update b t.payment.payment_id w.payments);
      others = λ k other.
          rw (lookup-update b k w.payments)
            (row_after_other b k (lookup payment_key k w.payments) other);
      moves = Moves-kind t.payment.status t.kind due;
      announced = refl;
      membership = (refl, refl);
      price = (refl, refl);
    }

module _ {Body : Type 0} (construct_event : Body → Option StripeEvent) where
  -- From a valid state, a webhook, however it ends, either changes nothing, or makes one move of one
  -- payment and puts the one event in the outbox that announces this move, with the payment's
  -- membership.
  pub handle_stripe_webhook-Moved :
      (body : Body) (w : World)
      → IsValid w
      → ((handle_stripe_webhook construct_event body w).1 ≡ w)
        ⊎ Moved w (handle_stripe_webhook construct_event body w).1
  handle_stripe_webhook-Moved body w valid =
      elim (handle_stripe_webhook-Handling construct_event body w) [
        | refused e ↦ inl (rw e refl)
        | missed e ↦ inl (rw e refl)
        | passed e again ↦ inl (rw e refl)
        | committed event t read d e ↦ inr (
            rw e (
              after_transition-Moved w t
                (lookup-find d.test w.payments t.payment valid.unique d.found) d.not_past))
      ]
