-- ===== src/Payments/Webhook/Redelivery.antt =====
-- Stripe delivers a webhook at least once: what `handleStripeWebhook` does on a second delivery.
use skill_stew_api.Prelude.{ℕ, ◌*◌, ◌≡◌, true, Option, none, arith, refl}
use skill_stew_api.Effect.{ok}
use skill_stew_api.Payments.World.{World}
use skill_stew_api.Payments.Rows.{find-update}
use skill_stew_api.Payments.Webhook.{
  StripeEvent, TransitionKind, Transition, is_dropped, kind_status, next_payment,
  map_webhook_to_transition, handle_stripe_webhook,
}
use skill_stew_api.Payments.Webhook.Handling.{
  refused, missed, passed, committed, ignored_handled, handle_stripe_webhook-Handling,
}
use skill_stew_api.Payments.Webhook.Cases.{after_transition, IsDue}

past_own_status : (kind : TransitionKind) → is_dropped kind (kind_status kind) ≡ true
past_own_status kind = ground arith

module _ {Body : Type 0} (construct_event : Body → Option StripeEvent) where
  due_then_dropped :
      (at_ms : ℕ) (event : StripeEvent) (w : World) (t : Transition) (later : ℕ)
      → IsDue at_ms event.object w t
      → map_webhook_to_transition at_ms event.object (record (after_transition w t) { now = later })
        ≡ (ok none, record (after_transition w t) { now = later })
  due_then_dropped at_ms event w t later d =
      let (c, known) =
        find-update d.test (next_payment w.now t) w.payments t.payment (d.still w.now) d.found
          refl in
      d.drops (record (after_transition w t) { now = later })
        (record (next_payment w.now t) { created_at = c }) known (past_own_status t.kind)

  -- A body that has been handled without an error may be delivered again, at whatever time: nothing
  -- changes, so no second event is put in the outbox.
  pub handle_stripe_webhook_redelivery :
      (body : Body) (w v : World) (later : ℕ)
      → handle_stripe_webhook construct_event body w ≡ (ok tt, v)
      → handle_stripe_webhook construct_event body (record v { now = later })
        ≡ (ok tt, record v { now = later })
  handle_stripe_webhook_redelivery body w v later h =
      elim (handle_stripe_webhook-Handling construct_event body w) [
        | refused e ↦ absurd (ground arith)
        | missed e ↦ absurd (ground arith)
        | passed e again ↦ let same : v ≡ w = ground arith in rw same (again later)
        | committed event t read d e ↦
            let same : v ≡ after_transition w t = ground arith in
            rw same (
              ignored_handled construct_event body event
                (record (after_transition w t) { now = later }) read
                (due_then_dropped (event.created * 1000) event w t later d))
      ]
