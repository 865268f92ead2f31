-- ===== src/Payments/Webhook/Handling.antt =====
-- The ways in which `handleStripeWebhook` ends, and the state in which it leaves the tables.
use skill_stew_api.Prelude.{ℕ, ◌*◌, ◌≡◌, Option, none, some, arith, inl, inr, Option-cases}
use skill_stew_api.Effect.{ok, err, ◌>>=◌}
use skill_stew_api.Payments.World.{World, invalid_signature, payment_not_found}
use skill_stew_api.Payments.Webhook.{
  StripeEvent, Transition, map_webhook_to_transition, apply_transition, handle_stripe_webhook,
}
use skill_stew_api.Payments.Webhook.Cases.{
  after_transition, apply_transition-some, IsDue, unknown, ignored, due,
  map_webhook_to_transition-Ending,
}

module _ {Body : Type 0} (construct_event : Body → Option StripeEvent) where
  -- A body that is ignored is handled by doing nothing.
  pub ignored_handled :
      (body : Body) (event : StripeEvent) (w : World)
      → construct_event body ≡ some event
      → map_webhook_to_transition (event.created * 1000) event.object w ≡ (ok none, w)
      → handle_stripe_webhook construct_event body w ≡ (ok tt, w)
  unfolding handle_stripe_webhook ◌>>=◌ apply_transition
  ignored_handled body event w read h = ground arith

  due_handled :
      (body : Body) (event : StripeEvent) (w : World) (t : Transition)
      → construct_event body ≡ some event
      → map_webhook_to_transition (event.created * 1000) event.object w ≡ (ok (some t), w)
      → handle_stripe_webhook construct_event body w ≡ (ok tt, after_transition w t)
  unfolding handle_stripe_webhook ◌>>=◌
  due_handled body event w t read h = ground (arith, apply_transition-some t w)

  pub data Handling (body : Body) (w : World) : Type 0 where
    refused :
        handle_stripe_webhook construct_event body w ≡ (err invalid_signature, w) → Handling body w
    missed :
        handle_stripe_webhook construct_event body w ≡ (err payment_not_found, w) → Handling body w
    passed :
        handle_stripe_webhook construct_event body w ≡ (ok tt, w)
        → ((now : ℕ)
            → handle_stripe_webhook construct_event body (record w { now = now })
              ≡ (ok tt, record w { now = now }))
        → Handling body w
    committed :
        (event : StripeEvent) (t : Transition)
        → construct_event body ≡ some event
        → IsDue (event.created * 1000) event.object w t
        → handle_stripe_webhook construct_event body w ≡ (ok tt, after_transition w t)
        → Handling body w

  refused_handled :
      (body : Body) (w : World)
      → construct_event body ≡ none
      → handle_stripe_webhook construct_event body w ≡ (err invalid_signature, w)
  unfolding handle_stripe_webhook ◌>>=◌
  refused_handled body w h = ground arith

  missed_handled :
      (body : Body) (event : StripeEvent) (w : World)
      → construct_event body ≡ some event
      → map_webhook_to_transition (event.created * 1000) event.object w ≡ (err payment_not_found, w)
      → handle_stripe_webhook construct_event body w ≡ (err payment_not_found, w)
  unfolding handle_stripe_webhook ◌>>=◌
  missed_handled body event w read h = ground arith

  pub handle_stripe_webhook-Handling : (body : Body) (w : World) → Handling body w
  handle_stripe_webhook-Handling body w = elim (Option-cases (construct_event body)) [
    | inl bad ↦ refused (refused_handled body w bad)
    | inr (event, read) ↦
        elim (map_webhook_to_transition-Ending (event.created * 1000) event.object w) [
          | unknown h ↦ missed (missed_handled body event w read h)
          | ignored h ↦
              passed (ignored_handled body event w read (h w.now))
                (λ now. ignored_handled body event (record w { now = now }) read (h now))
          | due t h d ↦ committed event t read d (due_handled body event w t read h)
        ]
  ]
