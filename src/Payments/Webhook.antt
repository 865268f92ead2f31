-- ===== src/Payments/Webhook.antt =====
-- `handleStripeWebhook` and `mapWebhookToTransition` of
-- payments/src/application/services/PaymentSessionService.ts. The provider's library checks the
-- signature and reads the body: `construct_event`, a parameter, which `none` says has thrown.
-- A delivery is one step here, while the source reads the payment before the transaction that updates
-- it: deliveries that overlap are outside of the model.
pub mod Cases
pub mod Handling
pub mod Redelivery
pub mod Announcing
pub mod Moving
use skill_stew_api.Prelude.{
  ℕ, ◌*◌, Bool, true, false, not, ◌||◌, Option, none, some, String, if◌then◌else◌,
}
use skill_stew_api.Effect.{pure, raise, or_raise, gets, ◌>>=◌, ◌>>◌, transact}
use skill_stew_api.Payments.World.{
  PaymentStatus, pending, succeeded, failed, refunded, payment_status_eq, Payment, EventName,
  payment_succeeded, payment_failed, payment_refunded, OutboxEvent, unsent, World, Error,
  invalid_signature, payment_not_found, Action, fresh_id, rollback,
}
use skill_stew_api.Payments.Repo.{
  update_payment, find_by_checkout_session_id, find_by_payment_intent_id, create_outbox_event,
}

-- The events that the service acts on; a payment intent that is no text is `none`.
pub data EventObject : Type 0 where
  session_completed : (id : String) (paid : Bool) (payment_intent : Option ℕ) → EventObject
  session_expired : (id : String) (payment_intent : Option ℕ) → EventObject
  session_async_payment_failed : (id : String) (payment_intent : Option ℕ) → EventObject
  charge_refunded : (is_refunded : Bool) (payment_intent : Option ℕ) → EventObject
  other : EventObject

pub record StripeEvent : Type 0 where
  pub created : ℕ
  pub object : EventObject

-- The three members of the union `PaymentTransition`.
pub data TransitionKind : Type 0 where
  to_succeeded to_failed to_refunded : TransitionKind

abbrev pub kind_status : TransitionKind → PaymentStatus
kind_status to_succeeded = succeeded
kind_status to_failed = failed
kind_status to_refunded = refunded

abbrev pub kind_event : TransitionKind → EventName
kind_event to_succeeded = payment_succeeded
kind_event to_failed = payment_failed
kind_event to_refunded = payment_refunded

pub record Transition : Type 0 where
  pub payment : Payment
  pub kind : TransitionKind
  pub occurred_at : ℕ
  pub stripe_payment_intent_id : Option ℕ

-- `a ?? b`, also `typeof a === "string" ? a : b`
abbrev pub or_else {ℓ} : {A : Type ℓ} → Option A → Option A → Option A
or_else none b = b
or_else (some a) b = some a

-- The status tests by which a repeated or late event is dropped.
abbrev pub is_dropped : TransitionKind → PaymentStatus → Bool
is_dropped to_succeeded s = payment_status_eq s succeeded || payment_status_eq s refunded
is_dropped to_failed s = not (payment_status_eq s pending)
is_dropped to_refunded s = payment_status_eq s refunded

-- From the query of the payment on, the same in each case but for the status test.
abbrev pub propose : TransitionKind → ℕ → Option ℕ → Payment → Option Transition
propose kind occurred_at intent p =
    if is_dropped kind p.status
    then none
    else some (record {
      payment = p;
      kind = kind;
      occurred_at = occurred_at;
      stripe_payment_intent_id = intent;
    })

abbrev pub by_session : TransitionKind → ℕ → String → Option ℕ → Action (Option Transition)
by_session kind occurred_at id intent =
    (λ w. or_raise (find_by_checkout_session_id id w) payment_not_found w) >>= λ p.
    pure (propose kind occurred_at (or_else intent p.stripe_payment_intent_id) p)

-- `mapWebhookToTransition`
unfoldable pub map_webhook_to_transition : ℕ → EventObject → Action (Option Transition)
map_webhook_to_transition at_ms (session_completed id paid intent) =
    if not paid then pure none else by_session to_succeeded at_ms id intent
map_webhook_to_transition at_ms (session_expired id intent) = by_session to_failed at_ms id intent
map_webhook_to_transition at_ms (session_async_payment_failed id intent) =
    by_session to_failed at_ms id intent
map_webhook_to_transition at_ms (charge_refunded false intent) = pure none
map_webhook_to_transition at_ms (charge_refunded true none) = pure none
map_webhook_to_transition at_ms (charge_refunded true (some intent)) =
    (λ w. or_raise (find_by_payment_intent_id intent w) payment_not_found w) >>= λ p.
    pure (propose to_refunded at_ms (some intent) p)
map_webhook_to_transition at_ms other = pure none

-- `nextPayment`
abbrev pub next_payment : ℕ → Transition → Payment
next_payment now t = record t.payment {
  status = kind_status t.kind;
  stripe_payment_intent_id = or_else t.stripe_payment_intent_id t.payment.stripe_payment_intent_id;
  updated_at = now;
}

-- `createOutboxEvent`, under the id and at the time given
abbrev pub new_outbox_event : ℕ → ℕ → Transition → OutboxEvent
new_outbox_event id now t = record {
  id = id;
  name = kind_event t.kind;
  membership_id = t.payment.membership_id;
  payment_id = t.payment.payment_id;
  user_id = t.payment.user_id;
  occurred_at = t.occurred_at;
  status = unsent;
  created_at = now;
  processed_at = none;
}

-- The transaction: the payment and its outbox event are written together.
unfoldable pub commit_transition : Transition → Action (Unit {0})
commit_transition t = do
  now ← gets (λ w. w.now)
  update_payment (next_payment now t)
  id ← fresh_id
  create_outbox_event (new_outbox_event id now t)

unfoldable pub apply_transition : Option Transition → Action (Unit {0})
apply_transition none = pure tt
apply_transition (some t) = transact rollback (commit_transition t)

module _ {Body : Type 0} (construct_event : Body → Option StripeEvent) where
  -- `handleStripeWebhook`
  unfoldable pub handle_stripe_webhook : Body → Action (Unit {0})
  handle_stripe_webhook body =
      (λ w. or_raise (construct_event body) invalid_signature w) >>= λ event.
      map_webhook_to_transition (event.created * 1000) event.object >>= λ t. apply_transition t
