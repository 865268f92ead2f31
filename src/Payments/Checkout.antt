-- ===== src/Payments/Checkout.antt =====
-- `createCheckoutSession` of payments/src/application/services/PaymentSessionService.ts. The
-- provider's answer is a parameter: what is sent is made from the payment alone, and `none` says
-- that the call has thrown.
pub mod Opening
pub mod Recording
pub mod Sessions
use skill_stew_api.Prelude.{
  ℕ, Bool, true, false, not, ◌&&◌, ◌||◌, Option, none, some, String, if◌then◌else◌,
}
use text.Mathlib.Text.{◌==◌ as str_eq}
use skill_stew_api.Effect.{pure, raise, gets, raise_if, ◌>>=◌, ◌>>◌}
use skill_stew_api.Payments.World.{
  pending, payment_status_eq, Payment, World, Error, payment_exists, stripe_failed, no_redirect_url,
  Action, fresh_id,
}
use skill_stew_api.Payments.Repo.{
  create_payment, update_payment, delete_payment, find_by_membership_id,
}

-- What `stripe.checkout.sessions.create` returns, as far as it is read.
pub record StripeSession : Type 0 where
  pub id : String
  pub payment_intent : Option ℕ
  pub url : Option String

-- `CreateCheckoutSessionDTO`
pub record CheckoutInput : Type 0 where
  pub membership_id : ℕ
  pub cohort_id : ℕ
  pub workshop_id : ℕ
  pub workshop_title : String
  pub expert_id : ℕ
  pub user_id : ℕ
  pub amount : ℕ
  pub currency : String

pub record CheckoutOutput : Type 0 where
  pub payment_id : ℕ
  pub checkout_session_id : String
  pub checkout_url : String

-- A text or null that counts as true: not null and not empty.
abbrev pub truthy : Option String → Bool
truthy none = false
truthy (some s) = not (str_eq s "")

abbrev pub text_or : Option String → String → String
text_or none d = d
text_or (some s) d = s

-- `payment`: new, or made anew from the row of the earlier attempt.
abbrev pub payment_for : CheckoutInput → ℕ → ℕ → ℕ → Payment
payment_for input payment_id created_at now = record {
  payment_id = payment_id;
  membership_id = input.membership_id;
  user_id = input.user_id;
  cohort_id = input.cohort_id;
  workshop_id = input.workshop_id;
  workshop_title = input.workshop_title;
  expert_id = input.expert_id;
  amount = input.amount;
  currency = input.currency;
  status = pending;
  stripe_checkout_session_id = none;
  stripe_payment_intent_id = none;
  checkout_url = none;
  created_at = created_at;
  updated_at = now;
}

-- `updatedPayment`
abbrev pub with_session : Payment → StripeSession → ℕ → Payment
with_session p s now = record p {
  stripe_checkout_session_id = some s.id;
  stripe_payment_intent_id = s.payment_intent;
  checkout_url = s.url;
  updated_at = now;
}

module _ (stripe : Payment → Option StripeSession) where
  -- From the answer of the provider on.
  unfoldable pub record_session : Payment → StripeSession → Action CheckoutOutput
  record_session p s = do
    now ← gets (λ w. w.now)
    update_payment (with_session p s now)
    raise_if (not (truthy s.url) || str_eq s.id "") no_redirect_url
    pure (record {
      payment_id = p.payment_id;
      checkout_session_id = s.id;
      checkout_url = text_or s.url "";
    })

  -- A first attempt: the row goes in before the call, and out again if the call throws.
  unfoldable pub open_first : CheckoutInput → Action CheckoutOutput
  open_first input = do
    id ← fresh_id
    now ← gets (λ w. w.now)
    create_payment (payment_for input id now now)
    elim (stripe (payment_for input id now now)) [
      | none ↦ delete_payment id >> raise stripe_failed
      | some s ↦ record_session (payment_for input id now now) s
    ]

  -- An attempt on the row of an earlier one that got no redirect address.
  unfoldable pub open_again : CheckoutInput → Payment → Action CheckoutOutput
  open_again input existing = do
    now ← gets (λ w. w.now)
    elim (stripe (payment_for input existing.payment_id existing.created_at now)) [
      | none ↦ raise stripe_failed
      | some s ↦ record_session (payment_for input existing.payment_id existing.created_at now) s
    ]

  unfoldable pub open_session : CheckoutInput → Option Payment → Action CheckoutOutput
  open_session input none = open_first input
  open_session input (some existing) =
      if truthy existing.checkout_url && payment_status_eq existing.status pending
      then pure (record {
        payment_id = existing.payment_id;
        checkout_session_id = text_or existing.stripe_checkout_session_id "";
        checkout_url = text_or existing.checkout_url "";
      })
      else if not (payment_status_eq existing.status pending)
      then raise payment_exists
      else open_again input existing

  -- `createCheckoutSession`
  unfoldable pub create_checkout_session : CheckoutInput → Action CheckoutOutput
  create_checkout_session input =
      gets (find_by_membership_id input.membership_id) >>= λ existing. open_session input existing
