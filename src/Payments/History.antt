-- ===== src/Payments/History.antt =====
-- The requests to the payments service and the passing of time, in any order.
use skill_stew_api.Prelude.{ℕ, ◌≤◌, Option, String, count, arith, some, none}
use skill_stew_api.Prelude.Table.{lookup}
use skill_stew_api.Payments.World.{Payment, World}
use skill_stew_api.Payments.Repo.{has_membership}
use skill_stew_api.Payments.Rows.{payment_key}
use skill_stew_api.Payments.Invariant.{IsValid, announcements, past}
use skill_stew_api.Payments.Webhook.{StripeEvent, TransitionKind, handle_stripe_webhook}
use skill_stew_api.Payments.Webhook.Announcing.{handle_stripe_webhook-IsValid}
use skill_stew_api.Payments.Checkout.{StripeSession, CheckoutInput, create_checkout_session}
use skill_stew_api.Payments.Checkout.Sessions.{create_checkout_session-Opened}

-- One thing that happens: a request for a checkout, under whatever Stripe then answers, a webhook,
-- whatever event Stripe's library reads in it, or the passing of time.
pub data Step (w : World) : World → Type 0 where
  asks :
      (stripe : Payment → Option StripeSession) (input : CheckoutInput)
      → Step w (create_checkout_session stripe input w).1
  delivers :
      (construct_event : String → Option StripeEvent) (body : String)
      → Step w (handle_stripe_webhook construct_event body w).1
  waits : (now : ℕ) → w.now ≤ now → Step w (record w { now = now })

pub data History (w : World) : World → Type 0 where
  start : History w w
  later : {u v : World} → History w u → Step u v → History w v

waits-IsValid : (w : World) (now : ℕ) → IsValid w → IsValid (record w { now = now })
unfolding announcements
waits-IsValid w now h = record {
  unique = h.unique;
  fresh = h.fresh;
  announced = h.announced;
  single = h.single;
}

Step-IsValid : {w v : World} → Step w v → IsValid w → IsValid v
Step-IsValid {w} (asks stripe input) h = (create_checkout_session-Opened stripe input w h).valid
Step-IsValid {w} (delivers construct_event body) h =
    handle_stripe_webhook-IsValid construct_event body w h
Step-IsValid {w} (waits now le) h = waits-IsValid w now h

History-IsValid : {w v : World} → IsValid w → History w v → IsValid v
History-IsValid h start = h
History-IsValid h (later r s) = Step-IsValid s (History-IsValid h r)

past_le : (kind : TransitionKind) (o : Option Payment) → past kind o ≤ 1
past_le kind none = omega arith
past_le kind (some p) = ground arith

-- Whatever requests and webhooks are handled one after the other, in whatever order and however
-- often, from a valid state:
-- each transition of each payment is announced by at most one event, and each membership has at
-- most one payment.
pub History-announced :
    {w v : World} (kind : TransitionKind) (payment_id membership_id : ℕ)
    → IsValid w
    → History w v
    → (announcements kind payment_id v ≤ 1) × (count (has_membership membership_id) v.payments ≤ 1)
History-announced {v} kind payment_id membership_id h r =
    let valid = History-IsValid h r in
    (
      omega (
        arith,
        valid.announced kind payment_id,
        past_le kind (lookup payment_key payment_id v.payments),
      ),
      valid.single membership_id,
    )
