-- ===== src/Payments/Tests.antt =====
-- The payments service on one payment, from the checkout to the refund, and the properties there.
use skill_stew_api.Prelude.{
  ◌≤◌, ◌≡◌, ◌⊎◌, refl, true, Option, none, some, [], arith, String, count, if◌then◌else◌,
}
use text.Mathlib.Text.{◌==◌ as str_eq}
use skill_stew_api.Effect.{ok, err, ◌>>=◌, transact}
use skill_stew_api.Payments.World.{Payment, World, payment_exists, payment_not_found}
use skill_stew_api.Payments.Repo.{
  create_payment, update_payment, delete_payment, has_membership, create_outbox_event,
}
use skill_stew_api.Payments.Invariant.{IsValid, announcements}
use skill_stew_api.Payments.Webhook.{
  StripeEvent, session_completed, charge_refunded, to_succeeded, map_webhook_to_transition,
  commit_transition, apply_transition, handle_stripe_webhook,
}
use skill_stew_api.Payments.Webhook.Redelivery.{handle_stripe_webhook_redelivery}
use skill_stew_api.Payments.Webhook.Moving.{Moved, handle_stripe_webhook-Moved}
use skill_stew_api.Payments.Checkout.{
  StripeSession, CheckoutInput, record_session, open_first, open_again, open_session,
  create_checkout_session,
}
use skill_stew_api.Payments.Checkout.Recording.{Opened}
use skill_stew_api.Payments.Checkout.Sessions.{create_checkout_session-Opened}
use skill_stew_api.Payments.History.{asks, delivers, start, later, History-announced}

abbrev empty : World
empty = record { now = 1000; next_id = 40; payments = []; outbox = [] }

empty-IsValid : IsValid empty
unfolding announcements
empty-IsValid = record {
  unique = tt;
  fresh = λ k le. refl;
  announced = λ kind k. omega arith;
  single = λ id. omega arith;
}

abbrev input : CheckoutInput
input = record {
  membership_id = 7;
  cohort_id = 2;
  workshop_id = 1;
  workshop_title = "Yoga";
  expert_id = 100;
  user_id = 5;
  amount = 500;
  currency = "INR";
}

abbrev answering : Payment → Option StripeSession
answering p =
    some (record { id = "cs_1"; payment_intent = some 9; url = some "https://checkout.example" })

-- Stripe's reading of the two bodies `paid` and `returned`.
abbrev reading : String → Option StripeEvent
reading body =
    if str_eq body "paid"
    then some (record { created = 2; object = session_completed "cs_1" true (some 9) })
    else if str_eq body "returned"
    then some (record { created = 3; object = charge_refunded true (some 9) })
    else none

abbrev asked : World
asked = (create_checkout_session answering input empty).1

abbrev paid : World
paid = (handle_stripe_webhook reading "paid" asked).1

-- The payment is asked for, made, and returned; then it cannot be asked for again, and a second
-- delivery of its success is dropped.
runs :
    ((create_checkout_session answering input empty).0
      ≡ ok (record {
        payment_id = 40;
        checkout_session_id = "cs_1";
        checkout_url = "https://checkout.example";
      }))
    × (handle_stripe_webhook reading "paid" asked ≡ (ok tt, paid))
    × (announcements to_succeeded 40 paid ≡ 1)
    × (handle_stripe_webhook reading "paid" empty ≡ (err payment_not_found, empty))
    × (create_checkout_session answering input paid ≡ (err payment_exists, paid))
    × (announcements to_succeeded 40 (handle_stripe_webhook reading "returned" paid).1 ≡ 1)
unfolding create_checkout_session open_session open_first open_again record_session create_payment
    update_payment delete_payment handle_stripe_webhook map_webhook_to_transition apply_transition
    commit_transition create_outbox_event transact ◌>>=◌ announcements
runs = (refl, refl, refl, refl, refl, refl)

asked-IsValid : IsValid asked
asked-IsValid = (create_checkout_session-Opened answering input empty empty-IsValid).valid

History-announced_example :
    (announcements to_succeeded 40 (handle_stripe_webhook reading "returned" paid).1 ≤ 1)
    × (count (has_membership 7) (handle_stripe_webhook reading "returned" paid).1.payments ≤ 1)
History-announced_example = History-announced to_succeeded 40 7 empty-IsValid (
    later (later (later start (asks answering input)) (delivers reading "paid"))
      (delivers reading "returned"))

handle_stripe_webhook_redelivery_example :
    handle_stripe_webhook reading "paid" (record paid { now = 5000 })
    ≡ (ok tt, record paid { now = 5000 })
handle_stripe_webhook_redelivery_example =
    handle_stripe_webhook_redelivery reading "paid" asked paid 5000 runs.1

handle_stripe_webhook-Moved_example : (paid ≡ asked) ⊎ Moved asked paid
handle_stripe_webhook-Moved_example = handle_stripe_webhook-Moved reading "paid" asked asked-IsValid

create_checkout_session-Opened_example :
    Opened 7 empty (create_checkout_session answering input empty)
create_checkout_session-Opened_example =
    create_checkout_session-Opened answering input empty empty-IsValid
