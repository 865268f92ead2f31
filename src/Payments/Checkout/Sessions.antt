-- ===== src/Payments/Checkout/Sessions.antt =====
-- The outcomes of `createCheckoutSession` in PaymentSessionService.ts, branch by branch.
use skill_stew_api.Prelude.{
  ◌≡◌, refl, false, true, Option, none, some, arith, inl, inr, Bool-cases, Option-cases, subst,
  String,
}
use skill_stew_api.Effect.{ok, err, ◌>>=◌}
use skill_stew_api.Payments.World.{Payment, pending, payment_status_eq, World, payment_exists}
use skill_stew_api.Payments.Repo.{has_membership, find_by_membership_id}
use skill_stew_api.Payments.Rows.{find_last}
use skill_stew_api.Payments.Invariant.{IsValid, announcements}
use skill_stew_api.Payments.Checkout.{
  StripeSession, CheckoutInput, payment_for, open_first, open_again, open_session,
  create_checkout_session, truthy, text_or,
}
use skill_stew_api.Payments.Checkout.Opening.{
  with_payment, with_payment-IsValid, open_first_failed, open_first_answered, open_again_failed,
  open_again_answered,
}
use skill_stew_api.Payments.Checkout.Recording.{Opened, usable_text, recorded}

module _ (stripe : Payment → Option StripeSession) (input : CheckoutInput) (w : World)
    (valid : IsValid w) where
  first-Opened :
      find_by_membership_id input.membership_id w ≡ none
      → Opened input.membership_id w (open_first stripe input w)
  unfolding announcements
  first-Opened alone =
      let p = payment_for input w.next_id w.now w.now in
      elim (Option-cases (stripe p)) [
        | inl down ↦ rw (open_first_failed stripe input w valid down) (record {
          valid = record {
            unique = valid.unique;
            fresh = λ k le. valid.fresh k (omega arith);
            announced = λ kind k. valid.announced kind k;
            single = valid.single;
          };
          promised = (refl, refl);
        })
        | inr (s, up) ↦ rw (open_first_answered stripe input w valid s up) (
            recorded stripe p s (with_payment p w) w p
              (with_payment-IsValid w valid p refl refl alone)
              (find_last (has_membership input.membership_id) p w.payments alone (ground arith))
              refl refl refl)
      ]

  again-Opened :
      (a : Payment)
      → find_by_membership_id input.membership_id w ≡ some a
      → a.status ≡ pending
      → Opened input.membership_id w (open_again stripe input a w)
  again-Opened a found was =
      let p = payment_for input a.payment_id a.created_at w.now in
      elim (Option-cases (stripe p)) [
        | inl down ↦
            rw (open_again_failed stripe input w valid a down)
              (record { valid = valid; promised = (refl, refl) })
        | inr (s, up) ↦
            rw (open_again_answered stripe input w valid a s up)
              (recorded stripe p s w w a valid found refl was refl)
      ]

  resumed-Opened :
      (a : Payment)
      → find_by_membership_id input.membership_id w ≡ some a
      → truthy a.checkout_url ≡ true
      → a.status ≡ pending
      → Opened input.membership_id w (
        ok (record {
          payment_id = a.payment_id;
          checkout_session_id = text_or a.stripe_checkout_session_id "";
          checkout_url = text_or a.checkout_url "";
        }),
        w,
      )
  resumed-Opened a found usable was = record {
    valid = valid;
    promised = record {
      payment = a;
      found = found;
      is_pending = was;
      same_id = refl;
      session = refl;
      url = usable_text a.checkout_url usable;
      usable =
          subst (λ (o : Option String). truthy o ≡ true) (usable_text a.checkout_url usable) usable;
    };
  }

  exists_refused :
      (a : Payment)
      → payment_status_eq a.status pending ≡ false
      → open_session stripe input (some a) w ≡ (err payment_exists, w)
  unfolding open_session
  exists_refused a h = ground arith

  existing-Opened :
      (a : Payment)
      → find_by_membership_id input.membership_id w ≡ some a
      → Opened input.membership_id w (open_session stripe input (some a) w)
  unfolding open_session
  existing-Opened a found = elim (Bool-cases (payment_status_eq a.status pending)) [
    | inl is ↦ elim (Bool-cases (truthy a.checkout_url)) [
      | inl usable ↦ rw (is, usable) (resumed-Opened a found usable (ground arith))
      | inr missing ↦ rw (is, missing) (again-Opened a found (ground arith))
    ]
    | inr past ↦ rw (exists_refused a past) (record { valid = valid; promised = refl })
  ]

  session-Opened :
      (o : Option Payment)
      → find_by_membership_id input.membership_id w ≡ o
      → Opened input.membership_id w (open_session stripe input o w)
  unfolding open_session
  session-Opened none h = first-Opened h
  session-Opened (some a) h = existing-Opened a h

  -- Whatever Stripe answers, from a valid state a request for a checkout leads to a valid state, and
  -- - if it returns, to the checkout of the membership's payment, which is pending and has an
  --   address to redirect to that is not empty;
  -- - if Stripe fails, to payments and events that are as they were;
  -- - if Stripe gives no usable address, to a pending payment of the membership;
  -- - if it throws any other error, to the state that it started from.
  pub create_checkout_session-Opened :
      Opened input.membership_id w (create_checkout_session stripe input w)
  unfolding create_checkout_session ◌>>=◌
  create_checkout_session-Opened = session-Opened (find_by_membership_id input.membership_id w) refl
