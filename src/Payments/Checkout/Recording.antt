-- ===== src/Payments/Checkout/Recording.antt =====
-- What the results of `createCheckoutSession` say of the tables, and the part of it that records the
-- answer of Stripe.
use skill_stew_api.Prelude.{
  ℕ, ◌≡◌, ◌∙◌, refl, false, true, Option, none, some, arith, ◌||◌, inl, inr, Bool-cases, not,
  find-holds, subst, sym, String,
}
use text.Mathlib.Text.{◌==◌ as str_eq}
use skill_stew_api.Prelude.Table.{lookup}
use skill_stew_api.Effect.{Result, ok, err, ◌>>=◌}
use skill_stew_api.Payments.World.{Payment, pending, World, Error, stripe_failed, no_redirect_url}
use skill_stew_api.Payments.Repo.{has_membership, find_by_membership_id, update_payment}
use skill_stew_api.Payments.Rows.{payment_key, lookup-find, find-update}
use skill_stew_api.Payments.Invariant.{IsValid}
use skill_stew_api.Payments.Checkout.{
  StripeSession, CheckoutOutput, with_session, record_session, truthy, text_or,
}
use skill_stew_api.Payments.Checkout.Opening.{with_update, with_update-IsValid}

-- `out` is the checkout of the pending payment of the membership.
pub record IsCheckoutOf (membership_id : ℕ) (out : CheckoutOutput) (v : World) : Type 0 where
  pub payment : Payment
  pub found : find_by_membership_id membership_id v ≡ some payment
  pub is_pending : payment.status ≡ pending
  pub same_id : out.payment_id ≡ payment.payment_id
  pub session : out.checkout_session_id ≡ text_or payment.stripe_checkout_session_id ""
  pub url : payment.checkout_url ≡ some out.checkout_url
  pub usable : truthy (some out.checkout_url) ≡ true

-- The membership has a pending payment, for which the next request asks Stripe again.
pub record HasPending (membership_id : ℕ) (v : World) : Type 0 where
  pub payment : Payment
  pub found : find_by_membership_id membership_id v ≡ some payment
  pub is_pending : payment.status ≡ pending

-- What each result says of the state that comes with it.
abbrev pub Promised : ℕ → World → Result Error CheckoutOutput → World → Type 0
Promised id w (ok out) v = IsCheckoutOf id out v
Promised id w (err stripe_failed) v = (v.payments ≡ w.payments) × (v.outbox ≡ w.outbox)
Promised id w (err no_redirect_url) v = HasPending id v
Promised id w (err _) v = v ≡ w

pub record Opened (membership_id : ℕ) (w : World) (run : Result Error CheckoutOutput × World)
    : Type 0 where
  pub valid : IsValid run.1
  pub promised : Promised membership_id w run.0 run.1

pub usable_text : (o : Option String) → truthy o ≡ true → o ≡ some (text_or o "")
usable_text none h = absurd (ground arith)
usable_text (some s) h = refl

module _ (stripe : Payment → Option StripeSession) (p : Payment) (s : StripeSession)
    (u : World) where
  record_session_ok :
      truthy s.url ≡ true
      → str_eq s.id "" ≡ false
      → record_session stripe p s u ≡ (
        ok (record {
          payment_id = p.payment_id;
          checkout_session_id = s.id;
          checkout_url = text_or s.url "";
        }),
        with_update (with_session p s u.now) u,
      )
  unfolding record_session update_payment ◌>>=◌
  record_session_ok h k = ground arith

  record_session_no_url :
      (not (truthy s.url) || str_eq s.id "") ≡ true
      → record_session stripe p s u ≡ (err no_redirect_url, with_update (with_session p s u.now) u)
  unfolding record_session update_payment ◌>>=◌
  record_session_no_url h = ground arith

  module _ (w : World) (a : Payment) (valid : IsValid u)
      (found : find_by_membership_id p.membership_id u ≡ some a)
      (same : a.payment_id ≡ p.payment_id) (was : a.status ≡ pending)
      (is : p.status ≡ pending) where
    same_member :
        (b : Payment) → has_membership p.membership_id b ≡ true → b.membership_id ≡ p.membership_id
    same_member b h = ground arith

    recorded-IsValid : IsValid (with_update (with_session p s u.now) u)
    recorded-IsValid =
        with_update-IsValid u valid (with_session p s u.now) a
          (subst (λ k. lookup payment_key k u.payments ≡ some a) same
            (lookup-find (has_membership p.membership_id) u.payments a valid.unique found))
          (is ∙ sym was)
          (same_member a (find-holds (has_membership p.membership_id) u.payments a found))

    recorded_row :
        (c : ℕ) × (find_by_membership_id p.membership_id (with_update (with_session p s u.now) u)
          ≡ some (record (with_session p s u.now) { created_at = c }))
    recorded_row =
        find-update (has_membership p.membership_id) (with_session p s u.now) u.payments a
          (λ c. ground arith) found same

    recorded_pending : HasPending p.membership_id (with_update (with_session p s u.now) u)
    recorded_pending =
        let (c, known) = recorded_row in
        record {
          payment = record (with_session p s u.now) { created_at = c };
          found = known;
          is_pending = is;
        }

    recorded_checkout :
        truthy s.url ≡ true
        → IsCheckoutOf p.membership_id
            (record {
              payment_id = p.payment_id;
              checkout_session_id = s.id;
              checkout_url = text_or s.url "";
            })
            (with_update (with_session p s u.now) u)
    recorded_checkout usable =
        let (c, known) = recorded_row in
        record {
          payment = record (with_session p s u.now) { created_at = c };
          found = known;
          is_pending = is;
          same_id = refl;
          session = refl;
          url = usable_text s.url usable;
          usable = subst (λ (o : Option String). truthy o ≡ true) (usable_text s.url usable) usable;
        }

    pub recorded : Opened p.membership_id w (record_session stripe p s u)
    recorded = elim (Bool-cases (not (truthy s.url) || str_eq s.id "")) [
      | inl bad ↦
          rw (record_session_no_url bad)
            (record { valid = recorded-IsValid; promised = recorded_pending })
      | inr good ↦
          rw (record_session_ok (ground arith) (ground arith))
            (record { valid = recorded-IsValid; promised = recorded_checkout (ground arith) })
    ]
