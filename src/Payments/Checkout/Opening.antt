-- ===== src/Payments/Checkout/Opening.antt =====
-- The writes of `createCheckoutSession` and the invariant of the tables.
use skill_stew_api.Prelude.{
  suc, ◌≡◌, Option, none, some, [], ◌∷◌, ◌++◌, map, arith, ◌==◌, count-append, count_of_find-none,
  inl, inr, Bool-cases,
}
use skill_stew_api.Prelude.Table.{lookup, lookup_other_last}
use skill_stew_api.Effect.{err, ◌>>=◌}
use skill_stew_api.Payments.World.{Payment, pending, World, stripe_failed}
use skill_stew_api.Payments.Repo.{
  updated_row, has_membership, create_payment, update_payment, delete_payment,
  find_by_membership_id,
}
use skill_stew_api.Payments.Rows.{
  payment_key, lookup-update, update_unique, count-update, append_unique, delete_last,
}
use skill_stew_api.Payments.Invariant.{IsValid, announcements}
use skill_stew_api.Payments.Checkout.{
  StripeSession, CheckoutInput, payment_for, with_session, record_session, open_first, open_again,
  truthy,
}

-- The table with a new row under the next id.
abbrev pub with_payment : Payment → World → World
with_payment p w = record w { next_id = suc w.next_id; payments = w.payments ++ p ∷ [] }

abbrev pub with_update : Payment → World → World
with_update p w = record w { payments = map (updated_row p) w.payments }

module _ (w : World) (valid : IsValid w) (p : Payment) where
  pub with_payment-IsValid :
      p.payment_id ≡ w.next_id
      → p.status ≡ pending
      → find_by_membership_id p.membership_id w ≡ none
      → IsValid (with_payment p w)
  unfolding announcements
  with_payment-IsValid key new alone =
      let unused : lookup payment_key p.payment_id w.payments ≡ none =
        valid.fresh p.payment_id (omega arith) in
      record {
        unique = append_unique p w.payments valid.unique unused;
        fresh = λ k le. ground (arith, valid.fresh k, lookup_other_last payment_key k p w.payments);
        announced = λ kind k. elim (Bool-cases (p.payment_id == k)) [
          | inl here ↦ ground (arith, valid.announced kind k, unused)
          | inr other ↦
              ground (arith, valid.announced kind k, lookup_other_last payment_key k p w.payments)
        ];
        single = λ id. ground (
          arith,
          valid.single id,
          count-append (has_membership id) w.payments (p ∷ []),
          count_of_find-none (has_membership p.membership_id) w.payments,
        );
      }

  pub with_update-IsValid :
      (a : Payment)
      → lookup payment_key p.payment_id w.payments ≡ some a
      → p.status ≡ a.status
      → a.membership_id ≡ p.membership_id
      → IsValid (with_update p w)
  unfolding announcements
  with_update-IsValid a known same member = record {
    unique = update_unique p w.payments valid.unique;
    fresh = λ k le. rw (lookup-update p k w.payments) (ground (arith, valid.fresh k));
    announced = λ kind k. rw (lookup-update p k w.payments) (elim (Bool-cases (k == p.payment_id)) [
      | inl here ↦ ground (arith, valid.announced kind k)
      | inr other ↦ ground (arith, valid.announced kind k)
    ]);
    single = λ id. rw (count-update p id w.payments a valid.unique known member) (valid.single id);
  }

pub record_session_state :
    (p : Payment) (s : StripeSession) (stripe : Payment → Option StripeSession) (w : World)
    → (record_session stripe p s w).1 ≡ with_update (with_session p s w.now) w
unfolding record_session update_payment ◌>>=◌
record_session_state p s stripe w = elim (Bool-cases (truthy s.url)) [
  | inl there ↦ ground arith
  | inr missing ↦ ground arith
]

module _ (stripe : Payment → Option StripeSession) (input : CheckoutInput) (w : World)
    (valid : IsValid w) where
  -- The row of a first attempt.
  abbrev first_payment : Payment
  first_payment = payment_for input w.next_id w.now w.now

  pub open_first_failed :
      stripe first_payment ≡ none
      → open_first stripe input w ≡ (err stripe_failed, record w { next_id = suc w.next_id })
  unfolding open_first create_payment delete_payment ◌>>=◌
  open_first_failed h =
      let back = delete_last first_payment w.payments (valid.fresh w.next_id (omega arith)) in
      ground (arith, back)

  pub open_first_answered :
      (s : StripeSession)
      → stripe first_payment ≡ some s
      → open_first stripe input w
        ≡ record_session stripe first_payment s (with_payment first_payment w)
  unfolding open_first create_payment ◌>>=◌
  open_first_answered s h = ground arith

  pub open_again_failed :
      (a : Payment)
      → stripe (payment_for input a.payment_id a.created_at w.now) ≡ none
      → open_again stripe input a w ≡ (err stripe_failed, w)
  unfolding open_again ◌>>=◌
  open_again_failed a h = ground arith

  pub open_again_answered :
      (a : Payment) (s : StripeSession)
      → stripe (payment_for input a.payment_id a.created_at w.now) ≡ some s
      → open_again stripe input a w
        ≡ record_session stripe (payment_for input a.payment_id a.created_at w.now) s w
  unfolding open_again ◌>>=◌
  open_again_answered a s h = ground arith
