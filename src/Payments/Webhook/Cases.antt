-- ===== src/Payments/Webhook/Cases.antt =====
-- The ways in which `mapWebhookToTransition` ends, and what committing a transition writes.
use skill_stew_api.Prelude.{
  ℕ, suc, ◌≡◌, inl, inr, Bool, true, false, Option, none, some, [], ◌∷◌, ◌++◌, map, arith, refl,
  find, Option-cases, Bool-cases, find-holds,
}
use skill_stew_api.Effect.{ok, err, ◌>>=◌, pure, or_raise, transact}
use skill_stew_api.Payments.World.{Payment, World, payment_not_found}
use skill_stew_api.Payments.Repo.{
  updated_row, has_session, has_intent, update_payment, create_outbox_event,
}
use skill_stew_api.Payments.Webhook.{
  EventObject, session_completed, session_expired, session_async_payment_failed, charge_refunded,
  other, TransitionKind, to_succeeded, to_failed, to_refunded, Transition, or_else, is_dropped,
  propose, map_webhook_to_transition, next_payment, new_outbox_event, commit_transition,
  apply_transition,
}

-- What committing the transition makes of the tables.
abbrev pub after_transition : World → Transition → World
after_transition w t = record w {
  next_id = suc w.next_id;
  payments = map (updated_row (next_payment w.now t)) w.payments;
  outbox = w.outbox ++ new_outbox_event w.next_id w.now t ∷ [];
}

pub apply_transition-some :
    (t : Transition) (w : World) → apply_transition (some t) w ≡ (ok tt, after_transition w t)
unfolding apply_transition transact commit_transition ◌>>=◌ update_payment create_outbox_event
apply_transition-some t w = refl

-- The body calls for the transition `t`: a query found its payment, which is not past it, and the
-- same query, once the payment is past it, has the body dropped.
pub record IsDue (at_ms : ℕ) (object : EventObject) (w : World) (t : Transition) : Type 0 where
  pub test : Payment → Bool
  pub found : find test w.payments ≡ some t.payment
  pub still : (now c : ℕ) → test (record (next_payment now t) { created_at = c }) ≡ true
  pub not_past : is_dropped t.kind t.payment.status ≡ false
  pub drops :
      (u : World) (p : Payment)
      → find test u.payments ≡ some p
      → is_dropped t.kind p.status ≡ true
      → map_webhook_to_transition at_ms object u ≡ (ok none, u)

pub data Ending (at_ms : ℕ) (object : EventObject) (w : World) : Type 0 where
  unknown :
      map_webhook_to_transition at_ms object w ≡ (err payment_not_found, w) → Ending at_ms object w
  ignored :
      ((now : ℕ)
        → map_webhook_to_transition at_ms object (record w { now = now })
          ≡ (ok none, record w { now = now }))
      → Ending at_ms object w
  due :
      (t : Transition)
      → map_webhook_to_transition at_ms object w ≡ (ok (some t), w)
      → IsDue at_ms object w t
      → Ending at_ms object w

module _ (kind : TransitionKind) (at_ms : ℕ) (intent : Option ℕ) (p : Payment) where
  abbrev pub proposed : Transition
  proposed = record {
    payment = p;
    kind = kind;
    occurred_at = at_ms;
    stripe_payment_intent_id = intent;
  }

  propose_past : is_dropped kind p.status ≡ true → propose kind at_ms intent p ≡ none
  propose_past h = rw h refl

  propose_due : is_dropped kind p.status ≡ false → propose kind at_ms intent p ≡ some proposed
  propose_due h = rw h refl

-- The query and then the status test, in a body for which they are all that is left.
module _ (kind : TransitionKind) (at_ms : ℕ) (object : EventObject) (test : Payment → Bool)
    (intent : Payment → Option ℕ)
    (runs : (u : World)
      → map_webhook_to_transition at_ms object u
        ≡ ((λ v. or_raise (find test v.payments) payment_not_found v) >>= λ p.
              pure (propose kind at_ms (intent p) p))
            u)
    (still : (now c : ℕ) (p : Payment)
      → test p ≡ true
      → test (record (next_payment now (proposed kind at_ms (intent p) p)) { created_at = c })
        ≡ true) where
  found_drops :
      (u : World) (p : Payment)
      → find test u.payments ≡ some p
      → is_dropped kind p.status ≡ true
      → map_webhook_to_transition at_ms object u ≡ (ok none, u)
  unfolding ◌>>=◌
  found_drops u p found past = ground (arith, runs u)

  found_ends : (w : World) → Ending at_ms object w
  unfolding ◌>>=◌
  found_ends w = elim (Option-cases (find test w.payments)) [
    | inl gone ↦ unknown (ground (arith, runs w))
    | inr (p, found) ↦ elim (Bool-cases (is_dropped kind p.status)) [
      | inl past ↦ ignored (λ now. found_drops (record w { now = now }) p found past)
      | inr here ↦ due (proposed kind at_ms (intent p) p) (ground (arith, runs w)) (record {
        test = test;
        found = found;
        still = λ now c. still now c p (find-holds test w.payments p found);
        not_past = here;
        drops = found_drops;
      })
    ]
  ]

-- Each body either names no payment of the table, or is ignored, or is due for one transition.
pub map_webhook_to_transition-Ending :
    (at_ms : ℕ) (object : EventObject) (w : World) → Ending at_ms object w
unfolding map_webhook_to_transition ◌>>=◌
map_webhook_to_transition-Ending at_ms (session_completed id true intent) w =
    found_ends to_succeeded at_ms (session_completed id true intent) (has_session id)
      (λ p. or_else intent p.stripe_payment_intent_id) (λ u. refl) (λ now c p h. h) w
map_webhook_to_transition-Ending at_ms (session_completed id false intent) w = ignored (λ now. refl)
map_webhook_to_transition-Ending at_ms (session_expired id intent) w =
    found_ends to_failed at_ms (session_expired id intent) (has_session id)
      (λ p. or_else intent p.stripe_payment_intent_id) (λ u. refl) (λ now c p h. h) w
map_webhook_to_transition-Ending at_ms (session_async_payment_failed id intent) w =
    found_ends to_failed at_ms (session_async_payment_failed id intent) (has_session id)
      (λ p. or_else intent p.stripe_payment_intent_id) (λ u. refl) (λ now c p h. h) w
map_webhook_to_transition-Ending at_ms (charge_refunded false intent) w = ignored (λ now. refl)
map_webhook_to_transition-Ending at_ms (charge_refunded true none) w = ignored (λ now. refl)
map_webhook_to_transition-Ending at_ms (charge_refunded true (some intent)) w =
    found_ends to_refunded at_ms (charge_refunded true (some intent)) (has_intent intent)
      (λ p. some intent) (λ u. refl) (λ now c p h. ground arith) w
map_webhook_to_transition-Ending at_ms other w = ignored (λ now. refl)
