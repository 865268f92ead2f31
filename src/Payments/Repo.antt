-- ===== src/Payments/Repo.antt =====
-- payments/src/infrastructure/repositories: the statements that the service runs on its two tables.
-- Connection failures and unique-index violations are left out.
use skill_stew_api.Prelude.{
  ℕ, Bool, false, Option, none, some, [], ◌∷◌, ◌++◌, map, ◌==◌, String, if◌then◌else◌, find, filter,
  not,
}
use text.Mathlib.Text.{◌==◌ as str_eq}
use skill_stew_api.Effect.{modify}
use skill_stew_api.Payments.World.{Payment, OutboxEvent, World, Action}

-- `insert into payments`
unfoldable pub create_payment : Payment → Action (Unit {0})
create_payment p = modify (λ w. record w { payments = w.payments ++ p ∷ [] })

-- What `update payments set …` makes of a row; `created_at` is not among the columns set.
abbrev pub updated_row : Payment → Payment → Payment
updated_row p row =
    if row.payment_id == p.payment_id then record p { created_at = row.created_at } else row

-- `update payments set … where payment_id = p.payment_id`
unfoldable pub update_payment : Payment → Action (Unit {0})
update_payment p = modify (λ w. record w { payments = map (updated_row p) w.payments })

-- `delete from payments where payment_id = id`
unfoldable pub delete_payment : ℕ → Action (Unit {0})
delete_payment id =
    modify (λ w. record w { payments = filter (λ row. not (row.payment_id == id)) w.payments })

abbrev pub has_membership : ℕ → Payment → Bool
has_membership id row = row.membership_id == id

abbrev pub has_session : String → Payment → Bool
has_session id row = elim row.stripe_checkout_session_id [ none ↦ false | some s ↦ str_eq s id ]

abbrev pub has_intent : ℕ → Payment → Bool
has_intent id row = elim row.stripe_payment_intent_id [ none ↦ false | some i ↦ i == id ]

-- `findByMembershipId`
abbrev pub find_by_membership_id : ℕ → World → Option Payment
find_by_membership_id id w = find (has_membership id) w.payments

-- `findByCheckoutSessionId`
abbrev pub find_by_checkout_session_id : String → World → Option Payment
find_by_checkout_session_id id w = find (has_session id) w.payments

-- `findByPaymentIntentId`
abbrev pub find_by_payment_intent_id : ℕ → World → Option Payment
find_by_payment_intent_id id w = find (has_intent id) w.payments

-- `insert into outbox_events`
unfoldable pub create_outbox_event : OutboxEvent → Action (Unit {0})
create_outbox_event e = modify (λ w. record w { outbox = w.outbox ++ e ∷ [] })
