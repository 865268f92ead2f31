-- ===== src/Payments/World.antt =====
-- payments/src/domain/entities: a payment and an outbox event, and the state of the service.
-- `now` is the clock, read once for each request; `next_id` supplies what `randomUUID()` returns.
use skill_stew_api.Prelude.{ℕ, suc, Option, List, String, Bool, ◌==◌}
use skill_stew_api.Effect.{Run, ok}

pub data PaymentStatus : Type 0 where
  pending succeeded failed refunded : PaymentStatus

abbrev pub payment_status_index : PaymentStatus → ℕ
payment_status_index pending = 0
payment_status_index succeeded = 1
payment_status_index failed = 2
payment_status_index refunded = 3

abbrev pub payment_status_eq : PaymentStatus → PaymentStatus → Bool
payment_status_eq a b = payment_status_index a == payment_status_index b

pub record Payment : Type 0 where
  pub payment_id : ℕ
  pub membership_id : ℕ
  pub user_id : ℕ
  pub cohort_id : ℕ
  pub workshop_id : ℕ
  pub workshop_title : String
  pub expert_id : ℕ
  pub amount : ℕ
  pub currency : String
  pub status : PaymentStatus
  pub stripe_checkout_session_id : Option String
  pub stripe_payment_intent_id : Option ℕ
  pub checkout_url : Option String
  pub created_at : ℕ
  pub updated_at : ℕ

pub data EventName : Type 0 where
  payment_succeeded payment_failed payment_refunded : EventName

pub data OutboxEventStatus : Type 0 where
  unsent processed : OutboxEventStatus

-- An outbox event with the payload of the three payment events.
pub record OutboxEvent : Type 0 where
  pub id : ℕ
  pub name : EventName
  pub membership_id : ℕ
  pub payment_id : ℕ
  pub user_id : ℕ
  pub occurred_at : ℕ
  pub status : OutboxEventStatus
  pub created_at : ℕ
  pub processed_at : Option ℕ

pub record World : Type 0 where
  pub now : ℕ
  pub next_id : ℕ
  pub payments : List Payment
  pub outbox : List OutboxEvent

pub data Error : Type 0 where
  payment_exists invalid_signature : Error
  payment_not_found : Error
  stripe_failed no_redirect_url : Error

abbrev pub Action : Type 0 → Type 0
Action = Run World Error

-- `randomUUID()`
abbrev pub fresh_id : Action ℕ
fresh_id w = (ok w.next_id, record w { next_id = suc w.next_id })

-- An aborted transaction puts both tables back as they were.
abbrev pub rollback : World → World → World
rollback w v = record v { payments = w.payments; outbox = w.outbox }
