-- ===== src/Payments/Invariant.antt =====
-- What holds of the tables of the payments service between any two requests.
use skill_stew_api.Prelude.{
  ℕ, ◌≤◌, ◌≡◌, Bool, true, false, ◌&&◌, Option, none, some, ◌==◌, count, to_bit,
}
use skill_stew_api.Prelude.Table.{lookup}
use skill_stew_api.Payments.World.{
  Payment, OutboxEvent, World, EventName, payment_succeeded, payment_failed, payment_refunded,
}
use skill_stew_api.Payments.Repo.{has_membership}
use skill_stew_api.Payments.Webhook.{TransitionKind, is_dropped, kind_event}
use skill_stew_api.Payments.Rows.{payment_key, HasUniqueIds}

abbrev pub event_name_eq : EventName → EventName → Bool
event_name_eq payment_succeeded payment_succeeded = true
event_name_eq payment_failed payment_failed = true
event_name_eq payment_refunded payment_refunded = true
event_name_eq _ _ = false

-- The event says that the payment `id` has made the transition `kind`.
abbrev pub announces : TransitionKind → ℕ → OutboxEvent → Bool
announces kind id e = e.payment_id == id && event_name_eq e.name (kind_event kind)

unfoldable pub announcements : TransitionKind → ℕ → World → ℕ
announcements kind id w = count (announces kind id) w.outbox

-- One where the payment is past the transition, zero elsewhere.
abbrev pub past : TransitionKind → Option Payment → ℕ
past kind none = 0
past kind (some p) = to_bit (is_dropped kind p.status)

-- A transition is announced at most once, and only of a payment that is past it; a membership has
-- at most one payment; ids are unique, and those still to be given out are unused.
pub record IsValid (w : World) : Type 0 where
  pub unique : HasUniqueIds w.payments
  pub fresh : (k : ℕ) → w.next_id ≤ k → lookup payment_key k w.payments ≡ none
  pub announced :
      (kind : TransitionKind) (k : ℕ)
      → announcements kind k w ≤ past kind (lookup payment_key k w.payments)
  pub single : (id : ℕ) → count (has_membership id) w.payments ≤ 1
