-- ===== src/Skill/PaymentEvents.antt =====
-- `handlePaymentSucceeded`, `handlePaymentFailed` and `handlePaymentRefunded` of
-- skill/src/application/services/CohortService.ts, which the consumers in
-- skill/src/consumers/handlers call. `occurred_at` is the instant that the event's text names.
pub mod Placement
pub mod Safety
pub mod Redelivery
use skill_stew_api.Prelude.{
  ℕ, Bool, true, false, not, ◌&&◌, ◌||◌, Option, none, some, List, [], ◌∷◌, ◌==◌, ltb,
  if◌then◌else◌,
}
use skill_stew_api.Skill.Membership.{
  Membership, MembershipStatus, MembershipChanges, pending_payment, active, payment_failed,
  refunded, awaiting_reconciliation, no_changes, update_membership, status_eq, has_status,
}
use skill_stew_api.Skill.Cohort.{Cohort, cohort_status, is_upcoming}
use skill_stew_api.Effect.{pure, gets, ◌>>=◌, ◌>>◌}
use skill_stew_api.Skill.World.{World, Action, in_transaction}
use skill_stew_api.Skill.Repos.{get_cohort, get_membership, save_membership}
use skill_stew_api.Skill.Seats.{is_stale, SeatCounts, seat_counts}

pub record PaymentEvent : Type 0 where
  pub membership_id : ℕ
  pub payment_id : ℕ
  pub occurred_at : ℕ

-- `this.cohortMembershipRepo.update(membership.update(changes), tx)`
unfoldable pub apply_changes : Membership → MembershipChanges → Action (Unit {0})
apply_changes m changes = save_membership (update_membership m changes) >> pure tt

-- The branches that leave the membership to be reconciled by hand under the event's payment.
abbrev pub to_reconcile : PaymentEvent → MembershipChanges
to_reconcile e = record no_changes {
  status = some awaiting_reconciliation;
  payment_id = some (some e.payment_id);
  last_payment_event_at = some (some e.occurred_at);
}

-- The same, where the payment on record is another one and stays.
abbrev pub to_reconcile_other : PaymentEvent → MembershipChanges
to_reconcile_other e = record no_changes {
  status = some awaiting_reconciliation;
  last_payment_event_at = some (some e.occurred_at);
}

abbrev pub to_active : PaymentEvent → MembershipChanges
to_active e = record {
  status = some active;
  payment_id = some (some e.payment_id);
  expires_at = some none;
  joined_at = some (some e.occurred_at);
  last_payment_event_at = some (some e.occurred_at);
}

-- `membership.paymentId === paymentId`
abbrev pub is_payment : Option ℕ → ℕ → Bool
is_payment none id = false
is_payment (some p) id = p == id

-- The checks of the cohort, once the membership is a reservation that has not lapsed.
unfoldable pub confirm : PaymentEvent → Membership → Action (Unit {0})
confirm e m = do
  c ← get_cohort m.cohort_id
  now ← gets (λ w. w.now)
  held ← gets (λ w. (seat_counts w.now c.id w.memberships).held_seats)
  if not (is_upcoming (cohort_status c now))
      then apply_changes m (to_reconcile e)
      else if ltb c.max_students held
      then apply_changes m (to_reconcile e)
      else apply_changes m (to_active e)

unfoldable pub payment_succeeded_work : PaymentEvent → Action (Unit {0})
payment_succeeded_work e = do
  m ← get_membership e.membership_id
  now ← gets (λ w. w.now)
  if status_eq m.status active
      then (if is_payment m.payment_id e.payment_id
          then pure tt
          else apply_changes m (to_reconcile_other e))
      else if not (status_eq m.status pending_payment)
      then apply_changes m (to_reconcile e)
      else if is_stale now m
      then apply_changes m (to_reconcile e)
      else confirm e m

-- `handlePaymentSucceeded`
unfoldable pub handle_payment_succeeded : PaymentEvent → Action (Unit {0})
handle_payment_succeeded e = in_transaction (payment_succeeded_work e)

-- The statuses that `applyPaymentOutcome` takes as its target.
pub data Outcome : Type 0 where
  failed returned : Outcome

abbrev pub target_status : Outcome → MembershipStatus
target_status failed = payment_failed
target_status returned = refunded

-- `isContradictory`
abbrev pub is_contradictory : Outcome → MembershipStatus → Bool
is_contradictory failed s = status_eq s active
is_contradictory returned s = not (has_status (active ∷ refunded ∷ []) s)

abbrev pub to_outcome : Outcome → PaymentEvent → MembershipChanges
to_outcome o e = record no_changes {
  status = some (target_status o);
  payment_id = some (some e.payment_id);
  expires_at = some none;
  last_payment_event_at = some (some e.occurred_at);
}

unfoldable pub payment_outcome_work : Outcome → PaymentEvent → Action (Unit {0})
payment_outcome_work o e = do
  m ← get_membership e.membership_id
  if status_eq m.status (target_status o) && is_payment m.payment_id e.payment_id
      then pure tt
      else if is_contradictory o m.status
      then apply_changes m (to_reconcile e)
      else apply_changes m (to_outcome o e)

-- `applyPaymentOutcome`: `handlePaymentFailed` is the case `failed`, `handlePaymentRefunded` the
-- case `returned`.
unfoldable pub apply_payment_outcome : Outcome → PaymentEvent → Action (Unit {0})
apply_payment_outcome o e = in_transaction (payment_outcome_work o e)

unfoldable pub handle_payment_failed : PaymentEvent → Action (Unit {0})
handle_payment_failed e = apply_payment_outcome failed e

unfoldable pub handle_payment_refunded : PaymentEvent → Action (Unit {0})
handle_payment_refunded e = apply_payment_outcome returned e
