-- ===== src/Skill/Enrollment.antt =====
-- `enrollInCohort` of skill/src/application/services/CohortService.ts, with the two sweeps of stale
-- reservations that it begins with. `pay` is the payments service, which `none` says has failed.
pub mod Frame
pub mod Runs
pub mod Seating
pub mod Capacity
pub mod Expiring
pub mod Ids
pub mod Sweeps
pub mod Outcome
pub mod Placement
use skill_stew_api.Prelude.{
  ℕ, ◌+◌, ◌*◌, Bool, true, false, not, Option, none, some, List, [], ◌∷◌, ◌++◌, map, String, ◌==◌,
  leb, if◌then◌else◌, filter, find,
}
use skill_stew_api.Skill.Membership.{
  Membership, MembershipStatus, MembershipChanges, pending_payment, active, payment_failed, expired,
  dropped, refunded, awaiting_reconciliation, no_changes, update_membership, new_membership,
  status_eq, given_or,
}
use skill_stew_api.Skill.Cohort.{Cohort, cohort_status, is_upcoming}
use skill_stew_api.Skill.Workshop.{Workshop}
use skill_stew_api.Effect.{ok, err, pure, raise, gets, ◌>>=◌, ◌>>◌, raise_if, for_each}
use skill_stew_api.Skill.World.{
  World, CheckoutRequest, CheckoutSession, Action, Error, conflict, external_service, own_cohort,
  not_upcoming, already_active, needs_reconciliation, other_cohort, sold_out, fresh_id,
  in_transaction,
}
use skill_stew_api.Skill.Repos.{
  get_cohort, get_workshop, cohorts_by_ids, create_membership, save_membership,
  find_by_user_and_statuses, find_by_cohort_and_statuses,
}
use skill_stew_api.Skill.Seats.{is_stale, SeatCounts, seat_counts}

-- `LIVE_MEMBERSHIP_STATUSES`
abbrev pub live_statuses : List MembershipStatus
live_statuses = active ∷ pending_payment ∷ awaiting_reconciliation ∷ []

-- `RESERVATION_TTL_MS`
abbrev pub reservation_ttl_ms : ℕ
reservation_ttl_ms = 10 * 60 * 1000

pub record EnrollmentResponse : Type 0 where
  pub membership_id : ℕ
  pub status : MembershipStatus
  pub joined_at : Option ℕ
  pub expires_at : Option ℕ
  pub requires_payment : Bool
  pub payment_id : Option ℕ
  pub checkout_session_id : Option String
  pub checkout_url : Option String

-- `toEnrollmentResponse`
unfoldable pub to_enrollment_response : Membership → Option CheckoutSession → EnrollmentResponse
to_enrollment_response m checkout = record {
  membership_id = m.id;
  status = m.status;
  joined_at = m.joined_at;
  expires_at = m.expires_at;
  requires_payment = status_eq m.status pending_payment;
  payment_id = elim checkout [ none ↦ m.payment_id | some s ↦ some s.payment_id ];
  checkout_session_id = elim checkout [ none ↦ none | some s ↦ some s.checkout_session_id ];
  checkout_url = elim checkout [ none ↦ none | some s ↦ some s.checkout_url ];
}

abbrev pub to_expired : MembershipChanges
to_expired = record no_changes { status = some expired }

-- One update of the sweeps: `membership.update({ status: "expired" })`, saved.
unfoldable pub expire : Membership → Action (Unit {0})
expire m = save_membership (update_membership m to_expired) >> pure tt

-- `expireStalePendingMemberships`
unfoldable pub expire_stale_of_user : ℕ → Action (Unit {0})
expire_stale_of_user user w =
    for_each expire
      (filter (is_stale w.now)
        (find_by_user_and_statuses user (pending_payment ∷ []) w.memberships))
      w

-- `expireStalePendingMembershipsForCohort`
unfoldable pub expire_stale_of_cohort : ℕ → Action (Unit {0})
expire_stale_of_cohort cohort_id w =
    for_each expire
      (filter (is_stale w.now)
        (find_by_cohort_and_statuses cohort_id (pending_payment ∷ []) w.memberships))
      w

-- `sameMembership`: the first live membership of the cohort, if the cohort is among the entries.
abbrev pub same_membership : Cohort → List Membership → List Cohort → Option Membership
same_membership c live entries = elim (find (λ e. e.id == c.id) entries) [
  | none ↦ none
  | some e ↦ find (λ m. m.cohort_id == e.id) live
]

-- The entries of the same workshop among the cohorts of the live memberships.
abbrev pub same_workshop_entries : Cohort → List Membership → List Cohort → List Cohort
same_workshop_entries c live cohorts =
    filter (λ e. e.workshop_id == c.workshop_id)
      (cohorts_by_ids (map (λ m. m.cohort_id) live) cohorts)

-- What is sent to the payments service for the membership `id`.
abbrev pub checkout_request : ℕ → Cohort → Workshop → ℕ → CheckoutRequest
checkout_request id c x user = record {
  membership_id = id;
  cohort_id = c.id;
  workshop_id = c.workshop_id;
  workshop_title = x.title;
  expert_id = c.expert_id;
  user_id = user;
  amount = c.spot_price_amount;
  currency = c.currency;
}

-- A free cohort: the membership is active at once.
unfoldable pub join_free : Cohort → ℕ → Action EnrollmentResponse
join_free c user = do
  id ← fresh_id
  now ← gets (λ w. w.now)
  saved ← create_membership (new_membership id c.id user active (some now) none)
  pure (to_enrollment_response saved none)

module _ (pay : CheckoutRequest → Option CheckoutSession) where
  -- `paymentsClient.createCheckoutSession`, on the membership `id`
  unfoldable pub create_checkout_session : ℕ → Cohort → Workshop → ℕ → Action CheckoutSession
  create_checkout_session id c x user w =
      let request = checkout_request id c x user in
      (
        elim (pay request) [ none ↦ err external_service | some s ↦ ok s ],
        record w { checkouts = w.checkouts ++ request ∷ [] },
      )

  -- The branches on a live membership for the same cohort; `none` goes on.
  unfoldable pub resume :
      MembershipStatus → Cohort → Workshop → ℕ → Membership → Action (Option EnrollmentResponse)
  resume pending_payment c x user m =
      create_checkout_session m.id c x user >>= λ s. pure (some (to_enrollment_response m (some s)))
  resume active c x user m = raise (conflict already_active)
  resume awaiting_reconciliation c x user m = raise (conflict needs_reconciliation)
  resume _ c x user m = pure none

  -- A paid cohort: a reservation that lapses, then the checkout.
  unfoldable pub reserve : Cohort → Workshop → ℕ → Action EnrollmentResponse
  reserve c x user = do
    id ← fresh_id
    now ← gets (λ w. w.now)
    saved ←
        create_membership
          (new_membership id c.id user pending_payment none (some (now + reservation_ttl_ms)))
    checkout ← create_checkout_session saved.id c x user
    updated ← save_membership (
        update_membership saved
          (record no_changes { payment_id = some (some checkout.payment_id) }))
    pure (to_enrollment_response updated (some checkout))

  -- What follows when no live membership of the same cohort has settled the request.
  unfoldable pub take_seat : Cohort → Workshop → ℕ → List Cohort → Action EnrollmentResponse
  take_seat c x user entries = do
    raise_if (elim (find (λ e. not (e.id == c.id)) entries) [ none ↦ false | some _ ↦ true ])
        (conflict other_cohort)
    counts ← gets (λ w. seat_counts w.now c.id w.memberships)
    raise_if (leb c.max_students counts.held_seats) (conflict sold_out)
    if c.spot_price_amount == 0 then join_free c user else reserve c x user

  -- The block `if (sameCohortEntry)`.
  unfoldable pub resume_live :
      Cohort → Workshop → ℕ → Option Membership → Action (Option EnrollmentResponse)
  resume_live c x user none = pure none
  resume_live c x user (some m) = resume m.status c x user m

  unfoldable pub finish :
      Cohort → Workshop → ℕ → List Cohort → Option EnrollmentResponse → Action EnrollmentResponse
  finish c x user entries (some response) = pure response
  finish c x user entries none = take_seat c x user entries

  -- From the query of the live memberships on.
  unfoldable pub settle : Cohort → ℕ → Action EnrollmentResponse
  settle c user = do
    live ← gets (λ w. find_by_user_and_statuses user live_statuses w.memberships)
    entries ← gets (λ w. same_workshop_entries c live w.cohorts)
    x ← get_workshop c.workshop_id
    settled ← resume_live c x user (same_membership c live entries)
    finish c x user entries settled

  -- The work of the transaction.
  unfoldable pub enroll_work : ℕ → ℕ → Action EnrollmentResponse
  enroll_work cohort_id user = do
    c ← get_cohort cohort_id
    raise_if (c.expert_id == user) (conflict own_cohort)
    expire_stale_of_user user
    expire_stale_of_cohort c.id
    now ← gets (λ w. w.now)
    raise_if (not (is_upcoming (cohort_status c now))) (conflict not_upcoming)
    settle c user

  -- `enrollInCohort`
  unfoldable pub enroll_in_cohort : ℕ → ℕ → Action EnrollmentResponse
  enroll_in_cohort cohort_id user = in_transaction (enroll_work cohort_id user)
