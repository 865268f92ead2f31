-- ===== src/Skill/Tests.antt =====
-- The cohort service on one workshop with a paid and a free cohort, and the properties applied there.
use skill_stew_api.Prelude.{
  ℕ, ◌+◌, ◌*◌, String, ◌≡◌, refl, true, map, Option, none, some, [], ◌∷◌, arith,
}
use skill_stew_api.Prelude.Sorting.{sort}
use skill_stew_api.Prelude.Table.{lookup}
use skill_stew_api.Effect.{ok, err, ◌>>=◌, transact}
use skill_stew_api.Skill.Membership.{
  Membership, pending_payment, active, expired, update_membership, new_membership,
}
use skill_stew_api.Skill.Cohort.{Cohort, derived_status}
use skill_stew_api.Skill.Workshop.{Workshop, published}
use skill_stew_api.Skill.World.{
  World, CheckoutRequest, CheckoutSession, conflict, sold_out, own_cohort, external_service,
}
use skill_stew_api.Skill.Repos.{
  membership_key, create_membership, save_membership, find_by_user_and_statuses,
  find_by_cohort_and_statuses, count_by_cohort_and_statuses,
}
use skill_stew_api.Skill.Seats.{seat_counts}
use skill_stew_api.Skill.Seats.Counting.{held, seat_counts-held}
use skill_stew_api.Skill.Invariant.{HasRoom, IsValid}
use skill_stew_api.Skill.Enrollment.{
  EnrollmentResponse, to_enrollment_response, expire, expire_stale_of_user, expire_stale_of_cohort,
  join_free, create_checkout_session, reserve, take_seat, resume_live, finish, settle, enroll_work,
  enroll_in_cohort,
}
use skill_stew_api.Skill.Enrollment.Outcome.{Returned, enroll_in_cohort-Returned}
use skill_stew_api.Skill.PaymentEvents.{
  PaymentEvent, apply_changes, confirm, payment_succeeded_work, handle_payment_succeeded,
}
use skill_stew_api.Skill.PaymentEvents.Redelivery.{handle_payment_succeeded_redelivery}
use skill_stew_api.Skill.History.{
  History, enrolls, pays, updates, start, later, History-IsSound, History-HasRoom, History-AreApart,
  History-IsPlaced,
}
use skill_stew_api.Skill.Workshops.Freezing.{Stands}
use skill_stew_api.Skill.Publications.{History-Stands}
use skill_stew_api.Skill.Soundness.{IsSound, AreApart}
use skill_stew_api.Skill.Placement.{IsPlaced}
use skill_stew_api.Skill.Cohorts.{CohortUpdate, update_cohort}

abbrev yoga : Workshop
yoga = record {
  id = 1;
  expert_id = 100;
  title = "Yoga";
  description = none;
  target_audience = none;
  banner_image_key = none;
  max_cohort_size = 10;
  status = published;
  sessions = [];
  timezone = some "Asia/Kolkata";
  created_at = none;
  updated_at = none;
}

-- A cohort of one seat, which costs the amount given.
abbrev one_seat : ℕ → ℕ → Cohort
one_seat id amount = record {
  id = id;
  workshop_id = 1;
  expert_id = 100;
  workshop_title = "Yoga";
  workshop_banner_image_key = none;
  workshop_timezone = "Asia/Kolkata";
  spot_price_amount = amount;
  currency = "INR";
  start_date = "2026-06-01";
  max_students = 1;
  first_session_starts_at = id * 1000000;
  last_session_starts_at = id * 1000000 + 500000;
  created_at = none;
  updated_at = none;
}

abbrev opening : World
opening = record {
  now = 1000;
  next_id = 7;
  workshops = yoga ∷ [];
  cohorts = one_seat 2 500 ∷ one_seat 3 0 ∷ [];
  memberships = [];
  checkouts = [];
  outbox = [];
}

abbrev paying : CheckoutRequest → Option CheckoutSession
paying r = some (record {
  payment_id = 40;
  checkout_session_id = "cs_1";
  checkout_url = "https://checkout.example";
})

abbrev broken : CheckoutRequest → Option CheckoutSession
broken r = none

abbrev paid : PaymentEvent
paid = record { membership_id = 7; payment_id = 40; occurred_at = 2000 }

opening-IsSound : IsSound opening
unfolding held
opening-IsSound = record {
  valid = record {
    fresh = λ k le. refl;
    dated = λ k m found. absurd (ground arith);
    room = λ id c found. omega arith;
  };
  placed = tt;
  unused = λ k le. ground arith;
  unique = (refl, (refl, tt));
  apart = λ j k c d other one two same. ground arith;
}

-- A reservation of the one seat, and the same membership once it is paid.
abbrev reserved : World
reserved = (enroll_in_cohort paying 2 5 opening).1

-- The one seat under a reservation of user 9 whose time is over.
abbrev overdue : Membership
overdue = record {
  id = 6;
  cohort_id = 2;
  user_id = 9;
  payment_id = some 39;
  status = pending_payment;
  joined_at = none;
  expires_at = some 900;
  last_payment_event_at = none;
  created_at = some 300;
  updated_at = some 300;
}

abbrev lapsing : World
lapsing = record opening { memberships = overdue ∷ [] }

lapsing-IsValid : IsValid lapsing
unfolding held
lapsing-IsValid = record {
  fresh = λ k le. ground arith;
  dated = λ k m found pending. ground arith;
  room = λ id c found. ground arith;
}

abbrev retaken : World
retaken = (enroll_in_cohort paying 2 5 lapsing).1

abbrev reply : EnrollmentResponse
reply = record {
  membership_id = 7;
  status = pending_payment;
  joined_at = none;
  expires_at = some 601000;
  requires_payment = true;
  payment_id = some 40;
  checkout_session_id = some "cs_1";
  checkout_url = some "https://checkout.example";
}

-- The first request gets the seat, a second user is refused, and the free cohort needs no payment.
enrollments :
    (enroll_in_cohort paying 2 5 lapsing ≡ (ok reply, retaken))
    × (map (λ m. m.status) retaken.memberships ≡ expired ∷ pending_payment ∷ [])
    × (held 1000 2 reserved.memberships ≡ 1)
    × ((enroll_in_cohort paying 2 6 reserved).0 ≡ err (conflict sold_out))
    × ((enroll_in_cohort paying 2 100 opening).0 ≡ err (conflict own_cohort))
    × (held 1000 3 (enroll_in_cohort broken 3 5 opening).1.memberships ≡ 1)
unfolding enroll_in_cohort enroll_work settle finish take_seat resume_live reserve join_free
    create_checkout_session to_enrollment_response expire_stale_of_user expire_stale_of_cohort
    expire transact ◌>>=◌ derived_status seat_counts find_by_user_and_statuses
    find_by_cohort_and_statuses count_by_cohort_and_statuses create_membership save_membership
    update_membership new_membership sort held
enrollments = (refl, refl, refl, refl, refl, refl)

unpaid :
    enroll_in_cohort broken 2 5 opening
    ≡ (err external_service, (enroll_in_cohort broken 2 5 opening).1)
unfolding enroll_in_cohort enroll_work settle finish take_seat resume_live reserve join_free
    create_checkout_session to_enrollment_response expire_stale_of_user expire_stale_of_cohort
    expire transact ◌>>=◌ derived_status seat_counts find_by_user_and_statuses
    find_by_cohort_and_statuses count_by_cohort_and_statuses create_membership save_membership
    update_membership new_membership sort
unpaid = refl

abbrev settled : World
settled = (handle_payment_succeeded paid reserved).1

abbrev member : Membership
member = record {
  id = 7;
  cohort_id = 2;
  user_id = 5;
  payment_id = some 40;
  status = active;
  joined_at = some 2000;
  expires_at = none;
  last_payment_event_at = some 2000;
  created_at = some 1000;
  updated_at = some 1000;
}

confirmed :
    (handle_payment_succeeded paid reserved ≡ (ok tt, settled))
    × (lookup membership_key 7 settled.memberships ≡ some member)
unfolding enroll_in_cohort enroll_work settle finish take_seat resume_live reserve join_free
    create_checkout_session to_enrollment_response expire_stale_of_user expire_stale_of_cohort
    expire transact ◌>>=◌ derived_status seat_counts find_by_user_and_statuses
    find_by_cohort_and_statuses count_by_cohort_and_statuses create_membership save_membership
    update_membership new_membership sort handle_payment_succeeded payment_succeeded_work confirm
    apply_changes
confirmed = (refl, refl)

-- A reservation, its payment, and the expert who then asks for a cohort without a single seat.
abbrev nobody : CohortUpdate
nobody = record {
  spot_price_amount = none;
  currency = none;
  start_date = none;
  max_students = some 0;
}

abbrev no_zone : String → ℕ → Option String
no_zone zone instant = none

abbrev narrowed : World
narrowed = (update_cohort no_zone "cdn" 2 100 nobody settled).1

story : History opening narrowed
story =
    later (later (later start (enrolls paying 2 5)) (pays paid))
      (updates no_zone "cdn" 2 100 nobody)

History-HasRoom_example : HasRoom narrowed
History-HasRoom_example = History-HasRoom opening-IsSound story

History-AreApart_example : AreApart narrowed.cohorts
History-AreApart_example = History-AreApart opening-IsSound story

History-IsPlaced_example : IsPlaced narrowed.cohorts narrowed
History-IsPlaced_example = History-IsPlaced opening-IsSound story

enroll_in_cohort-Returned_example : Returned paying 2 5 lapsing reply retaken
enroll_in_cohort-Returned_example =
    enroll_in_cohort-Returned paying 2 5 lapsing retaken reply lapsing-IsValid (refl, tt)
      enrollments.0

-- The reservation is a state that the invariant holds of, like the opening.
reserved-IsSound : IsSound reserved
reserved-IsSound = History-IsSound opening-IsSound (later start (enrolls paying 2 5))

handle_payment_succeeded_redelivery_example :
    (member.payment_id ≡ some 40) × (handle_payment_succeeded paid settled ≡ (ok tt, settled))
handle_payment_succeeded_redelivery_example =
    handle_payment_succeeded_redelivery paid reserved settled member confirmed.0 confirmed.1 refl

seat_counts-held_example :
    (seat_counts 1000 2 reserved.memberships).held_seats ≡ held 1000 2 reserved.memberships
seat_counts-held_example = seat_counts-held 1000 2 reserved.memberships

-- The published workshop of the cohorts, through the same story.
History-Stands_example : Stands 1 yoga narrowed
History-Stands_example = History-Stands 1 yoga refl refl story
