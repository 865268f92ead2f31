-- ===== src/Skill/Enrollment/Seating.antt =====
-- What a request that takes a seat adds to the memberships.
use skill_stew_api.Prelude.{
  ℕ, suc, false, ◌+◌, ◌<◌, ◌≡◌, ◌≢◌, ◌⊎◌, Option, none, some, List, ◌++◌, ◌∷◌, [], arith, refl,
  subst, true, ◌==◌, find, not, inl, inr, Option-cases, Bool-cases,
}
use skill_stew_api.Prelude.Table.{lookup, replace_last, lookup_last}
use skill_stew_api.Skill.Membership.{
  Membership, active, pending_payment, update_membership, new_membership,
}
use skill_stew_api.Skill.Cohort.{Cohort}
use skill_stew_api.Skill.Workshop.{Workshop}
use skill_stew_api.Effect.{ok, err, ◌>>=◌}
use skill_stew_api.Skill.World.{World, CheckoutRequest, CheckoutSession, external_service}
use skill_stew_api.Effect.Inversion.{gets-eq-ok, raise_if-eq-ok}
use skill_stew_api.Skill.Repos.{membership_key, save_membership, create_membership}
use skill_stew_api.Skill.Seats.Counting.{held, seat_counts-held}
use skill_stew_api.Skill.Enrollment.{
  EnrollmentResponse, to_enrollment_response, reservation_ttl_ms, checkout_request,
  create_checkout_session, join_free, reserve, take_seat,
}

-- The membership that a free cohort gives.
abbrev pub free_membership : Cohort → ℕ → World → Membership
free_membership c user w = record {
  id = w.next_id;
  cohort_id = c.id;
  user_id = user;
  payment_id = none;
  status = active;
  joined_at = some w.now;
  expires_at = none;
  last_payment_event_at = none;
  created_at = some w.now;
  updated_at = some w.now;
}

-- The reservation that a paid cohort gives, under the payment that the checkout names.
abbrev pub reservation : Cohort → ℕ → Option ℕ → World → Membership
reservation c user payment w = record {
  id = w.next_id;
  cohort_id = c.id;
  user_id = user;
  payment_id = payment;
  status = pending_payment;
  joined_at = none;
  expires_at = some (w.now + reservation_ttl_ms);
  last_payment_event_at = none;
  created_at = some w.now;
  updated_at = some w.now;
}

-- The state with one more membership, its id used up.
abbrev pub adding : Membership → World → World
adding m w = record w { next_id = suc w.next_id; memberships = w.memberships ++ m ∷ [] }

join_free_lem :
    (c : Cohort) (user : ℕ) (w : World)
    → join_free c user w ≡ (
      ok (to_enrollment_response (free_membership c user w) none),
      adding (free_membership c user w) w,
    )
unfolding join_free create_membership new_membership ◌>>=◌
join_free_lem c user w = refl

module _ (pay : CheckoutRequest → Option CheckoutSession) where
  -- The reservation is created first and updated once the checkout is open.
  reserve_lem :
      (c : Cohort) (x : Workshop) (user : ℕ) (w : World) (s : CheckoutSession)
      → lookup membership_key w.next_id w.memberships ≡ none
      → pay (checkout_request w.next_id c x user) ≡ some s
      → let m = reservation c user (some s.payment_id) w in
        reserve pay c x user w ≡ (
          ok (to_enrollment_response m (some s)),
          record (adding m w) {
            checkouts = w.checkouts ++ checkout_request w.next_id c x user ∷ [];
          },
        )
  unfolding reserve create_membership new_membership save_membership update_membership
      create_checkout_session ◌>>=◌
  reserve_lem c x user w s fresh paid =
      let found =
        lookup_last membership_key w.next_id (reservation c user none w) w.memberships refl fresh in
      let last =
        replace_last membership_key w.next_id (reservation c user (some s.payment_id) w)
          (reservation c user none w) w.memberships refl fresh in
      ground arith

  reserve_refused :
      (c : Cohort) (x : Workshop) (user : ℕ) (w : World)
      → pay (checkout_request w.next_id c x user) ≡ none
      → (reserve pay c x user w).0 ≡ err external_service
  unfolding reserve create_membership new_membership save_membership update_membership
      create_checkout_session ◌>>=◌
  reserve_refused c x user w refused = ground arith

  -- A request that takes a seat of `c` has found room, and no live membership of the user in
  -- another cohort of the workshop; it adds one membership, whose kind the price decides.
  pub record Seated (c : Cohort) (user : ℕ) (entries : List Cohort) (w : World)
      (r : EnrollmentResponse) (v : World) : Type 0 where
    pub member : Membership
    pub memberships : v.memberships ≡ w.memberships ++ member ∷ []
    pub next_id : v.next_id ≡ suc w.next_id
    pub room : held w.now c.id w.memberships < c.max_students
    pub no_other : find (λ e. not (e.id == c.id)) entries ≡ none
    pub response : r.membership_id ≡ member.id
    pub response_status : r.status ≡ member.status
    pub kind :
        ((c.spot_price_amount ≡ 0) × (member ≡ free_membership c user w))
        ⊎ ((c.spot_price_amount ≢ 0)
            × ((p : ℕ) × (member ≡ reservation c user (some p) w) × (r.payment_id ≡ some p)))

  module _ (c : Cohort) (x : Workshop) (user : ℕ) (entries : List Cohort) (w v : World)
      (r : EnrollmentResponse) (fresh : lookup membership_key w.next_id w.memberships ≡ none)
      (room : held w.now c.id w.memberships < c.max_students)
      (no_other : find (λ (e : Cohort). not (e.id == c.id)) entries ≡ none) where
    free-Seated :
        c.spot_price_amount ≡ 0 → join_free c user w ≡ (ok r, v) → Seated c user entries w r v
    unfolding to_enrollment_response
    free-Seated free h =
        let done = subst (λ y. y ≡ (ok r, v)) (join_free_lem c user w) h in
        record {
          member = free_membership c user w;
          memberships = ground arith;
          next_id = ground arith;
          room = room;
          no_other = no_other;
          response = ground arith;
          response_status = ground arith;
          kind = inl (free, refl);
        }

    reserve-Seated :
        c.spot_price_amount ≢ 0 → reserve pay c x user w ≡ (ok r, v) → Seated c user entries w r v
    unfolding to_enrollment_response
    reserve-Seated paid h = elim (Option-cases (pay (checkout_request w.next_id c x user))) [
      | inl refused ↦ absurd (ground (arith, reserve_refused c x user w refused))
      | inr (s, open_) ↦
          let done = subst (λ y. y ≡ (ok r, v)) (reserve_lem c x user w s fresh open_) h in
          record {
            member = reservation c user (some s.payment_id) w;
            memberships = ground arith;
            next_id = ground arith;
            room = room;
            no_other = no_other;
            response = ground arith;
            response_status = ground arith;
            kind = inr (paid, (s.payment_id, refl, ground arith));
          }
    ]

  eq-none_of_test : (o : Option Cohort) → elim o [ none ↦ false | some _ ↦ true ] ≡ false → o ≡ none
  eq-none_of_test none h = refl
  eq-none_of_test (some c) h = cc

  pub take_seat-Seated :
      (c : Cohort) (x : Workshop) (user : ℕ) (entries : List Cohort) (w v : World)
      (r : EnrollmentResponse)
      → lookup membership_key w.next_id w.memberships ≡ none
      → take_seat pay c x user entries w ≡ (ok r, v)
      → Seated c user entries w r v
  unfolding take_seat
  take_seat-Seated c x user entries w v r fresh h =
      let (alone, h1) = raise_if-eq-ok _ _ _ w v r h in
      let h2 = gets-eq-ok _ _ w v r h1 in
      let (free_seat, h3) = raise_if-eq-ok _ _ _ w v r h2 in
      let room : held w.now c.id w.memberships < c.max_students =
        ground (arith, seat_counts-held w.now c.id w.memberships) in
      let no_other = eq-none_of_test (find (λ e. not (e.id == c.id)) entries) alone in
      elim (Bool-cases (c.spot_price_amount == 0)) [
        | inl free ↦
            free-Seated c x user entries w v r fresh room no_other (ground arith) (rw free at h3)
        | inr paid ↦
            reserve-Seated c x user entries w v r fresh room no_other (ground arith) (rw paid at h3)
      ]
