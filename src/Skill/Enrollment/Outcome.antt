-- ===== src/Skill/Enrollment/Outcome.antt =====
-- What a request to enrol does to the collections, as its caller sees it.
use skill_stew_api.Prelude.{
  ℕ, ◌<◌, ◌≡◌, ◌∙◌, ap, ◌≢◌, ◌⊎◌, inl, inr, Option, none, some, true, arith, subst, List, All,
  All-zip, All-filter, All-filter_of, All-find, find, ◌==◌, Option-cases, find-holds,
}
use skill_stew_api.Prelude.Table.{lookup, lookup-key}
use skill_stew_api.Effect.{ok, err, transact}
use skill_stew_api.Effect.Inversion.{transact-eq-ok}
use skill_stew_api.Skill.Membership.{Membership, pending_payment}
use skill_stew_api.Skill.Cohort.{Cohort}
use skill_stew_api.Skill.World.{World, Error, CheckoutRequest, CheckoutSession, rollback}
use skill_stew_api.Skill.Repos.{cohort_key, membership_key, of_user, find_by_user_and_statuses}
use skill_stew_api.Skill.Invariant.{IsValid}
use skill_stew_api.Skill.Enrollment.{
  EnrollmentResponse, to_enrollment_response, same_membership, live_statuses, enroll_in_cohort,
}
use skill_stew_api.Skill.Enrollment.Runs.{
  live_of, entries_of, Settled, resumed, seated, enroll_work-Enrolled,
}
use skill_stew_api.Skill.Enrollment.Seating.{Seated, take_seat-Seated}
use skill_stew_api.Skill.Enrollment.Expiring.{changed_row}
use skill_stew_api.Skill.Enrollment.Ids.{HasUniqueIds, own_lookups}
use skill_stew_api.Skill.Enrollment.Sweeps.{swept_row, sweeps_lem, sweeps-HasUniqueIds}
use skill_stew_api.Skill.Enrollment.Capacity.{swept-Frame, swept_less}

-- The answer that hands out the open checkout of a reservation.
abbrev pub handed_out : Membership → CheckoutSession → EnrollmentResponse
handed_out m s = record {
  membership_id = m.id;
  status = pending_payment;
  joined_at = m.joined_at;
  expires_at = m.expires_at;
  requires_payment = true;
  payment_id = some s.payment_id;
  checkout_session_id = some s.checkout_session_id;
  checkout_url = some s.checkout_url;
}

handed_out_lem :
    (m : Membership) (s : CheckoutSession)
    → m.status ≡ pending_payment
    → to_enrollment_response m (some s) ≡ handed_out m s
unfolding to_enrollment_response
handed_out_lem m s pending = ground arith

module _ (pay : CheckoutRequest → Option CheckoutSession) where
  -- A request that throws leaves the workshops, the cohorts and the memberships as they were: the
  -- reservation that it may have made and the sweeps before it are taken back.
  pub enroll_in_cohort_failed :
      (id user : ℕ) (w v : World) (x : Error)
      → enroll_in_cohort pay id user w ≡ (err x, v)
      → (v.workshops ≡ w.workshops) × (v.cohorts ≡ w.cohorts) × (v.memberships ≡ w.memberships)
  unfolding enroll_in_cohort transact
  enroll_in_cohort_failed id user w v x h = ground arith

  -- A request that hands out the checkout of the pending reservation that the user has for the
  -- cohort adds nothing.
  pub record Resumed (c : Cohort) (user : ℕ) (swept : World) (r : EnrollmentResponse) (v : World)
      : Type 0 where
    pub member : Membership
    pub session : CheckoutSession
    pub found : lookup membership_key member.id swept.memberships ≡ some member
    pub owner : member.user_id ≡ user
    pub cohort : member.cohort_id ≡ c.id
    pub pending : member.status ≡ pending_payment
    pub response : r ≡ handed_out member session
    pub memberships : v.memberships ≡ swept.memberships

  -- Either that, or it adds one membership.
  abbrev pub HasOutcome : Cohort → ℕ → World → EnrollmentResponse → World → Type 0
  HasOutcome c user swept r v =
      Resumed c user swept r v ⊎ Seated pay c user (entries_of c user swept) swept r v

  pub record Returned (id user : ℕ) (w : World) (r : EnrollmentResponse) (v : World) : Type 0 where
    pub cohort : Cohort
    pub swept : World
    pub found : lookup cohort_key id w.cohorts ≡ some cohort
    pub not_expert : cohort.expert_id ≢ user
    pub upcoming : w.now < cohort.first_session_starts_at
    pub same_clock : swept.now ≡ w.now
    pub same_cohorts : swept.cohorts ≡ w.cohorts
    pub same_ids : HasUniqueIds swept
    pub rows :
        (k : ℕ)
        → lookup membership_key k swept.memberships
          ≡ changed_row (swept_row w.now user id) (lookup membership_key k w.memberships)
    pub outcome : HasOutcome cohort user swept r v

  -- Whatever holds of the live memberships of the user in which the one of the cohort is sought.
  live_owned :
      (user : ℕ) (w : World)
      → HasUniqueIds w
      → All
          (λ m. (lookup membership_key m.id w.memberships ≡ some m) × (m.user_id ≡ user))
          (live_of user w)
  unfolding find_by_user_and_statuses
  live_owned user w unique =
      All-zip (λ m found owned. (found, owned)) _
        (All-filter _ (of_user user live_statuses) _ (own_lookups w.memberships unique))
        (All-filter_of _ (of_user user live_statuses) w.memberships (λ m e. ground (arith, e)))

  same_cohort :
      (c : Cohort) (live : List Membership) (entries : List Cohort) (m : Membership)
      → same_membership c live entries ≡ some m
      → (e : Cohort) × (find (λ x. x.cohort_id == e.id) live ≡ some m) × (m.cohort_id ≡ c.id)
  same_cohort c live entries m h = elim (Option-cases (find (λ e. e.id == c.id) entries)) [
    | inl none_there ↦ absurd (ground arith)
    | inr (e, there) ↦
        let here : find (λ x. x.cohort_id == e.id) live ≡ some m =
          rw (there, same_membership) at h in
        let of_c = find-holds (λ e. e.id == c.id) entries e there in
        let of_e = find-holds (λ x. x.cohort_id == e.id) live m here in (e, here, ground arith)
  ]

  settled-HasOutcome :
      (c : Cohort) (user : ℕ) (swept v : World) (r : EnrollmentResponse)
      → HasUniqueIds swept
      → lookup membership_key swept.next_id swept.memberships ≡ none
      → Settled pay c user swept r v
      → HasOutcome c user swept r v
  settled-HasOutcome c user swept v r unique fresh (resumed m s same pending response ms ids) =
      let (e, first, in_cohort) = same_cohort c _ _ m same in
      let (found, owner) = All-find _ _ _ m (live_owned user swept unique) first in
      inl (record {
        member = m;
        session = s;
        found = found;
        owner = owner;
        cohort = in_cohort;
        pending = pending;
        response = response ∙ handed_out_lem m s pending;
        memberships = ms;
      })
  settled-HasOutcome c user swept v r unique fresh (seated x h) =
      inr (take_seat-Seated pay c x user _ swept v r fresh h)

  -- From a valid state whose memberships have unique ids, a request that returns was made by
  -- another user than the cohort's expert, before the first session. The sweeps have let the pending
  -- reservations of the user and of the cohort whose time is over expire, and have left every other
  -- membership as it was. After them the request has resumed the user's pending reservation of the
  -- cohort and added nothing, or found a free seat and added one membership in it.
  pub enroll_in_cohort-Returned :
      (id user : ℕ) (w v : World) (r : EnrollmentResponse)
      → IsValid w
      → HasUniqueIds w
      → enroll_in_cohort pay id user w ≡ (ok r, v)
      → Returned id user w r v
  unfolding enroll_in_cohort
  enroll_in_cohort-Returned id user w v r valid unique h =
      let run = enroll_work-Enrolled pay id user w v r (transact-eq-ok rollback _ w v r h) in
      let frame = swept-Frame pay valid run in
      let ids =
        sweeps-HasUniqueIds user run.cohort.id w run.user_swept run.swept unique run.user_sweep
          run.cohort_sweep in
      let less = swept_less pay valid run in
      record {
        cohort = run.cohort;
        swept = run.swept;
        found = run.found;
        not_expert = run.not_expert;
        upcoming = subst (λ t. t < run.cohort.first_session_starts_at) frame.now run.upcoming;
        same_clock = frame.now;
        same_cohorts = frame.cohorts;
        same_ids = ids;
        rows = λ k.
            sweeps_lem user run.cohort.id w run.user_swept run.swept unique run.user_sweep
              run.cohort_sweep k
            ∙ ap (λ j. changed_row (swept_row w.now user j) (lookup membership_key k w.memberships))
                (lookup-key cohort_key id w.cohorts run.cohort run.found);
        outcome =
            settled-HasOutcome run.cohort user run.swept v r ids
              (less.fresh run.swept.next_id (omega arith)) run.settled;
      }
