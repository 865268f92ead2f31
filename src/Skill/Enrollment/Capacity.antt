-- ===== src/Skill/Enrollment/Capacity.antt =====
-- `enrollInCohort` and the invariant of the collections: the sweeps, then the seat that is taken.
use skill_stew_api.Prelude.{
  ℕ, false, ◌≤◌, ◌≡◌, ◌∙◌, Option, some, none, arith, ◌==◌, inl, inr, Bool-cases, sym,
}
use skill_stew_api.Prelude.Table.{lookup, lookup_last, lookup_other_last, lookup-key}
use skill_stew_api.Skill.Membership.{Membership, update_membership}
use skill_stew_api.Effect.{ok}
use skill_stew_api.Skill.World.{World, CheckoutRequest, CheckoutSession, rollback}
use skill_stew_api.Effect.Rules.{Keeps, Keeps-for_each, keeps_rules, transact_rule}
use skill_stew_api.Skill.Repos.{membership_key, cohort_key, save_membership}
use skill_stew_api.Skill.Seats.Counting.{is_holding, held}
use skill_stew_api.Skill.Invariant.{
  HasFreshIds, HasRoom, HasDatedReservations, IsDated, IsValid, save_fresh, save_dated,
  held-save_le, held-append, holding_le, rollback-IsValid,
}
use skill_stew_api.Skill.Frame.{Frame, Frame-refl}
use skill_stew_api.Skill.Enrollment.Frame.{
  expire_stale_of_user-Frame, expire_stale_of_cohort-Frame, enroll_work-Frame,
}
use skill_stew_api.Skill.Enrollment.Runs.{
  entries_of, Settled, resumed, seated, Enrolled, enroll_work-Enrolled,
}
use skill_stew_api.Skill.Enrollment.Seating.{Seated, take_seat-Seated}
use skill_stew_api.Skill.Enrollment.{
  EnrollmentResponse, to_expired, expire, expire_stale_of_user, expire_stale_of_cohort, enroll_work,
  enroll_in_cohort,
}

-- `v` holds no more seats than `w`, by the clock of `w`.
pub record HoldsLess (w v : World) : Type 0 where
  pub fresh : HasFreshIds v
  pub dated : HasDatedReservations v
  pub seats : (id : ℕ) → held w.now id v.memberships ≤ held w.now id w.memberships

expired_holds_none :
    (now id : ℕ) (m : Membership) → is_holding now id (update_membership m to_expired) ≡ false
unfolding update_membership
expired_holds_none now id m = ground arith

expired-IsDated : (m : Membership) → IsDated (update_membership m to_expired)
unfolding update_membership
expired-IsDated m = ground arith

save_expired-HoldsLess :
    (w : World) (m : Membership)
    → Keeps (HoldsLess w) (save_membership (update_membership m to_expired))
save_expired-HoldsLess w m = record {
  kept = λ v h. record {
    fresh = save_fresh (update_membership m to_expired) v h.fresh;
    dated = save_dated (update_membership m to_expired) v (expired-IsDated m) h.dated;
    seats = λ id. omega (
      arith,
      held-save_le w.now id (update_membership m to_expired) v (expired_holds_none w.now id m),
      h.seats id,
    );
  };
}

expire-HoldsLess : (w : World) (m : Membership) → Keeps (HoldsLess w) (expire m)
unfolding expire
expire-HoldsLess w m = search (keeps_rules, save_expired-HoldsLess)

user_sweep-HoldsLess : (w : World) (user : ℕ) → Keeps (HoldsLess w) (expire_stale_of_user user)
unfolding expire_stale_of_user
user_sweep-HoldsLess w user = record {
  kept = λ v h. (Keeps-for_each expire _ (expire-HoldsLess w)).kept v h;
}

cohort_sweep-HoldsLess : (w : World) (id : ℕ) → Keeps (HoldsLess w) (expire_stale_of_cohort id)
unfolding expire_stale_of_cohort
cohort_sweep-HoldsLess w id = record {
  kept = λ v h. (Keeps-for_each expire _ (expire-HoldsLess w)).kept v h;
}

module _ (pay : CheckoutRequest → Option CheckoutSession) where
  module _ {id user : ℕ} {w v : World} {r : EnrollmentResponse} (valid : IsValid w)
      (run : Enrolled pay id user w r v) where
    pub swept-Frame : Frame w run.swept
    swept-Frame =
        let first = (expire_stale_of_user-Frame user).kept w (Frame-refl w) in
        let second =
          (expire_stale_of_cohort-Frame run.cohort.id).kept run.user_swept
            (rw run.user_sweep at first) in
        rw run.cohort_sweep at second

    pub swept_less : HoldsLess w run.swept
    swept_less =
        let first =
          (user_sweep-HoldsLess w user).kept w
            (record { fresh = valid.fresh; dated = valid.dated; seats = λ j. omega arith }) in
        let second =
          (cohort_sweep-HoldsLess w run.cohort.id).kept run.user_swept
            (rw run.user_sweep at first) in
        rw run.cohort_sweep at second

    Seated-fresh :
        Seated pay run.cohort user (entries_of run.cohort user run.swept) run.swept r v
        → HasFreshIds v
    Seated-fresh s k le =
        let id_used : s.member.id ≡ run.swept.next_id = ground (arith, s.kind) in
        let next = s.next_id in
        rw s.memberships (
          lookup_other_last membership_key k s.member run.swept.memberships (omega arith)
          ∙ swept_less.fresh k (omega arith))

    Seated-dated :
        Seated pay run.cohort user (entries_of run.cohort user run.swept) run.swept r v
        → HasDatedReservations v
    Seated-dated s k n =
        let fresh : s.member.id ≡ k → lookup membership_key k run.swept.memberships ≡ none =
          λ e. swept_less.fresh k (ground (arith, s.kind)) in
        rw s.memberships (elim (Bool-cases (s.member.id == k)) [
          | inl here ↦ λ found.
              ground
                (arith, lookup_last membership_key k s.member run.swept.memberships, fresh, s.kind)
          | inr other ↦ λ found. swept_less.dated k n (
              sym (lookup_other_last membership_key k s.member run.swept.memberships (ground arith))
              ∙ found)
        ])

    Seated-room :
        Frame w v
        → Seated pay run.cohort user (entries_of run.cohort user run.swept) run.swept r v
        → HasRoom v
    Seated-room f s j c found =
        let in_cohort : s.member.cohort_id ≡ run.cohort.id = ground (arith, s.kind) in
        let known : lookup cohort_key j w.cohorts ≡ some c = rw f.cohorts at found in
        let key = lookup-key cohort_key id w.cohorts run.cohort run.found in
        let now_same = swept-Frame.now in
        let room = s.room in
        rw (f.now, s.memberships, held-append)
          (ground (
            arith,
            holding_le w.now j s.member,
            swept_less.seats j,
            swept_less.seats run.cohort.id,
            valid.room j c known,
            run.found,
          ))

    grown_IsValid : Frame w v → Settled pay run.cohort user run.swept r v → IsValid v
    grown_IsValid f (resumed m s same pending response ms ids) = record {
      fresh = λ k le. rw ms (swept_less.fresh k (omega arith));
      dated = λ k n. rw ms (swept_less.dated k n);
      room = λ j c found. ground (arith, swept_less.seats j, valid.room j c);
    }
    grown_IsValid f (seated x h) =
        let s =
          take_seat-Seated pay run.cohort x user _ run.swept v r
            (swept_less.fresh run.swept.next_id (omega arith)) h in
        record { fresh = Seated-fresh s; dated = Seated-dated s; room = Seated-room f s }

  returned_IsValid :
      (id user : ℕ) (w v : World) (r : EnrollmentResponse)
      → IsValid w
      → enroll_work pay id user w ≡ (ok r, v)
      → IsValid v
  returned_IsValid id user w v r valid h =
      let run = enroll_work-Enrolled pay id user w v r h in
      let frame = (enroll_work-Frame pay id user).kept w (Frame-refl w) in
      grown_IsValid valid run (rw h at frame) run.settled

  -- Whatever the payments service answers, and whether the request returns or throws, an enrolment
  -- keeps the invariant: no cohort holds more seats than it has, ids stay unused, reservations dated.
  pub enroll_in_cohort-IsValid :
      (id user : ℕ) (w : World) → IsValid w → IsValid (enroll_in_cohort pay id user w).1
  unfolding enroll_in_cohort
  enroll_in_cohort-IsValid id user w valid =
      let frame = (enroll_work-Frame pay id user).kept w (Frame-refl w) in
      transact_rule rollback IsValid w (enroll_work pay id user)
        (λ r v e. returned_IsValid id user w v r valid e)
        (λ x v e. rollback-IsValid w v (rw e at frame) valid)
