-- ===== src/Skill/Enrollment/Sweeps.antt =====
-- What the two sweeps at the start of an enrolment leave of each membership.
use skill_stew_api.Prelude.{
  ℕ, ◌≡◌, ◌∙◌, refl, ap, Bool, false, ◌&&◌, ◌||◌, Option, none, some, List, [], ◌∷◌, arith, All,
  All-filter, count, count_same, count-filter, ltb, leb, ◌==◌, if◌then◌else◌,
}
use skill_stew_api.Prelude.Sorting.{count-sort, All-sort}
use skill_stew_api.Prelude.Table.{lookup, lookup-key, HasUniqueKeys}
use skill_stew_api.Effect.{ok, for_each}
use skill_stew_api.Skill.Membership.{Membership, pending_payment, status_eq}
use skill_stew_api.Skill.World.{World}
use skill_stew_api.Skill.Seats.{is_stale}
use skill_stew_api.Skill.Repos.{
  membership_key, of_user, of_cohort, newest_first, find_by_user_and_statuses,
  find_by_cohort_and_statuses,
}
use skill_stew_api.Skill.Enrollment.{expire, expire_stale_of_user, expire_stale_of_cohort}
use skill_stew_api.Skill.Enrollment.Expiring.{
  lapse, changed_row, marked, has_id, Marks, marked_ext, Marks-for_each, unchanged,
}
use skill_stew_api.Skill.Enrollment.Ids.{
  counted, own_lookups, HasUniqueIds, user_sweep-HasUniqueIds, cohort_sweep-HasUniqueIds,
}

module _ (w : World) (unique : HasUniqueKeys membership_key w.memberships) where
  -- The memberships that have expired in `v` are those of `w` that pass `t`.
  record Swept (t : Membership → Bool) (v : World) : Type 0 where
    now : v.now ≡ w.now
    rows :
        (k : ℕ)
        → lookup membership_key k v.memberships
          ≡ changed_row
              (λ m. if t m then lapse w.now m else m)
              (lookup membership_key k w.memberships)

  counted_row :
      (t : Membership → Bool) (k : ℕ) (o : Option Membership)
      → lookup membership_key k w.memberships ≡ o
      → changed_row
          (marked w.now (λ j. false || ltb 0 (count (λ m. t m && has_id j m) w.memberships)))
          o
        ≡ changed_row (λ m. if t m then lapse w.now m else m) o
  counted_row t k none here = refl
  counted_row t k (some m) here = ground (
    arith,
    lookup-key membership_key k w.memberships m here,
    counted t k w.memberships m unique here,
  )

  -- A sweep of the documents that pass `t`, in whatever order.
  for_each-Swept :
      (t : Membership → Bool) (ms : List Membership) (v : World)
      → All (λ m. lookup membership_key m.id w.memberships ≡ some m) ms
      → ((j : ℕ) → count (has_id j) ms ≡ count (λ m. t m && has_id j m) w.memberships)
      → for_each expire ms w ≡ (ok tt, v)
      → Swept t v
  for_each-Swept t ms v mine counts run =
      let untouched : Marks w (λ _. false) w = record {
        now = refl;
        rows = λ k. unchanged w.now _;
      } in
      let marks = Marks-for_each w (λ _. false) ms w v mine untouched run in
      record {
        now = marks.now;
        rows = λ k.
            marks.rows k
            ∙ marked_ext w.now _ _ _ (λ j. ap (λ n. false || ltb 0 n) (counts j))
            ∙ counted_row t k _ refl;
      }

  user_sweep-Swept :
      (user : ℕ) (v : World)
      → expire_stale_of_user user w ≡ (ok tt, v)
      → Swept (λ m. of_user user (pending_payment ∷ []) m && is_stale w.now m) v
  unfolding expire_stale_of_user find_by_user_and_statuses
  user_sweep-Swept user v run =
      for_each-Swept _ _ v
        (All-filter _ (is_stale w.now) _
          (All-filter _ (of_user user (pending_payment ∷ [])) _ (own_lookups w.memberships unique)))
        (λ j.
          count-filter (has_id j) (is_stale w.now) _
          ∙ count-filter _ (of_user user (pending_payment ∷ [])) w.memberships
          ∙ count_same
              (λ m. of_user user (pending_payment ∷ []) m && (is_stale w.now m && has_id j m))
              (λ m. (of_user user (pending_payment ∷ []) m && is_stale w.now m) && has_id j m)
              w.memberships (λ m. ground arith))
        run

  cohort_sweep-Swept :
      (id : ℕ) (v : World)
      → expire_stale_of_cohort id w ≡ (ok tt, v)
      → Swept (λ m. of_cohort id (pending_payment ∷ []) m && is_stale w.now m) v
  unfolding expire_stale_of_cohort find_by_cohort_and_statuses
  cohort_sweep-Swept id v run =
      for_each-Swept _ _ v
        (All-filter _ (is_stale w.now) _ (
          All-sort _ newest_first _ (
            All-filter _ (of_cohort id (pending_payment ∷ [])) _
              (own_lookups w.memberships unique))))
        (λ j.
          count-filter (has_id j) (is_stale w.now) _
          ∙ count-sort newest_first _ _
          ∙ count-filter _ (of_cohort id (pending_payment ∷ [])) w.memberships
          ∙ count_same
              (λ m. of_cohort id (pending_payment ∷ []) m && (is_stale w.now m && has_id j m))
              (λ m. (of_cohort id (pending_payment ∷ []) m && is_stale w.now m) && has_id j m)
              w.memberships (λ m. ground arith))
        run

-- What the sweeps before an enrolment make of a membership: a reservation of the user or of the
-- cohort expires if its time is over, and everything else stays.
abbrev pub swept_row : ℕ → ℕ → ℕ → Membership → Membership
swept_row now user id m =
    if status_eq m.status pending_payment
      && (m.user_id == user || m.cohort_id == id)
      && elim m.expires_at [ none ↦ false | some t ↦ leb t now ]
    then lapse now m
    else m

abbrev user_change : ℕ → ℕ → Option Membership → Option Membership
user_change now user =
    changed_row
      (λ m. if of_user user (pending_payment ∷ []) m && is_stale now m then lapse now m else m)

abbrev cohort_change : ℕ → ℕ → Option Membership → Option Membership
cohort_change now id =
    changed_row
      (λ m. if of_cohort id (pending_payment ∷ []) m && is_stale now m then lapse now m else m)

swept_twice :
    (now user id : ℕ) (o : Option Membership)
    → cohort_change now id (user_change now user o) ≡ changed_row (swept_row now user id) o
swept_twice now user id none = refl
swept_twice now user id (some m) = ground arith

-- Both sweeps, one after the other.
pub sweeps_lem :
    (user id : ℕ) (w u v : World)
    → HasUniqueIds w
    → expire_stale_of_user user w ≡ (ok tt, u)
    → expire_stale_of_cohort id u ≡ (ok tt, v)
    → (k : ℕ)
    → lookup membership_key k v.memberships
      ≡ changed_row (swept_row w.now user id) (lookup membership_key k w.memberships)
sweeps_lem user id w u v unique first second k =
    let one = user_sweep-Swept w unique user u first in
    let kept : HasUniqueIds u = rw first at ((user_sweep-HasUniqueIds user).kept w unique) in
    let two = cohort_sweep-Swept u kept id v second in
    two.rows k
    ∙ ap (cohort_change u.now id) (one.rows k)
    ∙ ap
        (λ now.
          cohort_change now id (user_change w.now user (lookup membership_key k w.memberships)))
        one.now
    ∙ swept_twice w.now user id _

pub sweeps-HasUniqueIds :
    (user id : ℕ) (w u v : World)
    → HasUniqueIds w
    → expire_stale_of_user user w ≡ (ok tt, u)
    → expire_stale_of_cohort id u ≡ (ok tt, v)
    → HasUniqueIds v
sweeps-HasUniqueIds user id w u v unique first second =
    let kept : HasUniqueIds u = rw first at ((user_sweep-HasUniqueIds user).kept w unique) in
    rw second at ((cohort_sweep-HasUniqueIds id).kept u kept)
