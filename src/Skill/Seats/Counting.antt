-- ===== src/Skill/Seats/Counting.antt =====
-- The held seats of a cohort as one count over the memberships.
use skill_stew_api.Prelude.{
  ℕ, ◌+◌, ◌≡◌, Bool, ◌&&◌, ◌||◌, List, [], ◌∷◌, arith, refl, ◌==◌, filter, count, length-filter,
  count-filter,
}
use skill_stew_api.Prelude.Sorting.{sort, count-sort}
use skill_stew_api.Skill.Membership.{Membership, pending_payment, active, status_eq}
use skill_stew_api.Skill.Repos.{
  of_cohort, newest_first, find_by_cohort_and_statuses, count_by_cohort_and_statuses,
}
use skill_stew_api.Skill.Seats.{is_unexpired, seat_counts}

-- A membership holds a seat while it is active, or reserved and not lapsed.
abbrev pub is_holding : ℕ → ℕ → Membership → Bool
is_holding now cohort_id m =
    m.cohort_id == cohort_id
    && (status_eq m.status active || (status_eq m.status pending_payment && is_unexpired now m))

unfoldable pub held : ℕ → ℕ → List Membership → ℕ
held now cohort_id ms = count (is_holding now cohort_id) ms

split_held :
    (now cohort_id : ℕ) (ms : List Membership)
    → count (of_cohort cohort_id (active ∷ [])) ms
        + count (λ m. of_cohort cohort_id (pending_payment ∷ []) m && is_unexpired now m) ms
      ≡ count (is_holding now cohort_id) ms
split_held now cohort_id [] = refl
split_held now cohort_id (m ∷ ms) = ground (arith, split_held now cohort_id ms)

-- The held seats that `getSeatCounts` reports are the number of memberships of the cohort that are
-- active, or pending with an expiry that is still to come.
pub seat_counts-held :
    (now cohort_id : ℕ) (ms : List Membership)
    → (seat_counts now cohort_id ms).held_seats ≡ held now cohort_id ms
unfolding seat_counts held find_by_cohort_and_statuses count_by_cohort_and_statuses
seat_counts-held now cohort_id ms =
    rw
      (length-filter (is_unexpired now)
        (sort newest_first (filter (of_cohort cohort_id (pending_payment ∷ [])) ms)))
      (rw
        (count-sort newest_first (is_unexpired now)
          (filter (of_cohort cohort_id (pending_payment ∷ [])) ms))
        (rw (count-filter (is_unexpired now) (of_cohort cohort_id (pending_payment ∷ [])) ms)
          (split_held now cohort_id ms)))
