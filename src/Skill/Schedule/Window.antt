-- ===== src/Skill/Schedule/Window.antt =====
-- `deriveCohortWindow`: the smallest window around the starts of the sessions.
use skill_stew_api.Prelude.{
  ℕ, ◌≤◌, ◌≡◌, subst, List, [], ◌∷◌, All, arith, count, Bool, ◌==◌, ◌+◌, to_bit,
}
use skill_stew_api.Effect.{ok}
use skill_stew_api.Skill.Schedule.{
  DerivedSession, CohortWindow, smaller, larger, window_of, derive_cohort_window,
}

around :
    (lo hi : ℕ) (ss : List DerivedSession)
    → ((window_of lo hi ss).first_session_starts_at ≤ lo)
      × (hi ≤ (window_of lo hi ss).last_session_starts_at)
around lo hi [] = (omega arith, omega arith)
around lo hi (s ∷ ss) = ground (arith, around (smaller lo s.starts_at) (larger hi s.starts_at) ss)

abbrev pub Inside : CohortWindow → DerivedSession → Type 0
Inside x s = (x.first_session_starts_at ≤ s.starts_at) × (s.starts_at ≤ x.last_session_starts_at)

inside : (lo hi : ℕ) (ss : List DerivedSession) → All (Inside (window_of lo hi ss)) ss
inside lo hi [] = tt
inside lo hi (s ∷ ss) =
    let bounds = around (smaller lo s.starts_at) (larger hi s.starts_at) ss in
    (
      (ground (arith, bounds), ground (arith, bounds)),
      inside (smaller lo s.starts_at) (larger hi s.starts_at) ss,
    )

abbrev pub starts_at_time : ℕ → DerivedSession → Bool
starts_at_time t s = s.starts_at == t

-- The ends of the window are the values begun with, or the starts of sessions.
ends_met :
    (lo hi : ℕ) (ss : List DerivedSession)
    → let x = window_of lo hi ss in
      (1
        ≤ to_bit (lo == x.first_session_starts_at)
          + count (starts_at_time x.first_session_starts_at) ss)
      × (1
          ≤ to_bit (hi == x.last_session_starts_at)
            + count (starts_at_time x.last_session_starts_at) ss)
ends_met lo hi [] = ground arith
ends_met lo hi (s ∷ ss) =
    ground (arith, ends_met (smaller lo s.starts_at) (larger hi s.starts_at) ss)

-- A window in order, that every session starts in, with one at its beginning and one at its end.
abbrev pub Bounded : CohortWindow → List DerivedSession → Type 0
Bounded x ss =
    (x.first_session_starts_at ≤ x.last_session_starts_at)
    × All (Inside x) ss
    × (1 ≤ count (starts_at_time x.first_session_starts_at) ss)
    × (1 ≤ count (starts_at_time x.last_session_starts_at) ss)

-- The window that is derived is in order, every session starts in it, and one starts at its
-- beginning and one at its end.
pub derive_cohort_window-Bounded :
    (ss : List DerivedSession) (x : CohortWindow) → derive_cohort_window ss ≡ ok x → Bounded x ss
unfolding derive_cohort_window
derive_cohort_window-Bounded [] x h = absurd (ground arith)
derive_cohort_window-Bounded (s ∷ ss) x h =
    let same : window_of s.starts_at s.starts_at ss ≡ x = cc in
    let bounds = around s.starts_at s.starts_at ss in
    let met = ends_met s.starts_at s.starts_at ss in
    let first : Bounded (window_of s.starts_at s.starts_at ss) (s ∷ ss) = (
      omega (arith, bounds),
      ((omega (arith, bounds), omega (arith, bounds)), inside s.starts_at s.starts_at ss),
      ground (arith, met),
      ground (arith, met),
    ) in
    subst (λ y. Bounded y (s ∷ ss)) same first
