-- ===== src/Skill/Soundness.antt =====
-- Everything that holds of the three collections of the cohort service together: the seats, the
-- cohorts that memberships are of, and the time windows of cohorts.
pub mod Requests
use skill_stew_api.Prelude.{ℕ, ◌≤◌, ◌<◌, ◌≡◌, ◌≢◌, ◌⊎◌, none, some, List, arith}
use skill_stew_api.Prelude.Table.{lookup, HasUniqueKeys}
use skill_stew_api.Skill.Cohort.{Cohort}
use skill_stew_api.Skill.World.{World}
use skill_stew_api.Skill.Repos.{cohort_key}
use skill_stew_api.Skill.Invariant.{IsValid}
use skill_stew_api.Skill.Placement.{IsPlaced}
use skill_stew_api.Skill.Frame.{Frame}

-- One cohort is over before the other begins.
abbrev pub Apart : Cohort → Cohort → Type 0
Apart c d =
    (c.last_session_starts_at < d.first_session_starts_at)
    ⊎ (d.last_session_starts_at < c.first_session_starts_at)

-- No two cohorts of a workshop run at the same time.
abbrev pub AreApart : List Cohort → Type 0
AreApart cs =
    (j k : ℕ) (c d : Cohort)
    → j ≢ k
    → lookup cohort_key j cs ≡ some c
    → lookup cohort_key k cs ≡ some d
    → c.workshop_id ≡ d.workshop_id
    → Apart c d

pub record IsSound (w : World) : Type 0 where
  pub valid : IsValid w
  pub placed : IsPlaced w.cohorts w
  pub unused : (k : ℕ) → w.next_id ≤ k → lookup cohort_key k w.cohorts ≡ none
  pub unique : HasUniqueKeys cohort_key w.cohorts
  pub apart : AreApart w.cohorts

-- What writes memberships alone has only the first two to keep.
pub Frame-IsSound :
    (w v : World) → Frame w v → IsValid v → IsPlaced w.cohorts v → IsSound w → IsSound v
Frame-IsSound w v f valid placed h = record {
  valid = valid;
  placed = rw f.cohorts placed;
  unused = λ k le. rw f.cohorts (h.unused k (omega (arith, f.ids)));
  unique = rw f.cohorts h.unique;
  apart = rw f.cohorts h.apart;
}
