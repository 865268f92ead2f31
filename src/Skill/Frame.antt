-- ===== src/Skill/Frame.antt =====
-- What a step of the cohort service's use cases leaves alone, whether it returns or throws.
use skill_stew_api.Prelude.{◌≤◌, ◌≡◌, arith, refl}
use skill_stew_api.Skill.Membership.{Membership}
use skill_stew_api.Skill.World.{World, fresh_id, rollback}
use skill_stew_api.Effect.Rules.{Keeps}
use skill_stew_api.Skill.Repos.{save_membership, create_membership}

-- Between `w` and `v` the clock, the workshops and the cohorts have not changed, and no id was
-- given back.
pub record Frame (w v : World) : Type 0 where
  pub now : v.now ≡ w.now
  pub workshops : v.workshops ≡ w.workshops
  pub cohorts : v.cohorts ≡ w.cohorts
  pub ids : w.next_id ≤ v.next_id

pub Frame-refl : (w : World) → Frame w w
Frame-refl w = record { now = refl; workshops = refl; cohorts = refl; ids = omega arith }

pub rollback-Frame : (w v : World) → Frame w v → Frame w (rollback w v)
rollback-Frame w v f = record { now = f.now; workshops = refl; cohorts = refl; ids = f.ids }

module _ {w : World} where
  pub save_membership-Frame : (m : Membership) → Keeps (Frame w) (save_membership m)
  unfolding save_membership
  save_membership-Frame m = record { kept = λ v h. ground arith }

  pub create_membership-Frame : (m : Membership) → Keeps (Frame w) (create_membership m)
  unfolding create_membership
  create_membership-Frame m = record { kept = λ v h. ground arith }

  pub fresh_id-Frame : Keeps (Frame w) fresh_id
  fresh_id-Frame = record { kept = λ v h. ground arith }
