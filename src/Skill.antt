-- ===== src/Skill.antt =====
-- The skill service: cohorts, memberships and the payment events that drive them
-- (skill/src).
pub mod Membership
pub mod Cohort
pub mod Schedule
pub mod Text
pub mod Workshop
pub mod Workshops
pub mod World
pub mod Repos
pub mod Seats
pub mod Placement
pub mod Frame
pub mod Invariant
pub mod Enrollment
pub mod PaymentEvents
pub mod Soundness
pub mod Cohorts
pub mod Views
pub mod History
pub mod Publications
mod Tests
