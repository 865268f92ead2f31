-- ===== src/Accounts.antt =====
-- The accounts of the user service (user/src): registration, tokens, roles and the applications of
-- experts.
pub mod World
pub mod Repo
pub mod Access
pub mod Google
pub mod Applications
pub mod Profiles
pub mod Usernames
pub mod Views
pub mod Earned
mod Tests
