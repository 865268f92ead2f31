-- ===== src/Connections.antt =====
-- The user service: connections between users (user/src).
pub mod World
pub mod Repo
pub mod UseCases
pub mod Standing
pub mod History
pub mod Symmetry
pub mod Repeating
mod Tests
