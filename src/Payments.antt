-- ===== src/Payments.antt =====
-- The payments service (payments/src): checkout sessions and the webhook of the payment provider.
pub mod World
pub mod Repo
pub mod Rows
pub mod Invariant
pub mod Checkout
pub mod Webhook
pub mod History
mod Tests
