-- ===== src/Hub/Auth.antt =====
-- hub/auth.go: who may log in, with which token, and how often.
pub mod Limiter
pub mod Decimal
pub mod Window
pub mod Sessions
pub mod Refresh
pub mod Rotation
pub mod Race
pub mod Login
mod Examples
