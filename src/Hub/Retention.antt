-- ===== src/Hub/Retention.antt =====
-- hub/retention.go: what is deleted when it is old, and how clients learn of it.
pub mod Run
pub mod Present
pub mod Told
pub mod Sound
mod Examples
