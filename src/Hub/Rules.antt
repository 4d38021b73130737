-- ===== src/Hub/Rules.antt =====
-- hub/rules.go: the hub's rules on the samples of its sources.
pub mod Types
pub mod Threshold
pub mod Emit
pub mod Containers
pub mod Nas
pub mod Engine
pub mod Heartbeat
pub mod Window
pub mod Wrapped
pub mod Silence
mod Examples
pub mod Soundness
pub mod Committed
