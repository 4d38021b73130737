-- ===== src/Hub/Api.antt =====
-- hub/api.go: what a client reads and marks.
pub mod Sync
pub mod Flags
pub mod Again
pub mod Paging
pub mod Skipped
mod Examples
