-- ===== src/Hub/Admin.antt =====
-- hub/admin.go: sources, rules and settings as an administrator changes them.
pub mod Sources
pub mod Keys
pub mod Shut
pub mod Settings
pub mod Versions
pub mod Rules
pub mod Distinct
mod Examples
