-- ===== src/Hub.antt =====
-- hub/: the server that collects metrics and events, and keeps faults, messages and changes.
pub mod Severity
pub mod Types
pub mod Store
pub mod Ensures
pub mod Fault
pub mod Ingest
pub mod Rules
pub mod Metrics
pub mod Auth
pub mod Stream
pub mod Retention
pub mod Admin
pub mod Api
mod Examples
