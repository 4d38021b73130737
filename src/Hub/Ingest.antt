-- ===== src/Hub/Ingest.antt =====
-- hub/ingest.go: what a source sends to the hub.
pub mod Validate
pub mod Events
pub mod Record
pub mod Positions
pub mod Delivered
pub mod Redelivery
mod Examples
pub mod Soundness
pub mod Partition
