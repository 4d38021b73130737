-- ===== src/Hub/Metrics.antt =====
-- hub/ingest.go, handleIngestMetrics: the samples of a source.
pub mod Tables
pub mod Batch
pub mod Stale
mod Examples
