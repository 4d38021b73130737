-- ===== src/Agent.antt =====
-- agent/: the collector that runs on a monitored device.
pub mod Queue
pub mod Client
pub mod Pace
pub mod Reporter
mod Examples
