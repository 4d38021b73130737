-- ===== src/Hub/Fault.antt =====
-- hub/fault.go: an event is stored, moves its fault through the state machine, and leaves a message
-- and change entries.
pub mod Tables
pub mod Machine
pub mod Apply
pub mod Lifecycle
pub mod Arrival
pub mod Invariant
pub mod Events
