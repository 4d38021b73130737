-- ===== src/Hub/Stream.antt =====
-- hub/sse.go: the stream of changes that a client follows.
pub mod Frames
pub mod Client
pub mod Reader
pub mod Lines
pub mod Numbers
pub mod Order
pub mod Upcoming
pub mod Delivery
pub mod Overflow
mod Examples
