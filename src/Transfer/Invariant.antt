-- ===== src/Transfer/Invariant.antt =====
-- The invariant of the transfer queue.
pub mod Store
pub mod Sessions
pub mod Uploads
pub mod Tasks
pub mod Messages
pub mod Reach
