-- ===== src/Transfer.antt =====
-- FileTransferQueue: the scheduler of uploads and downloads.
pub mod Data
pub mod Sessions
pub mod Uploads
pub mod Cancel
pub mod Messages
pub mod Views
pub mod Searches
pub mod Steps
pub mod Invariant
pub mod Finality
pub mod Retired
pub mod Kept
pub mod Remembered
pub mod Duplicates
pub mod Held
pub mod Blocked
pub mod Dispatch
pub mod Roots
pub mod Rooted
pub mod Paths
pub mod Tests
