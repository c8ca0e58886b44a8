-- ===== src/Transfer/Finality.antt =====
-- FileTransferQueue: the entries of the finished tasks.
pub mod Rules
pub mod Messages
pub mod Steps
