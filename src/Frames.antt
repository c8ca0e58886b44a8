-- ===== src/Frames.antt =====
-- QuickDesk/src/manager/SharedMemoryManager.cpp: the shared memory through which the client
-- process hands over its video frames.
pub mod Region
pub mod Manager
pub mod Planes
pub mod Locks
pub mod Tests
