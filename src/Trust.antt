-- ===== src/Trust.antt =====
-- QuickDesk/src/api/TrustHandler.cpp: the confirmations that an AI agent's risky calls wait for,
-- and the emergency stop.
pub mod Handler
pub mod Liveness
pub mod Stop
pub mod Approval
pub mod Tests
