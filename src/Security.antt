-- ===== src/Security.antt =====
-- QuickDesk/src/api/SecurityManager.cpp: tokens, permissions, rate limits, session timeouts and
-- dangerous operations of the local API.
pub mod Access
pub mod Limits
pub mod AccessLaws
pub mod Window
pub mod Clients
pub mod Sessions
pub mod Tests
