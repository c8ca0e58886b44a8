-- ===== src/Gateway.antt =====
-- QuickDesk/src/api/WebSocketServer.cpp: the local API's server, which guards ApiHandler by
-- authentication, rate limits, permissions, the device filter and the dangerous operations.
pub mod State
pub mod Guard
pub mod Events
pub mod Passage
pub mod Members
pub mod Histories
pub mod Told
pub mod Tests
