-- ===== src/Clients.antt =====
-- ClientManager (QuickDesk/src/manager/ClientManager.cpp): the connections to remote hosts.
mod State
mod Commands
mod Lifecycle
mod Notices
mod Transfers
mod Machine
mod Wired
mod Changes
mod Handlers
mod Losses
mod Listings
mod ListedSessions
mod FileSessions
mod Histories
mod Routing
mod Tests
