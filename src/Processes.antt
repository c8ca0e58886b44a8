-- ===== src/Processes.antt =====
-- ProcessManager (QuickDesk/src/manager/ProcessManager.cpp): the host and the client process.
mod Child
mod Client
mod ClientBounds
mod ClientRuns
mod ClientStages
mod ClientLaunches
mod ClientStale
mod ClientLoop
mod ClientRest
mod Host
mod HostEvents
mod HostBounds
mod HostHandlers
mod HostRuns
mod HostStop
mod HostSignals
mod HostRest
mod HostPending
mod HostTests
mod Tests
