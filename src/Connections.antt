-- ===== src/Connections.antt =====
-- QuickDesk/src/viewmodel/connectionlistmodel.cpp: the list of remote connections behind the
-- tabs of the main window.
pub mod Model
pub mod Rows
pub mod States
pub mod Tests
