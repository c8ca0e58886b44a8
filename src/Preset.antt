-- ===== src/Preset.antt =====
-- QuickDesk/src/manager/PresetManager.cpp: what the server presets for its clients, and the
-- version that it asks of them.
pub mod Version
pub mod Manager
pub mod Order
pub mod StrictOrder
pub mod Loading
pub mod Tests
