-- ===== src/Framing.antt =====
-- QuickDesk/src/manager/NativeMessaging.cpp: messages to and from the native processes, each a
-- 4-byte little-endian length and a JSON text. Qt's JSON reader and writer are a parameter.
pub mod Stream
pub mod Chunks
pub mod Recovery
pub mod Wrap
pub mod Transport
pub mod Tests
