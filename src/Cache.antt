-- ===== src/Cache.antt =====
-- QuickDesk/src/api/OcrCache.cpp: recognised texts by the hash of their frame. The mutex makes
-- each method one step; the stored results are a type parameter.
pub mod Store
pub mod Order
pub mod Tests
