-- ===== src/Throttle.antt =====
-- The throttling of `document.viewed` events: app/audit/viewed_throttle.py.
pub mod Window
pub mod Refined
pub mod Tests
