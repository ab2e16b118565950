-- ===== src/Pages.antt =====
-- The pages of a list query: app/api/query/pagination.py.
pub mod Parse
pub mod Limits
pub mod Tests
