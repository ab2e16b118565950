-- ===== src/Diff.antt =====
-- app/services/diff_service.py with the types of app/schemas/diff.py.
pub mod Inline
pub mod Faithful
pub mod Node
pub mod Table
pub mod Longest
pub mod Complete
pub mod Classify
pub mod Summary
pub mod Sections
pub mod Cache
pub mod Keys
pub mod Operations
pub mod Named
pub mod Caching
pub mod Invalidated
pub mod Coverage
pub mod Fresh
pub mod Tests
