-- ===== src/Filter.antt =====
-- The filter expressions of a scope profile: app/models/scope_profile.py,
-- app/services/filter_expression.py and app/mcp/scope_filter.py.
pub mod Expression
pub mod Sql
pub mod Substituted
pub mod Slots
pub mod Placeholders
pub mod Scope
pub mod Tests
