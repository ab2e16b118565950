-- ===== src/Cron.antt =====
-- Cron expressions: app/services/cron_util.py.
pub mod Field
pub mod Schedule
pub mod Values
pub mod Next
pub mod Tests
