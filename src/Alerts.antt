-- ===== src/Alerts.antt =====
-- The alert evaluator: app/services/alert_evaluator.py and the history of
-- app/repositories/alert_repository.py.
pub mod Evaluator
pub mod Firing
pub mod Tests
