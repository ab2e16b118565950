-- ===== src/Idempotency.antt =====
-- Retry-safe writes: app/services/idempotency_service.py and
-- app/repositories/idempotency_repository.py.
pub mod Service
pub mod Records
pub mod Retries
pub mod Isolation
pub mod Tests
