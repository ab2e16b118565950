-- ===== src/Workflow.antt =====
-- The document workflow: app/domain/workflow, app/services/workflow_service.py and the tables that
-- app/repositories/workflow_repository.py writes.
pub mod Enums
pub mod Policies
pub mod Roles
pub mod Store
pub mod Request
pub mod Service
pub mod Checks
pub mod Effects
pub mod Publish
pub mod Trail
pub mod Approval
pub mod Tests
