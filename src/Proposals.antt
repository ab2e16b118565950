-- ===== src/Proposals.antt =====
-- The proposals of agents: app/services/agent_proposal_service.py.
pub mod Store
pub mod Service
pub mod Propose
pub mod Synced
pub mod Queue
pub mod Inserted
pub mod Steps
pub mod Gaps
pub mod Replayed
pub mod Tests
