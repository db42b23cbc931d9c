-- ===== src/Adapters.antt =====
-- packages/core/adapters and packages/core/jobs/handlers.py: searches, their runs and their results.
pub mod Types
pub mod Merge
pub mod Registry
pub mod Table
pub mod Orchestrator
pub mod Run
