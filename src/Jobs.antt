-- ===== src/Jobs.antt =====
-- packages/core/jobs: the durable job queue, its retry schedule, crash recovery and the worker.
pub mod Backoff
pub mod Table
pub mod Queue
pub mod Claim
pub mod Recovery
pub mod Sweep
pub mod Runtime
