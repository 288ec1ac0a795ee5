-- ===== src/Job.antt =====
-- internal/orchestration/job: durable jobs.
pub mod Types
pub mod Retry
pub mod Repository
pub mod Create
pub mod Claim
pub mod Invariant
pub mod Admission
pub mod Runs
pub mod Terminal
pub mod Fencing
pub mod Claiming
pub mod Exclusion
mod Examples
