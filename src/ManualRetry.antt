-- ===== src/ManualRetry.antt =====
-- internal/orchestration/job: manual retries, which give a failed job a fresh one in its stead.
pub mod Requests
pub mod Repository
pub mod History
pub mod Creating
pub mod Binding
pub mod Walking
pub mod Accepting
mod Examples
