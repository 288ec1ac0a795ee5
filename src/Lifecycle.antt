-- ===== src/Lifecycle.antt =====
-- internal/nodelifecycle: the lifecycle contract of one node.
pub mod States
pub mod Validation
pub mod Evidence
pub mod Transitions
pub mod Histories
mod Examples
