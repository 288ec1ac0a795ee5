-- ===== src/Approval.antt =====
-- internal/orchestration/policy and internal/orchestration/change: decisions, approvals and the
-- machine of a change.
pub mod Policy
pub mod Quorum
pub mod Change
pub mod Authority
pub mod Endings
pub mod Preflight
pub mod Eligibility
mod Examples
