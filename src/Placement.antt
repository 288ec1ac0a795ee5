-- ===== src/Placement.antt =====
-- internal/placement: the plan that places a workload on a node.
pub mod Candidates
pub mod Plan
pub mod Suiting
pub mod Normal
pub mod Eligible
pub mod Choosing
mod Examples
