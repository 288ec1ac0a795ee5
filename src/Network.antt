-- ===== src/Network.antt =====
-- internal/networkpolicy: network zones, change plans and the machine that runs a change.
pub mod Policy
pub mod Plan
pub mod Planning
pub mod Machine
pub mod Invariant
pub mod Runs
pub mod Counting
pub mod Outcomes
pub mod Ranking
pub mod Steps
mod Examples
