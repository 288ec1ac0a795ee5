-- ===== src/Sync.antt =====
-- internal/sitesync: reconciliation of the state records of a site.
pub mod Records
pub mod Reconcile
pub mod Delivery
mod Examples
