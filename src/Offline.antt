-- ===== src/Offline.antt =====
-- internal/siteoffline: work that a site admits while it is cut off, and its return.
pub mod Checks
pub mod Admission
pub mod Reconnect
pub mod Delegated
pub mod Returning
mod Examples
