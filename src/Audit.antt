-- ===== src/Audit.antt =====
-- internal/identity/audit: the chain of audit events.
pub mod Types
pub mod Log
pub mod Chain
pub mod Tampering
pub mod Reading
pub mod Paging
mod Examples
