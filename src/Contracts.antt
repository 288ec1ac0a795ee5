-- ===== src/Contracts.antt =====
-- internal/corecontracts: the contracts shared by the distributed core.
pub mod Identifiers
pub mod Metadata
