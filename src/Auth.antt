-- ===== src/Auth.antt =====
-- internal/identity/auth: users, sessions and the service that issues and checks them.
pub mod Types
pub mod Store
pub mod Setup
pub mod Tokens
pub mod Dropping
pub mod Calls
pub mod Refine
pub mod Promise
pub mod Permits
pub mod Endings
pub mod Refinement
pub mod Ended
pub mod Granting
mod Examples
pub mod Service
pub mod Sessions
pub mod Revoking
