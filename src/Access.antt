-- ===== src/Access.antt =====
-- internal/identity/rbac: roles, bindings to scopes, and what they allow.
pub mod Scopes
pub mod Builtin
pub mod Authorizer
pub mod Deciding
pub mod Granting
mod Examples
