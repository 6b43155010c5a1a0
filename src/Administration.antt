-- ===== src/Administration.antt =====
-- Administration of grants, src/authorization_admin.rs.
pub mod Types
pub mod Requests
pub mod Grants
pub mod Delegations
pub mod Operations
pub mod Inversion
pub mod Normalized
pub mod Entries
pub mod Creation
pub mod Granting
pub mod Revocation
