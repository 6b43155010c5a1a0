-- ===== src/Authorization.antt =====
-- src/authorization.rs: who may act as which participant, on what, and why.
pub mod Capability
pub mod Schema
pub mod Implicit
pub mod Delegated
pub mod Evaluate
pub mod Authority
pub mod ImplicitRights
pub mod Soundness
pub mod Allowed
pub mod Delegating
pub mod Effective
pub mod ListedRights
pub mod EffectiveRights
pub mod Listing
pub mod Window
pub mod Windows
pub mod WindowTexts
pub mod WindowRequests
pub mod WindowRows
pub mod WindowReading
pub mod WindowContents
pub mod Snapshot
pub mod Paging
pub mod Snapshots
