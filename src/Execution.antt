-- ===== src/Execution.antt =====
-- src/execution.rs: executing a message intent, and the evidence that it leaves.
pub mod Audit
pub mod Types
pub mod Record
pub mod Execute
pub mod Frames
pub mod Outcome
pub mod Inversion
pub mod Effects
pub mod Reserving
pub mod Creation
pub mod Refusal
pub mod Repetition
pub mod Settled
pub mod Evidence
pub mod SchemaKept
pub mod Accepted
pub mod Retry
pub mod Idempotence
pub mod Trace
pub mod Once
pub mod Spent
pub mod Unhindered
pub mod Fresh
