-- ===== src/Execution.antt =====
-- internal/execution/service.go: tasks, the attempts that hold their leases, and the guard that each
-- mutation by an attempt passes.
pub mod State
pub mod Lease
pub mod Setback
pub mod Intake
pub mod Creation
pub mod Child
pub mod Replay
pub mod Reads
pub mod Created
pub mod Guard
pub mod Invariant
pub mod Writes
pub mod Calls
pub mod Exclusive
pub mod Ended
pub mod Examples
