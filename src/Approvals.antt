-- ===== src/Approvals.antt =====
-- internal/approvals/service.go: durable requests for approval, the decisions of their approvers, and
-- the one use that an approval is good for. An operation is the body of a transaction on the two
-- tables; the clock's reading and the fresh identifier are arguments.
pub mod Requests
pub mod Decisions
pub mod Tally
pub mod Steps
pub mod Unanimity
pub mod Grant
pub mod Lifecycle
pub mod Examples
