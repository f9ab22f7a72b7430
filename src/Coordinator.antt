-- ===== src/Coordinator.antt =====
-- backend/app/job_coordinator: the publication loop of the outbox.
pub mod Registry
pub mod Queries
pub mod Candidates
pub mod Claims
pub mod Settlement
pub mod Publication
pub mod Reconciliation
pub mod Upkeep
pub mod Pass
pub mod Backoff
pub mod Cycle
pub mod OwnedRows
pub mod Fencing
pub mod Selection
pub mod Claiming
pub mod ClaimExamples
pub mod Examples
