-- ===== src/Jobs.antt =====
-- backend/app/modules/jobs: the durable jobs and their execution.
pub mod Samples
pub mod Examples
pub mod Policy
pub mod Lookup
pub mod Failure
pub mod Claim
pub mod Settle
pub mod Ledger
pub mod Invariant
pub mod Calls
pub mod Frame
pub mod Protection
pub mod Leases
pub mod Traces
pub mod Ownership
pub mod Progress
pub mod Retry
pub mod Execution
pub mod Tasks
pub mod Finalizer
pub mod TaskExamples
