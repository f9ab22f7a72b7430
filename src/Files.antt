-- ===== src/Files.antt =====
-- backend/app/modules/files: stored files, from the upload intent to the verdict of the worker.
pub mod Tables
pub mod StateMachine
pub mod Validation
pub mod Upload
pub mod Service
pub mod Lifecycle
pub mod Calls
pub mod Invariant
pub mod Preservation
pub mod Steps
pub mod Transitions
pub mod History
pub mod Refinement
pub mod Verification
pub mod Finishing
pub mod Completion
pub mod Access
pub mod Tasks
pub mod Readiness
pub mod Transactions
pub mod Gate
pub mod Trust
pub mod Samples
pub mod Examples
pub mod MachineExamples
pub mod TaskExamples
