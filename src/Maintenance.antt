-- ===== src/Maintenance.antt =====
-- backend/app/modules/maintenance: the durable runs of the scheduled sweeps.
pub mod Claim
pub mod Settle
pub mod Runs
pub mod Fence
pub mod Examples
