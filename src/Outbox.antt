-- ===== src/Outbox.antt =====
-- backend/app/modules/outbox: the contracts of event payloads, the creation of events and the
-- queries of the coordinator.
pub mod Contracts
pub mod Service
pub mod Insertion
