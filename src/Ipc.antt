-- ===== src/Ipc.antt =====
-- crates/kernel-core/src/ipc.rs: endpoints and capability transfers.
pub mod Endpoint
pub mod Transfer
