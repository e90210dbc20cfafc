-- ===== src/Capability.antt =====
-- crates/kernel-core/src/capability.rs: capability spaces, the derivation tree and its operations.
pub mod Types
pub mod Space
pub mod Tree
pub mod Ops
pub mod Lineage
pub mod Revocation
pub mod Cascade
pub mod Ancestry
pub mod Slots
pub mod Holding
pub mod Nodes
pub mod Allocation
pub mod Depth
pub mod Derivation
pub mod Release
