-- ===== src/Abi.antt =====
-- crates/gaxera-abi/src/lib.rs and ipc.rs: the values that cross the user/kernel boundary, and
-- crates/kernel-core/src/object.rs: the object identities.
pub mod Handles
pub mod Kinds
pub mod Authority
pub mod Ids
pub mod Messages
