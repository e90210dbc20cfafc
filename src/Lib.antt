-- ===== src/Lib.antt =====
-- A model of the core of the Gaxera kernel, the crates gaxera-abi and kernel-core, and of two parts
-- of its file system and one of its network stack, with proofs about them.
--
-- Parts. A resource domain (crates/kernel-core/src/resource.rs) is a quota account. The object
-- arena (object.rs) hands out generational identities and charges a domain for each object. The
-- capability engine (capability.rs) keeps one table of nodes for all derivations, and one space of
-- handles per domain; a handle leads to a node, a node to its ancestors and to an object of the
-- arena. An endpoint (ipc.rs) is the rendezvous of callers with a receiver, and messages carry
-- capabilities which are prepared against the sender's space and committed to the receiver's. A
-- process (process.rs) owns a main thread (thread.rs); threads wait for a processor in the queues
-- of its scheduler (scheduler.rs), and move between schedulers (scheduler_domain.rs) as far as
-- their affinity (affinity.rs) permits. Timers (timer.rs, time.rs) and interrupts (interrupt.rs)
-- signal notifications. Memory objects (memory.rs) and contiguous frames (contiguous_frame.rs) have
-- frames, and mappings (mapping.rs) put them into address spaces. The file system keeps events in a
-- ring (crates/gaxfs_event_log/src/ring_buffer.rs) and takes the blocks of a device from a bitmap
-- (crates/gax_storage_engine/src/extent_allocator.rs). Packets pass through rings of slots
-- (crates/net_types/src/ring.rs).
--
-- Files. Abi models crates/gaxera-abi/src/lib.rs and ipc.rs: Handles, Kinds, Authority (the
-- rights), Ids and Messages. Resource models resource.rs: Quota has the bounds, Reserve the
-- children of a domain. FreeList has the theory of slot tables with a free list, which Object and
-- Capability share. Object models object.rs: Lookup is its view as a partial map, Valid its
-- invariant, then Create, Destroy and Accounting. Capability models capability.rs: Types, Space,
-- Tree (the node table) and Ops (the public operations) are the code; Slots and Holding are about
-- spaces, Nodes, Allocation, Depth and Release about the table, Lineage, Ancestry, Revocation,
-- Cascade and Derivation about authority. Ipc models ipc.rs: Endpoint with Valid, Order, Replies,
-- Words and Tokens, and Transfer. WaitSet models waitset.rs, with Cookies, Valid, Operations and
-- Delivery, and Notification models notification.rs, with Signals, Sleepers and Stranded. Affinity,
-- Thread and Scheduler model the files of these names: Queues is about the queues seen as one line,
-- Valid is the invariant, Order is about taking the first of the line, Insert, Steal, Remove and
-- Yield about the other operations, Steps about all of them. SchedulerDomain has Migration. Timer
-- models time.rs and timer.rs, with Fires for one timer, Order and Expiry for the queue. Memory has
-- References, Ranges and Lineage, Mapping has Creation, Process has Life and Roles, Interrupt has
-- Delivery. EventLog models ring_buffer.rs, with History and Replay, and Extents models
-- extent_allocator.rs, with Bitmap, Search and Allocation. PacketRing models ring.rs, with Slots,
-- and ContiguousFrame models contiguous_frame.rs. Tests applies the theorems to concrete data.
--
-- Conventions. A method that borrows mutably returns its result and the new values of what it
-- borrowed, on error paths too. Numbers are natural numbers, and wrap-around and checked arithmetic
-- of u32 and u64 are written out (`% 2 ^ 32`, `checked_add`). A vector whose capacity was reserved
-- is a list; whether the allocator grants a reservation is a Boolean argument. A write to a live
-- node is `modify`. An accessor method is a field. What is written for a build without overflow
-- checks wraps around. The bitmap of a scheduler has 32 bits, a `usize` has 64.
--
-- Parameters. The binary search of the standard library is an argument of the insertion into a
-- timer queue, with the laws that its documentation states (`IsSearch` in Timer/Order).
--
-- Fuel. `validate_node` and `is_descendant_of` count up to the capacity of the table in the code
-- itself, and the model counts down from it. `release_node` is on fuel of one more than the number
-- of nodes, which is enough. `unlink_child` and `find_unrevoked_descendant` walk sibling lists;
-- they are on fuel of the number of nodes, and one more for the latter, and stop there. The search
-- for an extent is on fuel of two more than the number of blocks, and the removal of mappings on
-- one more than their number; both are enough.
--
-- Not modelled. Hardware and paging, system calls, address spaces and slabs, and the user space
-- servers but for the three parts above. The registers of a thread (its field `arch`). The message
-- argument of `reply`, and the identities given to endpoints, wait sets and notifications, which
-- their operations ignore.
pub mod Prelude
pub mod Abi
pub mod Resource
pub mod FreeList
pub mod Object
pub mod Capability
pub mod Ipc
pub mod Affinity
pub mod Thread
pub mod Scheduler
pub mod SchedulerDomain
pub mod Timer
pub mod Memory
pub mod Process
pub mod Interrupt
pub mod Mapping
pub mod EventLog
pub mod Extents
pub mod PacketRing
pub mod ContiguousFrame
pub mod WaitSet
pub mod Notification
pub mod Tests
