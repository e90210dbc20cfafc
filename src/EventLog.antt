-- ===== src/EventLog.antt =====
-- crates/gaxfs_event_log/src/ring_buffer.rs: `EventRingBuffer`, the events of a file system with the
-- sequence numbers they are given. `none` is a panic; a `usize` has 64 bits.
pub mod History
pub mod Replay
use gaxera.Prelude.{
  ℕ, zero, suc, ◌+◌, ◌-◌, ◌%◌, Bool, true, false, Option, none, some, List, [], ◌∷◌, ◌++◌, length,
  get_elem?, set, min, max, ltb, leb, ◌==◌, u64_mod, if◌then◌else◌,
}

-- gaxfs_types/src/events.rs
pub data GaxFsEventType : Type 0 where
  object_created object_modified object_deleted metadata_changed relationship_changed :
      GaxFsEventType
  snapshot_created snapshot_deleted capability_changed event_checkpoint_marker custom_extension :
      GaxFsEventType

-- The object identifier and the checksum are the lists of their bytes.
pub record GaxFsEventRecord : Type 0 where
  pub sequence_id : ℕ
  pub timestamp : ℕ
  pub event_type : GaxFsEventType
  pub target_object : List ℕ
  pub owner_domain : ℕ
  pub extent_delta_blocks : ℕ
  pub checksum : List ℕ
  pub payload_len : ℕ

pub record EventRingBuffer : Type 0 where
  pub buffer : List GaxFsEventRecord
  pub capacity : ℕ
  pub head : ℕ

abbrev pub new_ring : ℕ → EventRingBuffer
new_ring capacity = record { buffer = []; capacity = capacity; head = 1 }

-- `((seq - 1) as usize) % self.capacity`, which panics when the capacity is 0. No `seq` is 0.
abbrev pub slot_of : EventRingBuffer → ℕ → Option ℕ
slot_of ring seq = if ring.capacity == 0 then none else some ((seq - 1) % ring.capacity)

-- The sequence number given to the record.
unfoldable pub push : EventRingBuffer → GaxFsEventRecord → Option (ℕ × EventRingBuffer)
push ring event =
    let seq = ring.head in
    let stamped = record event { sequence_id = seq } in
    let next = (seq + 1) % u64_mod in
    if ltb (length ring.buffer) ring.capacity
    then some (seq, record ring { buffer = ring.buffer ++ stamped ∷ []; head = next })
    else elim (slot_of ring seq) [
      | none ↦ none
      | some slot ↦ some (seq, record ring { buffer = set ring.buffer slot stamped; head = next })
    ]

-- The loop over `n` sequence numbers from `seq` on.
unfoldable pub read_slots : EventRingBuffer → ℕ → ℕ → Option (List GaxFsEventRecord)
read_slots ring seq zero = some []
read_slots ring seq (suc n) =
    let rest = read_slots ring (seq + 1) n in
    elim (slot_of ring seq) [
      | none ↦ none
      | some slot ↦ elim rest [
        | none ↦ none
        | some later ↦ elim (get_elem? ring.buffer slot) [
          | none ↦ some later
          | some event ↦ some (event ∷ later)
        ]
      ]
    ]

abbrev pub oldest_available : EventRingBuffer → ℕ
oldest_available ring = if ltb ring.capacity ring.head then ring.head - ring.capacity else 1

unfoldable pub read_from : EventRingBuffer → ℕ → ℕ → Option (List GaxFsEventRecord)
unfolding read_slots
read_from ring from_sequence max_count =
    if leb ring.head from_sequence
    then some []
    else let start_seq = max from_sequence (oldest_available ring) in
      let end_seq = min ((start_seq + max_count) % u64_mod) ring.head in
      read_slots ring start_seq (end_seq - start_seq)
