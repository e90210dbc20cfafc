-- ===== src/Tests/Storage.antt =====
-- Examples for crates/gaxfs_event_log/src/ring_buffer.rs, gax_storage_engine/src/extent_allocator.rs and
-- net_types/src/ring.rs.
use gaxera.Prelude.{ℕ, ◌+◌, ◌-◌, ◌≡◌, refl, some, List, [], ◌∷◌, length, take, max, ok, arith}
use gaxera.Prelude.Slices.{drop}
use gaxera.EventLog.{EventRingBuffer, GaxFsEventRecord, object_created, new_ring, read_from}
use gaxera.EventLog.Replay.{stamp, push_all, read_from-push_all}
use gaxera.Extents.{
  ExtentAllocator, ExtentDescriptor, new_allocator, allocate_extent, free_extent,
  is_block_allocated,
}
use gaxera.Prelude.{true, is_error, All, ◌<◌, ◌≢◌, ◌↔◌, ◌++◌}
use gaxera.PacketRing.{PacketRingHeader, new_header, tx, len, push_slot}
use gaxera.PacketRing.Slots.{IsRing, in_flight, push_slot_fresh}
use gaxera.Extents.Bitmap.{IsSized, new_allocator-IsSized}
use gaxera.Extents.Search.{Outcome}
use gaxera.Extents.Allocation.{allocate_extent_cases, free-allocate}

abbrev created : GaxFsEventRecord
created = record {
  sequence_id = 0;
  timestamp = 100;
  event_type = object_created;
  target_object = [];
  owner_domain = 1;
  extent_delta_blocks = 1;
  checksum = [];
  payload_len = 0;
}

abbrev events : List GaxFsEventRecord
events = created ∷ record created { timestamp = 200 } ∷ record created { timestamp = 300 } ∷ []

read_from-push_all_example :
    (ring : EventRingBuffer) × (push_all (new_ring 2) events ≡ some ring)
    × (ring.head ≡ length events + 1)
    × (read_from ring 1 10
        ≡ some (take 10 (drop (max (1 - 1) (length events - 2)) (stamp 1 events))))
read_from-push_all_example = read_from-push_all 2 events 1 10 (omega arith) (omega arith)

abbrev device : ExtentAllocator
device = record { total_blocks = 64; erase_block_align = 8; free_bitmap = 0 ∷ [] }

device-IsSized : IsSized device
unfolding new_allocator
device-IsSized = new_allocator-IsSized 64 8 (omega arith) (omega arith)

allocate_extent_cases_example : Outcome device 16 (allocate_extent device 16)
allocate_extent_cases_example =
    allocate_extent_cases device 16 device-IsSized (omega arith) (omega arith)

abbrev extent : ExtentDescriptor
extent = record { start_block = 0; num_blocks = 4 }

abbrev marked : ExtentAllocator
marked = record device { free_bitmap = 15 ∷ [] }

allocate_extent-device : allocate_extent device 4 ≡ some (ok extent, marked)
unfolding allocate_extent
allocate_extent-device = refl

free-allocate_example :
    IsSized (free_extent marked extent)
    × ((b : ℕ) → is_block_allocated (free_extent marked extent) b ≡ is_block_allocated device b)
free-allocate_example =
    free-allocate device marked 4 extent device-IsSized (omega arith) (omega arith)
      allocate_extent-device

abbrev ring : PacketRingHeader
ring = record (new_header 4 tx) { producer_index = 2; consumer_index = 0xFFFF_FFFF }

ring-IsRing : IsRing 2 ring
ring-IsRing = record {
  power = refl;
  narrow = omega arith;
  producer = omega arith;
  consumer = omega arith;
  within = omega arith;
}

push_slot_fresh_example :
    ((is_error (push_slot ring).0 ≡ true) ↔ (len ring ≡ ring.capacity))
    × (is_error (push_slot ring).0 ≡ true → (push_slot ring).1 ≡ ring)
    × ((slot : ℕ)
        → (push_slot ring).0 ≡ ok slot
        → IsRing 2 (push_slot ring).1
          × (slot < ring.capacity)
          × All (λ s. s ≢ slot) (in_flight ring)
          × (in_flight (push_slot ring).1 ≡ in_flight ring ++ slot ∷ []))
push_slot_fresh_example = push_slot_fresh 2 ring ring-IsRing
