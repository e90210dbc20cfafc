-- ===== src/PacketRing.antt =====
-- crates/net_types/src/ring.rs: `PacketRingHeader`, the indices of a ring of packet slots between one
-- producer and one consumer. Each operation reads and writes the indices at once.
pub mod Slots
use gaxera.Prelude.{
  ℕ, ◌+◌, ◌-◌, ◌%◌, ◌^◌, Bool, true, false, Option, none, some, bit_and, leb, ◌==◌, u32_mod,
  if◌then◌else◌, Result, ok, err,
}

pub data BackpressurePolicy : Type 0 where
  flow_control drop_oldest block_producer drop_newest priority_discard : BackpressurePolicy

pub data RingType : Type 0 where
  rx tx control : RingType

-- `self as u8`
abbrev pub ring_type_number : RingType → ℕ
ring_type_number rx = 0
ring_type_number tx = 1
ring_type_number control = 2

abbrev pub policy_number : BackpressurePolicy → ℕ
policy_number flow_control = 0
policy_number drop_oldest = 1
policy_number block_producer = 2
policy_number drop_newest = 3
policy_number priority_discard = 4

abbrev pub default_policy : RingType → BackpressurePolicy
default_policy rx = flow_control
default_policy tx = block_producer
default_policy control = priority_discard

pub record PacketRingHeader : Type 0 where
  pub magic : ℕ
  pub version : ℕ
  pub capacity : ℕ
  pub ring_type : ℕ
  pub policy : ℕ
  pub reserved : ℕ
  pub producer_index : ℕ
  pub consumer_index : ℕ

-- The assertion that the capacity is a power of two is a condition of the theorems.
abbrev pub new_header : ℕ → RingType → PacketRingHeader
new_header capacity ring_type = record {
  magic = 0x504B_5452;
  version = 1;
  capacity = capacity;
  ring_type = ring_type_number ring_type;
  policy = policy_number (default_policy ring_type);
  reserved = 0;
  producer_index = 0;
  consumer_index = 0;
}

-- `wrapping_sub` of two `u32`.
abbrev pub wrapping_sub : ℕ → ℕ → ℕ
wrapping_sub a b = (a + (u32_mod - b)) % u32_mod

abbrev pub len : PacketRingHeader → ℕ
len h = wrapping_sub h.producer_index h.consumer_index

abbrev pub is_empty : PacketRingHeader → Bool
is_empty h = len h == 0

abbrev pub is_full : PacketRingHeader → Bool
is_full h = leb h.capacity (len h)

abbrev pub policy_of : ℕ → BackpressurePolicy
policy_of policy =
    if policy == 0
    then flow_control
    else if policy == 1
    then drop_oldest
    else if policy == 2
    then block_producer
    else if policy == 3
    then drop_newest
    else priority_discard

unfoldable pub push_slot : PacketRingHeader → Result ℕ BackpressurePolicy × PacketRingHeader
push_slot h =
    if leb h.capacity (wrapping_sub h.producer_index h.consumer_index)
    then (err (policy_of h.policy), h)
    else (
      ok (bit_and h.producer_index (h.capacity - 1)),
      record h { producer_index = (h.producer_index + 1) % u32_mod },
    )

unfoldable pub pop_slot : PacketRingHeader → Option ℕ × PacketRingHeader
pop_slot h = if h.consumer_index == h.producer_index then (none, h) else (
  some (bit_and h.consumer_index (h.capacity - 1)),
  record h { consumer_index = (h.consumer_index + 1) % u32_mod },
)
