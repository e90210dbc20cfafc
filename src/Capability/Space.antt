-- ===== src/Capability/Space.antt =====
-- crates/kernel-core/src/capability.rs: `CapabilitySpace`, a domain's table of handles.
use gaxera.Prelude.{
  ℕ, ◌+◌, ◌-◌, ◌%◌, Bool, not, ◌||◌, Option, none, some, List, [], ◌∷◌, ◌++◌, length, get_elem?,
  set, ltb, ◌==◌, u32_mod, if◌then◌else◌, is_some, Result, ok, err, ◌>>=◌, ◌>>◌, reject_if, ok_or,
}
use gaxera.Abi.Handles.{Handle, from_parts, slot, generation, is_valid}
use gaxera.Abi.Ids.{ResourceDomainId, next_generation}
use gaxera.Capability.Types.{
  CapabilityError, space_full, invalid_handle, stale_handle, accounting_invariant, CapabilityNodeId,
}

pub data CapabilityInitError : Type 0 where
  capacity_too_large allocation_failed : CapabilityInitError

pub record CapabilitySlot : Type 0 where
  pub generation : ℕ
  pub node : Option CapabilityNodeId
  pub next_free : Option ℕ

pub record CapabilitySpace : Type 0 where
  pub domain : ResourceDomainId
  pub slots : List CapabilitySlot
  pub capacity : ℕ
  pub free_head : Option ℕ

-- The last argument says whether the allocator grants the reservation.
unfoldable pub space_try_new :
    ResourceDomainId → ℕ → Bool → Result CapabilitySpace CapabilityInitError
space_try_new domain capacity reserved =
    if ltb (u32_mod - 1) capacity
    then err capacity_too_large
    else if reserved
    then ok (record { domain = domain; slots = []; capacity = capacity; free_head = none })
    else err allocation_failed

-- The handles of the occupied slots from index `i` on.
unfoldable pub handles_from : ℕ → List CapabilitySlot → List Handle
handles_from i [] = []
handles_from i (s ∷ ss) =
    let rest = handles_from (i + 1) ss in
    if is_some s.node then from_parts (i % u32_mod) s.generation ∷ rest else rest

unfoldable pub snapshot_handles : CapabilitySpace → Bool → Result (List Handle) CapabilityError
unfolding handles_from
snapshot_handles c reserved = if reserved then ok (handles_from 0 c.slots) else err space_full

unfoldable pub has_capacity : CapabilitySpace → Bool
has_capacity c = is_some c.free_head || ltb (length c.slots) c.capacity

unfoldable pub insert :
    CapabilitySpace → CapabilityNodeId → Result Handle CapabilityError × CapabilitySpace
insert c node = elim c.free_head [
  | some index ↦ elim (get_elem? c.slots index) [
    | none ↦ (err accounting_invariant, c)
    | some s ↦ (
      ok (from_parts index s.generation),
      record c {
        slots = set c.slots index (record s { node = some node; next_free = none });
        free_head = s.next_free;
      },
    )
  ]
  | none ↦ if length c.slots == c.capacity then (err space_full, c) else (
    ok (from_parts (length c.slots % u32_mod) 1),
    record c {
      slots = c.slots ++ record { generation = 1; node = some node; next_free = none } ∷ [];
    },
  )
]

-- The checks that `remove` and `node_for` make before they look at the slot's node.
unfoldable pub slot_for : CapabilitySpace → Handle → Result CapabilitySlot CapabilityError
slot_for c h = do
  reject_if (not (is_valid h)) invalid_handle
  s ← ok_or (get_elem? c.slots (slot h)) invalid_handle
  reject_if (not (s.generation == generation h)) stale_handle
  ok s

unfoldable pub node_for : CapabilitySpace → Handle → Result CapabilityNodeId CapabilityError
unfolding slot_for
node_for c h = do s ← slot_for c h; ok_or s.node stale_handle

unfoldable pub remove :
    CapabilitySpace → Handle → Result CapabilityNodeId CapabilityError × CapabilitySpace
unfolding slot_for
remove c h = elim (slot_for c h) [
  | err e ↦ (err e, c)
  | ok s ↦ elim s.node [
    | none ↦ (err stale_handle, c)
    | some node ↦
        let freed : CapabilitySlot = record {
          generation = next_generation s.generation;
          node = none;
          next_free = c.free_head;
        } in
        (ok node, record c { slots = set c.slots (slot h) freed; free_head = some (slot h) })
  ]
]
