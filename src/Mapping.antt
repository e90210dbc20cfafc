-- ===== src/Mapping.antt =====
-- crates/kernel-core/src/mapping.rs: `Mapping`, a range of an address space and what backs it.
pub mod Creation
use gaxera.Prelude.{
  ℕ, ◌+◌, ◌%◌, Bool, true, false, not, ◌||◌, Option, none, some, bit_and, bit_or, ◌^◌, ◌==◌,
  u32_mod, u64_mod, checked_add, checked_sub, if◌then◌else◌, Result, ok, err, reject_if, ◌>>=◌,
  ◌>>◌,
}
use gaxera.Abi.Ids.{ObjectId}
use gaxera.Capability.Types.{CapabilityNodeId}
use gaxera.Abi.Authority.{Rights, read, write}

pub data CachePolicy : Type 0 where
  cached uncached write_through write_combining : CachePolicy

pub data MappingError : Type 0 where
  invalid_alignment zero_size closed : MappingError

pub data MappingBacking : Type 0 where
  memory_object : ObjectId → ℕ → MappingBacking
  physical_range : ℕ → CachePolicy → MappingBacking
  contiguous_frame : ObjectId → ℕ → ℕ → CachePolicy → MappingBacking

pub record Mapping : Type 0 where
  pub id : ObjectId
  pub target_address_space : ObjectId
  pub virtual_address : ℕ
  pub size : ℕ
  pub permissions : Rights
  pub backing : MappingBacking
  pub lineage_parent_node : Option CapabilityNodeId
  pub capability_refs : ℕ
  pub is_closed : Bool

-- `n & 0xFFF != 0`
unfoldable pub is_unaligned : ℕ → Bool
is_unaligned n = not (bit_and n 0xFFF == 0)

-- The record that every constructor returns.
abbrev pub bridge :
    ObjectId → ObjectId → ℕ → ℕ → Rights → MappingBacking → Option CapabilityNodeId → Mapping
bridge id target virtual_address size permissions backing parent = record {
  id = id;
  target_address_space = target;
  virtual_address = virtual_address;
  size = size;
  permissions = permissions;
  backing = backing;
  lineage_parent_node = parent;
  capability_refs = 1;
  is_closed = false;
}

unfoldable pub try_new_memory_object :
    ObjectId
    → ObjectId
    → ℕ
    → ObjectId
    → ℕ
    → ℕ
    → Rights
    → Option CapabilityNodeId
    → Result Mapping MappingError
unfolding is_unaligned
try_new_memory_object id target virtual_address source offset_bytes size permissions parent = do
  reject_if (is_unaligned virtual_address || is_unaligned offset_bytes) invalid_alignment
  reject_if (size == 0 || is_unaligned size) zero_size
  ok (bridge id target virtual_address size permissions (memory_object source offset_bytes) parent)

unfoldable pub try_new_mmio :
    ObjectId → ObjectId → ℕ → ℕ → ℕ → CachePolicy → Rights → Result Mapping MappingError
unfolding is_unaligned
try_new_mmio id target virtual_address physical_base size cache_policy permissions = do
  reject_if (is_unaligned virtual_address || is_unaligned physical_base) invalid_alignment
  reject_if (size == 0 || is_unaligned size) zero_size
  ok (
      bridge id target virtual_address size permissions (physical_range physical_base cache_policy)
        none)

-- `Rights::MAP | Rights::READ | Rights::WRITE`
abbrev pub device_rights : Rights
device_rights = record { bits = bit_or (bit_or (2 ^ 2) read.bits) write.bits }

unfoldable pub try_new : ObjectId → ℕ → ℕ → CachePolicy → Result Mapping MappingError
unfolding try_new_mmio
try_new id phys_addr size cache_policy =
    try_new_mmio id (record { index = 0; generation = 0 }) 0 phys_addr size cache_policy
      device_rights

unfoldable pub try_new_contiguous_frame :
    ObjectId → ObjectId → ℕ → ObjectId → ℕ → ℕ → ℕ → Rights → Result Mapping MappingError
unfolding is_unaligned
try_new_contiguous_frame id target virtual_address frame_object physical_base offset_bytes size
      permissions =
    do
      reject_if
          (is_unaligned virtual_address || is_unaligned physical_base || is_unaligned offset_bytes)
          invalid_alignment
      reject_if (size == 0 || is_unaligned size) zero_size
      ok (
          bridge id target virtual_address size permissions
            (contiguous_frame frame_object physical_base offset_bytes cached) none)

-- The sum in a build that does not check for overflow.
unfoldable pub phys_addr : Mapping → Option ℕ
phys_addr m = elim m.backing [
  | memory_object object offset ↦ none
  | physical_range base policy ↦ some base
  | contiguous_frame object base offset policy ↦ some ((base + offset) % u64_mod)
]

unfoldable pub cache_policy : Mapping → CachePolicy
cache_policy m = elim m.backing [
  | memory_object object offset ↦ cached
  | physical_range base policy ↦ policy
  | contiguous_frame object base offset policy ↦ policy
]

unfoldable pub inc_capability_ref : Mapping → Result (Unit {0}) MappingError × Mapping
inc_capability_ref m = elim (checked_add u32_mod m.capability_refs 1) [
  | none ↦ (err closed, m)
  | some refs ↦ (ok tt, record m { capability_refs = refs })
]

-- Whether no reference is left.
unfoldable pub dec_capability_ref : Mapping → Result Bool MappingError × Mapping
dec_capability_ref m = elim (checked_sub m.capability_refs 1) [
  | none ↦ (err closed, m)
  | some refs ↦ (ok (refs == 0), record m { capability_refs = refs })
]

unfoldable pub close : Mapping → Result (Unit {0}) MappingError × Mapping
close m = if m.is_closed then (err closed, m) else (ok tt, record m { is_closed = true })
