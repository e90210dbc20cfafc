-- ===== src/Tests/Frames.antt =====
-- Examples for crates/kernel-core/src/memory.rs and mapping.rs.
use gaxera.Prelude.{◌+◌, ◌≡◌, ◌↔◌, ◌⊎◌, true, not, some, [], ◌∷◌, retain, u32_mod, arith}
use gaxera.Abi.Ids.{ObjectId}
use gaxera.Memory.{
  MemoryObject, MappingLineageRecord, MappingLineageTable, anonymous, can_destroy, is_from,
  find_mappings_by_memory_object, remove_mappings_by_memory_object,
}
use gaxera.Memory.References.{references, can_destroy_iff}
use gaxera.Memory.Lineage.{remove_mappings_lem}

abbrev object_id : ObjectId
object_id = record { index = 4; generation = 1 }

abbrev space_id : ObjectId
space_id = record { index = 5; generation = 1 }

abbrev memory : MemoryObject
memory = record {
  id = object_id;
  charging_domain = space_id;
  kind = anonymous;
  frames = 0x1000 ∷ 0x5000 ∷ 0x9000 ∷ [];
  size_bytes = 12288;
  capability_refs = 1;
  mapping_refs = 0;
  transient_refs = 0;
}

abbrev overfull : MemoryObject
overfull = record memory { capability_refs = 0xFFFF_FFFF; mapping_refs = 1 }

can_destroy_iff_example : (can_destroy overfull ≡ true) ↔ (
    (references overfull ≡ 0)
    ⊎ (references overfull ≡ u32_mod)
    ⊎ (references overfull ≡ u32_mod + u32_mod))
can_destroy_iff_example = can_destroy_iff overfull (omega arith) (omega arith) (omega arith)

abbrev mine : MappingLineageRecord
mine = record {
  mapping_id = record { index = 8; generation = 1 };
  source_memory_object = object_id;
  target_address_space = space_id;
  virtual_address = 0x40_0000;
  page_count = 2;
}

abbrev lineage : MappingLineageTable
lineage = record { records = mine ∷ record mine { source_memory_object = space_id } ∷ mine ∷ [] }

remove_mappings_lem_example :
    let kept : MappingLineageTable = record {
      records = retain (λ r. not (is_from object_id r)) lineage.records;
    } in
    (remove_mappings_by_memory_object lineage object_id
      ≡ some (find_mappings_by_memory_object lineage object_id, kept))
    × (find_mappings_by_memory_object kept object_id ≡ [])
remove_mappings_lem_example = remove_mappings_lem lineage object_id
