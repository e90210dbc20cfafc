-- ===== src/Memory.antt =====
-- crates/kernel-core/src/memory.rs: `MemoryObject` with its three classes of references, and
-- `MappingLineageTable`, the record of the mappings made from memory objects.
pub mod References
pub mod Ranges
pub mod Lineage
use gaxera.Prelude.{
  ℕ, zero, suc, ◌+◌, ◌/◌, ◌%◌, Bool, true, false, not, ◌||◌, Option, none, some, List, [], ◌∷◌,
  ◌++◌, length, take, ltb, leb, ◌==◌, get_elem?, retain, u32_mod, u64_mod, checked_add, checked_sub,
  if◌then◌else◌, Result, ok, err, ok_or, reject_if, ◌>>=◌, ◌>>◌,
}
use gaxera.Prelude.Slices.{drop, remove_at}
use gaxera.Abi.Ids.{ObjectId, ResourceDomainId, same_id}

pub data MemoryObjectKind : Type 0 where
  anonymous executable_image : MemoryObjectKind

pub record MemoryObject : Type 0 where
  pub id : ObjectId
  pub charging_domain : ResourceDomainId
  pub kind : MemoryObjectKind
  pub frames : List ℕ
  pub size_bytes : ℕ
  pub capability_refs : ℕ
  pub mapping_refs : ℕ
  pub transient_refs : ℕ

pub data MemoryError : Type 0 where
  ref_overflow ref_underflow invalid_range : MemoryError

abbrev pub with_frames_and_kind :
    ObjectId → ResourceDomainId → ℕ → List ℕ → MemoryObjectKind → MemoryObject
with_frames_and_kind id charging_domain size_bytes frames kind = record {
  id = id;
  charging_domain = charging_domain;
  kind = kind;
  frames = frames;
  size_bytes = size_bytes;
  capability_refs = 1;
  mapping_refs = 0;
  transient_refs = 0;
}

-- The second argument says whether the allocator grants the reservation.
unfoldable pub add_frame : MemoryObject → Bool → ℕ → Result (Unit {0}) MemoryError × MemoryObject
add_frame m reserved physical_address =
    if reserved
    then (ok tt, record m { frames = m.frames ++ physical_address ∷ [] })
    else (err ref_overflow, m)

unfoldable pub take_frames : MemoryObject → List ℕ × MemoryObject
take_frames m = (m.frames, record m { frames = [] })

-- The sum of three `u32` in a build that does not check for overflow.
abbrev pub total_refs : MemoryObject → ℕ
total_refs m = (m.capability_refs + m.mapping_refs + m.transient_refs) % u32_mod

unfoldable pub can_destroy : MemoryObject → Bool
can_destroy m = total_refs m == 0

abbrev pub Counted : Type 0
Counted = Result (Unit {0}) MemoryError × MemoryObject

-- Whether the object can be destroyed.
abbrev pub Released : Type 0
Released = Result Bool MemoryError × MemoryObject

unfoldable pub inc_capability_ref : MemoryObject → Counted
inc_capability_ref m = elim (checked_add u32_mod m.capability_refs 1) [
  | none ↦ (err ref_overflow, m)
  | some refs ↦ (ok tt, record m { capability_refs = refs })
]

unfoldable pub dec_capability_ref : MemoryObject → Released
unfolding can_destroy
dec_capability_ref m = elim (checked_sub m.capability_refs 1) [
  | none ↦ (err ref_underflow, m)
  | some refs ↦ let m' = record m { capability_refs = refs } in (ok (can_destroy m'), m')
]

unfoldable pub inc_mapping_ref : MemoryObject → Counted
inc_mapping_ref m = elim (checked_add u32_mod m.mapping_refs 1) [
  | none ↦ (err ref_overflow, m)
  | some refs ↦ (ok tt, record m { mapping_refs = refs })
]

unfoldable pub dec_mapping_ref : MemoryObject → Released
unfolding can_destroy
dec_mapping_ref m = elim (checked_sub m.mapping_refs 1) [
  | none ↦ (err ref_underflow, m)
  | some refs ↦ let m' = record m { mapping_refs = refs } in (ok (can_destroy m'), m')
]

unfoldable pub inc_transient_ref : MemoryObject → Counted
inc_transient_ref m = elim (checked_add u32_mod m.transient_refs 1) [
  | none ↦ (err ref_overflow, m)
  | some refs ↦ (ok tt, record m { transient_refs = refs })
]

unfoldable pub dec_transient_ref : MemoryObject → Released
unfolding can_destroy
dec_transient_ref m = elim (checked_sub m.transient_refs 1) [
  | none ↦ (err ref_underflow, m)
  | some refs ↦ let m' = record m { transient_refs = refs } in (ok (can_destroy m'), m')
]

-- The messages of `frames_subrange`, which are strings in the code.
pub data RangeError : Type 0 where
  unaligned overflow past_object past_frames : RangeError

-- `is_multiple_of(4096)`
abbrev pub is_page_aligned : ℕ → Bool
is_page_aligned bytes = bytes % 4096 == 0

unfoldable pub frames_subrange : MemoryObject → ℕ → ℕ → Result (List ℕ) RangeError
frames_subrange m offset_bytes size_bytes = do
  reject_if (not (is_page_aligned offset_bytes) || not (is_page_aligned size_bytes)) unaligned
  end_bytes ← ok_or (checked_add u64_mod offset_bytes size_bytes) overflow
  reject_if (ltb m.size_bytes end_bytes) past_object
  let start_frame = offset_bytes / 4096
  let frame_count = size_bytes / 4096
  reject_if (ltb (length m.frames) ((start_frame + frame_count) % u64_mod)) past_frames
  ok (take frame_count (drop start_frame m.frames))

pub record MappingLineageRecord : Type 0 where
  pub mapping_id : ObjectId
  pub source_memory_object : ObjectId
  pub target_address_space : ObjectId
  pub virtual_address : ℕ
  pub page_count : ℕ

pub record MappingLineageTable : Type 0 where
  pub records : List MappingLineageRecord

unfoldable pub add_mapping : MappingLineageTable → MappingLineageRecord → MappingLineageTable
add_mapping t r = record { records = t.records ++ r ∷ [] }

-- `position` and `remove` on the list of records.
unfoldable pub take_mapping :
    ObjectId → List MappingLineageRecord → Option MappingLineageRecord × List MappingLineageRecord
unfolding same_id
take_mapping id [] = (none, [])
take_mapping id (r ∷ rs) =
    let (found, rest) = take_mapping id rs in
    if same_id r.mapping_id id then (some r, rs) else (found, r ∷ rest)

unfoldable pub remove_mapping :
    MappingLineageTable → ObjectId → Option MappingLineageRecord × MappingLineageTable
unfolding take_mapping
remove_mapping t mapping_id =
    let (found, rest) = take_mapping mapping_id t.records in (found, record { records = rest })

abbrev pub is_from : ObjectId → MappingLineageRecord → Bool
unfolding same_id
is_from source r = same_id r.source_memory_object source

unfoldable pub find_mappings_by_memory_object :
    MappingLineageTable → ObjectId → List MappingLineageRecord
find_mappings_by_memory_object t source = retain (is_from source) t.records

-- The loop, on fuel for its turns; `none` when that runs out.
unfoldable pub sweep :
    ℕ
    → ObjectId
    → ℕ
    → List MappingLineageRecord
    → List MappingLineageRecord
    → Option (List MappingLineageRecord × List MappingLineageRecord)
unfolding is_from
sweep zero source i records matching = none
sweep (suc fuel) source i records matching = elim (get_elem? records i) [
  | none ↦ some (matching, records)
  | some r ↦
      if is_from source r
      then sweep fuel source i (remove_at records i) (matching ++ r ∷ [])
      else sweep fuel source (suc i) records matching
]

unfoldable pub remove_mappings_by_memory_object :
    MappingLineageTable → ObjectId → Option (List MappingLineageRecord × MappingLineageTable)
unfolding sweep
remove_mappings_by_memory_object t source =
    elim (sweep (suc (length t.records)) source 0 t.records []) [
      | none ↦ none
      | some r ↦ some (r.0, record { records = r.1 })
    ]
