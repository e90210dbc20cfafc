-- ===== src/Memory/References.antt =====
-- crates/kernel-core/src/memory.rs: the references that keep the frames of a memory object.
use gaxera.Prelude.{ℕ, ◌+◌, ◌≤◌, ◌<◌, ◌≡◌, ◌↔◌, ◌⊎◌, true, ok, err, u32_mod, arith}
use gaxera.Memory.{
  MemoryObject, ref_underflow, can_destroy, dec_capability_ref, dec_mapping_ref, dec_transient_ref,
}

abbrev pub references : MemoryObject → ℕ
references m = m.capability_refs + m.mapping_refs + m.transient_refs

-- With fewer than 2^32 references of each class, an object counts as unused when it has none, and
-- also when it has 2^32 or 2^33 in all, where their sum as a `u32` is 0.
pub can_destroy_iff :
    (m : MemoryObject)
    → m.capability_refs < u32_mod
    → m.mapping_refs < u32_mod
    → m.transient_refs < u32_mod
    → (can_destroy m ≡ true)
      ↔ ((references m ≡ 0) ⊎ (references m ≡ u32_mod) ⊎ (references m ≡ u32_mod + u32_mod))
unfolding can_destroy
can_destroy_iff m a b c = (ground arith, ground arith)

-- With at most 2^32 references in all, a release of a reference reports that the object can be
-- destroyed exactly when that was the last one of all three classes, and a release in a class without
-- references is refused and changes nothing.
pub last_reference :
    (m : MemoryObject)
    → references m ≤ u32_mod
    → ((((dec_capability_ref m).0 ≡ ok true) ↔ ((m.capability_refs ≡ 1) × (references m ≡ 1)))
        × (((dec_mapping_ref m).0 ≡ ok true) ↔ ((m.mapping_refs ≡ 1) × (references m ≡ 1)))
        × (((dec_transient_ref m).0 ≡ ok true) ↔ ((m.transient_refs ≡ 1) × (references m ≡ 1))))
      × (m.capability_refs ≡ 0 → dec_capability_ref m ≡ (err ref_underflow, m))
      × (m.mapping_refs ≡ 0 → dec_mapping_ref m ≡ (err ref_underflow, m))
      × (m.transient_refs ≡ 0 → dec_transient_ref m ≡ (err ref_underflow, m))
unfolding can_destroy dec_capability_ref dec_mapping_ref dec_transient_ref
last_reference m h = (
  ((ground arith, ground arith), (ground arith, ground arith), (ground arith, ground arith)),
  (λ e. ground arith),
  (λ e. ground arith),
  (λ e. ground arith),
)
