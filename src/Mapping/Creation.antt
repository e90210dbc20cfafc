-- ===== src/Mapping/Creation.antt =====
-- crates/kernel-core/src/mapping.rs: which mappings can be made, and their end.
use gaxera.Prelude.{
  ℕ, ◌%◌, ◌==◌, ◌≡◌, ◌≢◌, ◌↔◌, ◌⊎◌, ap, false, not, Option, ok, err, is_error, arith, inl, inr,
}
use gaxera.Prelude.Low.{bit_and-low}
use gaxera.Abi.Ids.{ObjectId}
use gaxera.Abi.Authority.{Rights}
use gaxera.Capability.Types.{CapabilityNodeId}
use gaxera.Mapping.{
  Mapping, CachePolicy, closed, is_unaligned, try_new_memory_object, try_new_mmio,
  try_new_contiguous_frame, close,
}

-- The mask of the code tests for a multiple of a page.
is_unaligned_lem : (n : ℕ) → is_unaligned n ≡ not (n % 4096 == 0)
unfolding is_unaligned
is_unaligned_lem n = ap (λ (k : ℕ). not (k == 0)) (bit_and-low 12 n)

abbrev pub IsRange : ℕ → Type 0
IsRange size = (size ≢ 0) × (size % 4096 ≡ 0)

-- Each of the three ways to make a mapping succeeds exactly when its addresses and offset are
-- multiples of 4096 and its size is one other than zero. The mapping made is open, covers the range that was
-- asked for, and can be closed once: a second close is refused.
pub mapping_cases :
    (id target object : ObjectId) (address offset base size : ℕ) (policy : CachePolicy)
    (permissions : Rights) (parent : Option CapabilityNodeId)
    → let bridge = try_new_memory_object id target address object offset size permissions parent in
      let device = try_new_mmio id target address base size policy permissions in
      let frame = try_new_contiguous_frame id target address object base offset size permissions in
      ((is_error bridge ≡ false) ↔ ((address % 4096 ≡ 0) × (offset % 4096 ≡ 0) × IsRange size))
      × ((is_error device ≡ false) ↔ ((address % 4096 ≡ 0) × (base % 4096 ≡ 0) × IsRange size))
      × ((is_error frame ≡ false)
          ↔ ((address % 4096 ≡ 0) × (base % 4096 ≡ 0) × (offset % 4096 ≡ 0) × IsRange size))
      × ((m : Mapping)
          → (bridge ≡ ok m) ⊎ (device ≡ ok m) ⊎ (frame ≡ ok m)
          → (m.target_address_space ≡ target)
            × (m.virtual_address ≡ address)
            × (m.size ≡ size)
            × (m.permissions ≡ permissions)
            × ((close m).0 ≡ ok tt)
            × (close (close m).1 ≡ (err closed, (close m).1)))
unfolding try_new_memory_object try_new_mmio try_new_contiguous_frame close
mapping_cases id target object address offset base size policy permissions parent =
    let a = is_unaligned_lem address in
    let o = is_unaligned_lem offset in
    let b = is_unaligned_lem base in
    let s = is_unaligned_lem size in
    (
      (ground (arith, a, o, s), ground (arith, a, o, s)),
      (ground (arith, a, b, s), ground (arith, a, b, s)),
      (ground (arith, a, b, o, s), ground (arith, a, b, o, s)),
      (λ m made. elim made [
        | inl e ↦ ground arith
        | inr (inl e) ↦ ground arith
        | inr (inr e) ↦ ground arith
      ]),
    )
