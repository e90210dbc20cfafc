-- ===== src/ContiguousFrame.antt =====
-- crates/kernel-core/src/contiguous_frame.rs: `ContiguousFrameObject`, frames for a device with the
-- references that keep them. A `usize` has 64 bits.
use gaxera.Prelude.{
  ℕ, ◌*◌, ◌%◌, ◌^◌, ◌<◌, ◌≡◌, ◌≢◌, ◌↔◌, Bool, true, ◌&&◌, none, some, ◌==◌, u32_mod, u64_mod,
  checked_add, checked_sub, Result, ok, err, arith,
}
use gaxera.Abi.Ids.{ObjectId, ResourceDomainId}

pub data ContiguousFrameError : Type 0 where
  capability_overflow capability_underflow mapping_overflow mapping_underflow : ContiguousFrameError

pub record ContiguousFrameObject : Type 0 where
  pub id : ObjectId
  pub base_frame : ℕ
  pub page_count : ℕ
  pub order : ℕ
  pub owner : ResourceDomainId
  pub capability_count : ℕ
  pub mapping_count : ℕ

abbrev pub new_frame : ObjectId → ℕ → ℕ → ℕ → ResourceDomainId → ContiguousFrameObject
new_frame id base_frame page_count order owner = record {
  id = id;
  base_frame = base_frame;
  page_count = page_count;
  order = order;
  owner = owner;
  capability_count = 1;
  mapping_count = 0;
}

abbrev pub Changed : Type 0
Changed = Result (Unit {0}) ContiguousFrameError × ContiguousFrameObject

unfoldable pub inc_capability : ContiguousFrameObject → Changed
inc_capability f = elim (checked_add u32_mod f.capability_count 1) [
  | none ↦ (err capability_overflow, f)
  | some count ↦ (ok tt, record f { capability_count = count })
]

unfoldable pub can_destroy : ContiguousFrameObject → Bool
can_destroy f = f.capability_count == 0 && f.mapping_count == 0

-- Whether the frames can be given back.
unfoldable pub dec_capability :
    ContiguousFrameObject → Result Bool ContiguousFrameError × ContiguousFrameObject
unfolding can_destroy
dec_capability f = elim (checked_sub f.capability_count 1) [
  | none ↦ (err capability_underflow, f)
  | some count ↦ let f' = record f { capability_count = count } in (ok (can_destroy f'), f')
]

-- `1usize << order`, for an order below 64.
unfoldable pub is_order_aligned : ContiguousFrameObject → Bool
is_order_aligned f =
    let expected_count = 2 ^ f.order in
    let alignment = (expected_count * 4096) % u64_mod in
    f.page_count == expected_count && f.base_frame % alignment == 0

unfoldable pub add_mapping : ContiguousFrameObject → Changed
add_mapping f = elim (checked_add u64_mod f.mapping_count 1) [
  | none ↦ (err mapping_overflow, f)
  | some count ↦ (ok tt, record f { mapping_count = count })
]

unfoldable pub remove_mapping : ContiguousFrameObject → Changed
remove_mapping f = elim (checked_sub f.mapping_count 1) [
  | none ↦ (err mapping_underflow, f)
  | some count ↦ (ok tt, record f { mapping_count = count })
]

-- Frames that are mapped are never reported free when a capability goes. They can be destroyed once
-- their last mapping is removed after that, and not before both counts are 0.
pub mapped_frames_stay :
    (f : ContiguousFrameObject)
    → 0 < f.mapping_count
    → ((dec_capability f).0 ≢ ok true)
      × ((can_destroy (remove_mapping (dec_capability f).1).1 ≡ true)
          ↔ ((f.mapping_count ≡ 1) × ((dec_capability f).1.capability_count ≡ 0)))
unfolding can_destroy dec_capability remove_mapping
mapped_frames_stay f mapped = ((λ e. ground arith), (ground arith, ground arith))
