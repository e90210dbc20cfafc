-- ===== src/Abi/Ids.antt =====
-- crates/kernel-core/src/object.rs: `ObjectId`; resource.rs: `ResourceDomainId`; capability.rs:
-- `CapabilityNodeId`, `next_generation`.
use gaxera.Prelude.{
  ℕ, ◌+◌, ◌*◌, ◌/◌, ◌%◌, ◌^◌, ◌<◌, ◌≡◌, ◌≢◌, ◌↔◌, Bool, true, ◌&&◌, bit_or, bit_and, arith, ◌==◌,
  if◌then◌else◌,
}

pub record ObjectId : Type 0 where
  pub index : ℕ
  pub generation : ℕ

-- The newtype around an `ObjectId` is left out.
abbrev pub ResourceDomainId : Type 0
ResourceDomainId = ObjectId

unfoldable pub same_id : ObjectId → ObjectId → Bool
same_id a b = a.index == b.index && a.generation == b.generation

unfoldable pub raw : ObjectId → ℕ
raw id = bit_or (id.generation * 2 ^ 32) id.index

unfoldable pub from_raw : ℕ → ObjectId
from_raw r = record { index = bit_and r 0xFFFF_FFFF; generation = r / 2 ^ 32 }

-- `wrapping_add(1)`, and 1 in place of 0.
unfoldable pub next_generation : ℕ → ℕ
next_generation g = let next = (g + 1) % 2 ^ 32 in if next == 0 then 1 else next

pub same_id_iff : (a b : ObjectId) → (same_id a b ≡ true) ↔ (a ≡ b)
unfolding same_id
same_id_iff a b = ground arith

-- The next generation is a nonzero `u32` that differs from the old one.
pub next_generation_lem :
    (g : ℕ)
    → 0 < g
    → g < 2 ^ 32
    → (next_generation g ≢ g) × (0 < next_generation g) × (next_generation g < 2 ^ 32)
unfolding next_generation
next_generation_lem g p h = ground arith
