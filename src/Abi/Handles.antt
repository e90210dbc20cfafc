-- ===== src/Abi/Handles.antt =====
-- crates/gaxera-abi/src/lib.rs: `Handle`, a slot and a generation packed into a `u64`.
use gaxera.Prelude.{
  ℕ, ◌+◌, ◌*◌, ◌/◌, ◌%◌, ◌^◌, ◌<◌, ◌≡◌, Bool, false, not, ◌↔◌, bit_or, arith, ◌==◌,
}
use gaxera.Prelude.Bits.{bit_or-shifted}

pub record Handle : Type 0 where
  pub raw : ℕ

unfoldable pub from_parts : ℕ → ℕ → Handle
from_parts slot generation = record { raw = bit_or (generation * 2 ^ 32) slot }

-- `self.0 as u32`
unfoldable pub slot : Handle → ℕ
slot h = h.raw % 2 ^ 32

-- `(self.0 >> 32) as u32`
unfoldable pub generation : Handle → ℕ
generation h = h.raw / 2 ^ 32 % 2 ^ 32

unfoldable pub is_valid : Handle → Bool
is_valid h = not (h.raw == 0)

from_parts-raw : (s g : ℕ) → s < 2 ^ 32 → (from_parts s g).raw ≡ g * 2 ^ 32 + s
unfolding from_parts
from_parts-raw s g hs = bit_or-shifted 32 g s hs

pub slot-from_parts : (s g : ℕ) → s < 2 ^ 32 → slot (from_parts s g) ≡ s
unfolding slot
slot-from_parts s g hs = omega (arith, from_parts-raw s g hs)

pub generation-from_parts : (s g : ℕ) → s < 2 ^ 32 → g < 2 ^ 32 → generation (from_parts s g) ≡ g
unfolding generation
generation-from_parts s g hs hg = omega (arith, from_parts-raw s g hs)

from_parts-slot : (r : ℕ) → r < 2 ^ 64 → (from_parts (r % 2 ^ 32) (r / 2 ^ 32 % 2 ^ 32)).raw ≡ r
from_parts-slot r h = omega (arith, from_parts-raw (r % 2 ^ 32) (r / 2 ^ 32 % 2 ^ 32) (omega arith))

-- A handle packed from 32-bit parts gives back its slot and its generation, and it is valid exactly
-- when one of them is not zero. A 64-bit handle is packed from its own slot and generation.
pub from_parts_lem :
    (s g r : ℕ)
    → s < 2 ^ 32
    → g < 2 ^ 32
    → r < 2 ^ 64
    → (slot (from_parts s g) ≡ s)
      × (generation (from_parts s g) ≡ g)
      × ((is_valid (from_parts s g) ≡ false) ↔ ((s ≡ 0) × (g ≡ 0)))
      × (let h : Handle = record { raw = r } in from_parts (slot h) (generation h) ≡ h)
unfolding is_valid slot generation
from_parts_lem s g r hs hg hr = (
  slot-from_parts s g hs,
  generation-from_parts s g hs hg,
  (ground (arith, from_parts-raw s g hs), ground (arith, from_parts-raw s g hs)),
  ground (arith, from_parts-slot r hr),
)
