-- ===== src/Abi/Authority.antt =====
-- crates/gaxera-abi/src/lib.rs: `Rights`, a `u32` mask of authority bits.
use gaxera.Prelude.{ℕ, ◌-◌, ◌^◌, ◌<◌, ◌≡◌, ◌↔◌, ◌∙◌, Bool, true, bit_and, ◌==◌, ==_iff}
use gaxera.Prelude.Bits.{
  bit_and_comm, bit_and-complement_zero, zero-bit_and-complement, bit_and_trans,
}

pub record Rights : Type 0 where
  pub bits : ℕ

abbrev pub read : Rights
read = record { bits = 1 }

abbrev pub write : Rights
write = record { bits = 2 }

abbrev pub manage : Rights
manage = record { bits = 64 }

unfoldable pub contains : Rights → Rights → Bool
contains r required = bit_and r.bits required.bits == required.bits

-- `(self.0 & !other.0) == 0`, where `!` flips the 32 bits.
unfoldable pub is_subset_of : Rights → Rights → Bool
is_subset_of r other = bit_and r.bits (2 ^ 32 - 1 - other.bits) == 0

-- A `u32` value.
abbrev pub IsWord : Rights → Type 0
IsWord r = r.bits < 2 ^ 32

pub subset_bits :
    (a b : Rights)
    → IsWord a
    → IsWord b
    → (is_subset_of a b ≡ true) ↔ (bit_and a.bits b.bits ≡ a.bits)
unfolding is_subset_of
subset_bits a b ha hb = (
  (λ h. bit_and-complement_zero 32 a.bits b.bits ha hb ((==_iff _ _).0 h)),
  (λ h. (==_iff _ _).1 (zero-bit_and-complement 32 a.bits b.bits ha hb h)),
)

-- The two tests agree: rights contain what is a subset of them.
pub contains-is_subset_of :
    (a b : Rights) → IsWord a → IsWord b → (contains b a ≡ true) ↔ (is_subset_of a b ≡ true)
unfolding contains
contains-is_subset_of a b ha hb = (
  (λ h. (subset_bits a b ha hb).1 (bit_and_comm 32 a.bits b.bits ha hb ∙ (==_iff _ _).0 h)),
  (λ h. (==_iff _ _).1 (bit_and_comm 32 b.bits a.bits hb ha ∙ (subset_bits a b ha hb).0 h)),
)

pub is_subset_of_trans :
    (a b c : Rights)
    → IsWord a
    → IsWord b
    → IsWord c
    → is_subset_of a b ≡ true
    → is_subset_of b c ≡ true
    → is_subset_of a c ≡ true
is_subset_of_trans a b c ha hb hc h k = (subset_bits a c ha hc).1 (
    bit_and_trans 32 a.bits b.bits c.bits ha hb ((subset_bits a b ha hb).0 h)
      ((subset_bits b c hb hc).0 k))

-- Of rights of 32 bits: what is narrowed from others grants nothing that the others do not grant.
pub contains_narrowed :
    (r parent required : Rights)
    → IsWord r
    → IsWord parent
    → IsWord required
    → is_subset_of r parent ≡ true
    → contains r required ≡ true
    → contains parent required ≡ true
contains_narrowed r p q hr hp hq h k =
    (contains-is_subset_of q p hq hp).1
      (is_subset_of_trans q r p hq hr hp ((contains-is_subset_of q r hq hr).0 k) h)
