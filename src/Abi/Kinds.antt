-- ===== src/Abi/Kinds.antt =====
-- crates/gaxera-abi/src/lib.rs: `ObjectType`, its discriminants, and `ObjectTypeSet`.
use gaxera.Prelude.{
  ℕ, zero, suc, ◌%◌, ◌^◌, ◌≡◌, ◌↔◌, Bool, true, not, bit_and, arith, ◌==◌, Result, ok, err,
}

pub data ObjectType : Type 0 where
  thread address_space capability_space endpoint notification memory_object mapping : ObjectType
  interrupt_object timer_object scheduling_context resource_domain debug_console : ObjectType
  factory wait_set contiguous_frame process : ObjectType

-- `self as u8`
unfoldable pub discriminant : ObjectType → ℕ
discriminant thread = 0
discriminant address_space = 1
discriminant capability_space = 2
discriminant endpoint = 3
discriminant notification = 4
discriminant memory_object = 5
discriminant mapping = 6
discriminant interrupt_object = 7
discriminant timer_object = 8
discriminant scheduling_context = 9
discriminant resource_domain = 10
discriminant debug_console = 11
discriminant factory = 12
discriminant wait_set = 13
discriminant contiguous_frame = 14
discriminant process = 15

-- `TryFrom<u32>`
unfoldable pub try_from : ℕ → Result ObjectType (Unit {0})
try_from zero = ok thread
try_from (suc zero) = ok address_space
try_from (suc (suc zero)) = ok capability_space
try_from (suc (suc (suc zero))) = ok endpoint
try_from (suc (suc (suc (suc zero)))) = ok notification
try_from (suc (suc (suc (suc (suc zero))))) = ok memory_object
try_from (suc (suc (suc (suc (suc (suc zero)))))) = ok mapping
try_from (suc (suc (suc (suc (suc (suc (suc zero))))))) = ok interrupt_object
try_from (suc (suc (suc (suc (suc (suc (suc (suc n)))))))) = try_high n
  where
    try_high : ℕ → Result ObjectType (Unit {0})
    try_high zero = ok timer_object
    try_high (suc zero) = ok scheduling_context
    try_high (suc (suc zero)) = ok resource_domain
    try_high (suc (suc (suc zero))) = ok debug_console
    try_high (suc (suc (suc (suc zero)))) = ok factory
    try_high (suc (suc (suc (suc (suc zero))))) = ok wait_set
    try_high (suc (suc (suc (suc (suc (suc zero)))))) = ok contiguous_frame
    try_high (suc (suc (suc (suc (suc (suc (suc zero))))))) = ok process
    try_high (suc (suc (suc (suc (suc (suc (suc (suc m)))))))) = err tt

-- Two kinds are the same when their discriminants are: the derived `PartialEq`.
unfoldable pub same_type : ObjectType → ObjectType → Bool
unfolding discriminant
same_type a b = discriminant a == discriminant b

-- A set of kinds is a `u16` mask.
pub record ObjectTypeSet : Type 0 where
  pub bits : ℕ

-- `1_u16 << (self as u8)`
unfoldable pub bit : ObjectType → ℕ
unfolding discriminant
bit t = 2 ^ discriminant t % 2 ^ 16

abbrev pub all : ObjectTypeSet
all = record { bits = 0xFFFF }

unfoldable pub of : ObjectType → ObjectTypeSet
unfolding bit
of t = record { bits = bit t }

unfoldable pub contains : ObjectTypeSet → ObjectType → Bool
unfolding bit
contains s t = not (bit_and s.bits (bit t) == 0)

pub discriminant-injective : (a b : ObjectType) → discriminant a ≡ discriminant b → a ≡ b
unfolding discriminant try_from
discriminant-injective a b h = ground arith

pub same_type_iff : (a b : ObjectType) → (same_type a b ≡ true) ↔ (a ≡ b)
unfolding same_type
same_type_iff a b = ground arith

pub contains-of : (a b : ObjectType) → contains (of a) b ≡ same_type a b
unfolding contains of same_type
contains-of a b = ground arith

-- Kinds and their discriminants convert back and forth: the discriminant of a kind is read as that
-- kind, and a number that is read as a kind is its discriminant.
pub try_from-discriminant :
    (t : ObjectType) (n : ℕ)
    → (try_from (discriminant t) ≡ ok t) × (try_from n ≡ ok t → discriminant t ≡ n)
unfolding try_from discriminant
try_from-discriminant t n = (ground arith, λ h. ground arith)
