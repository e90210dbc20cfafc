-- ===== src/Affinity.antt =====
-- crates/kernel-core/src/affinity.rs: `CpuAffinityMask`, the set of processors that a thread may run
-- on, as a `u64`.
use gaxera.Prelude.{
  ℕ, ◌^◌, ◌≤◌, ◌<◌, ◌≡◌, Bool, false, not, bit_and, bit_or, leb, ltb, ◌==◌, if◌then◌else◌, arith,
}
use gaxera.Prelude.Masks.{without_bit, bit_and-test_bit, test_bit-bit_or, test_bit-without_bit}

pub record CpuAffinityMask : Type 0 where
  pub mask : ℕ

abbrev pub all : CpuAffinityMask
all = record { mask = 0xFFFF_FFFF_FFFF_FFFF }

unfoldable pub single : ℕ → CpuAffinityMask
single cpu_id = if leb 64 cpu_id then record { mask = 0 } else record { mask = 2 ^ cpu_id }

unfoldable pub contains : CpuAffinityMask → ℕ → Bool
contains a cpu_id = if leb 64 cpu_id then false else not (bit_and a.mask (2 ^ cpu_id) == 0)

-- `set`
unfoldable pub set_cpu : CpuAffinityMask → ℕ → Bool → CpuAffinityMask
set_cpu a cpu_id enabled =
    if ltb cpu_id 64
    then (if enabled
        then record { mask = bit_or a.mask (2 ^ cpu_id) }
        else record { mask = without_bit 64 a.mask cpu_id })
    else a

unfoldable pub is_empty : CpuAffinityMask → Bool
is_empty a = a.mask == 0

-- Of a mask of 64 bits: after a processor below 64 has been enabled or disabled the mask contains it or
-- not, it contains every other as before, and a processor from 64 on is never contained and
-- changes nothing.
pub contains-set_cpu :
    (a : CpuAffinityMask) (cpu other : ℕ) (enabled : Bool)
    → a.mask < 2 ^ 64
    → (contains (set_cpu a cpu enabled) other
        ≡ (if cpu == other then (if ltb other 64 then enabled else false) else contains a other))
      × (64 ≤ cpu → set_cpu a cpu enabled ≡ a)
unfolding contains set_cpu
contains-set_cpu a cpu other enabled h = (
  ground (
    arith,
    bit_and-test_bit other a.mask,
    bit_and-test_bit other (bit_or a.mask (2 ^ cpu)),
    bit_and-test_bit other (without_bit 64 a.mask cpu),
    test_bit-bit_or cpu other a.mask,
    test_bit-without_bit 64 cpu other a.mask,
  ),
  (λ k. ground arith),
)
