-- ===== src/Prelude/Words.antt =====
-- `checked_add` and `checked_sub` of the unsigned integers below a modulus.
use Prim.Native.Nat.{ℕ, ◌+◌, ◌-◌}
use mathlib.Core.Option.{Option, none, some}
use gaxera.Prelude.Tests.{ltb, leb, if◌then◌else◌}

abbrev pub u32_mod : ℕ
u32_mod = 0x1_0000_0000

abbrev pub u64_mod : ℕ
u64_mod = 0x1_0000_0000_0000_0000

abbrev pub checked_add : ℕ → ℕ → ℕ → Option ℕ
checked_add modulus a b = if ltb (a + b) modulus then some (a + b) else none

abbrev pub checked_sub : ℕ → ℕ → Option ℕ
checked_sub a b = if leb b a then some (a - b) else none
