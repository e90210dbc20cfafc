-- ===== src/Prelude/Bits.antt =====
-- Laws of `&`, `|` and `^` on numbers, by their lowest binary digit.
use Prim.Native.Nat.{
  ℕ, zero, suc, ◌+◌, ◌-◌, ◌*◌, ◌/◌, ◌%◌, ◌^◌, ◌≤◌, ◌<◌, min, max, bit_and, bit_or, digits,
  bit_and-bitwise, bit_or-bitwise,
}
use mathlib.Core.Path.{◌≡◌, refl, ap}
use native.Mathlib.Nat.{pow-suc}
use native.Mathlib.Omega.{arith}

-- The digit recursion does not depend on its fuel.
pub digits_enough :
    (rest : ℕ → ℕ) (f : ℕ → ℕ → ℕ) (n m a b : ℕ)
    → a ≤ n
    → a ≤ m
    → digits rest f n a b ≡ digits rest f m a b
digits_enough rest f zero zero a b p q = refl
digits_enough rest f zero (suc m) zero b p q = refl
digits_enough rest f zero (suc m) (suc a) b p q = absurd (omega arith)
digits_enough rest f (suc n) zero zero b p q = refl
digits_enough rest f (suc n) zero (suc a) b p q = absurd (omega arith)
digits_enough rest f (suc n) (suc m) zero b p q = refl
digits_enough rest f (suc n) (suc m) (suc a) b p q =
    rw (digits_enough rest f n m (suc a / 2) (b / 2) (omega arith) (omega arith))

pub bit_and-halves : (a b : ℕ) → bit_and a b ≡ bit_and (a / 2) (b / 2) * 2 + min (a % 2) (b % 2)
bit_and-halves zero b = omega (arith, bit_and-bitwise 0 b, bit_and-bitwise 0 (b / 2))
bit_and-halves (suc a) b = omega (
  arith,
  bit_and-bitwise (suc a) b,
  bit_and-bitwise (suc a / 2) (b / 2),
  digits_enough (λ c. 0) min a (suc a / 2) (suc a / 2) (b / 2) (omega arith) (omega arith),
)

pub bit_or-halves : (a b : ℕ) → bit_or a b ≡ bit_or (a / 2) (b / 2) * 2 + max (a % 2) (b % 2)
bit_or-halves zero b = omega (arith, bit_or-bitwise 0 b, bit_or-bitwise 0 (b / 2))
bit_or-halves (suc a) b = omega (
  arith,
  bit_or-bitwise (suc a) b,
  bit_or-bitwise (suc a / 2) (b / 2),
  digits_enough (λ c. c) max a (suc a / 2) (suc a / 2) (b / 2) (omega arith) (omega arith),
)

-- Inductions over the width `w` of the operands.
pub bit_and-le_left : (w a b : ℕ) → a < 2 ^ w → bit_and a b ≤ a
bit_and-le_left zero a b h =
    let ea : a ≡ 0 = omega arith in rw ea (omega (arith, bit_and-bitwise 0 b))
bit_and-le_left (suc w) a b h =
    omega
      (arith, bit_and-halves a b, bit_and-le_left w (a / 2) (b / 2) (omega (arith, pow-suc 2 w)))

pub bit_and_comm : (w a b : ℕ) → a < 2 ^ w → b < 2 ^ w → bit_and a b ≡ bit_and b a
bit_and_comm zero a b p q =
    let ea : a ≡ 0 = omega arith in let eb : b ≡ 0 = omega arith in rw (ea, eb)
bit_and_comm (suc w) a b p q = omega (
  arith,
  pow-suc 2 w,
  bit_and-halves a b,
  bit_and-halves b a,
  bit_and_comm w (a / 2) (b / 2) (omega (arith, pow-suc 2 w)) (omega (arith, pow-suc 2 w)),
)

pub zero-bit_and : (b : ℕ) → bit_and 0 b ≡ 0
zero-bit_and b = bit_and-bitwise 0 b

-- `a & !b == 0` says that every bit of `a` is a bit of `b`, as `a & b == a` does.
pub bit_and-complement_zero :
    (w a b : ℕ) → a < 2 ^ w → b < 2 ^ w → bit_and a (2 ^ w - 1 - b) ≡ 0 → bit_and a b ≡ a
bit_and-complement_zero zero a b p q h = let ea : a ≡ 0 = omega arith in rw ea (zero-bit_and b)
bit_and-complement_zero (suc w) a b p q h =
    let half : (2 ^ suc w - 1 - b) / 2 ≡ 2 ^ w - 1 - b / 2 = omega (arith, pow-suc 2 w) in
    let here : bit_and (a / 2) ((2 ^ suc w - 1 - b) / 2) ≡ 0 =
      omega (arith, bit_and-halves a (2 ^ suc w - 1 - b)) in
    omega (
      arith,
      pow-suc 2 w,
      bit_and-halves a b,
      bit_and-halves a (2 ^ suc w - 1 - b),
      bit_and-complement_zero w (a / 2) (b / 2) (omega (arith, pow-suc 2 w))
          (omega (arith, pow-suc 2 w)) (rw half at here),
    )

pub zero-bit_and-complement :
    (w a b : ℕ) → a < 2 ^ w → b < 2 ^ w → bit_and a b ≡ a → bit_and a (2 ^ w - 1 - b) ≡ 0
zero-bit_and-complement zero a b p q h =
    let ea : a ≡ 0 = omega arith in rw ea (zero-bit_and (2 ^ 0 - 1 - b))
zero-bit_and-complement (suc w) a b p q h =
    let half : (2 ^ suc w - 1 - b) / 2 ≡ 2 ^ w - 1 - b / 2 = omega (arith, pow-suc 2 w) in
    let here : bit_and (a / 2) (2 ^ w - 1 - b / 2) ≡ 0 =
      zero-bit_and-complement w (a / 2) (b / 2) (omega (arith, pow-suc 2 w))
        (omega (arith, pow-suc 2 w))
        (omega (
          arith,
          bit_and-halves a b,
          bit_and-le_left w (a / 2) (b / 2) (omega (arith, pow-suc 2 w)),
        )) in
    let there : bit_and (a / 2) ((2 ^ suc w - 1 - b) / 2) ≡ 0 = rw half here in
    omega (
      arith,
      pow-suc 2 w,
      bit_and-halves a b,
      bit_and-halves a (2 ^ suc w - 1 - b),
      bit_and-le_left w (a / 2) (b / 2) (omega (arith, pow-suc 2 w)),
    )

-- Bit inclusion is transitive.
pub bit_and_trans :
    (w a b c : ℕ) → a < 2 ^ w → b < 2 ^ w → bit_and a b ≡ a → bit_and b c ≡ b → bit_and a c ≡ a
bit_and_trans zero a b c p q h k = let ea : a ≡ 0 = omega arith in rw ea (zero-bit_and c)
bit_and_trans (suc w) a b c p q h k =
    let ha : a / 2 < 2 ^ w = omega (arith, pow-suc 2 w) in
    let hb : b / 2 < 2 ^ w = omega (arith, pow-suc 2 w) in
    omega (
      arith,
      bit_and-halves a b,
      bit_and-halves b c,
      bit_and-halves a c,
      bit_and-le_left w (a / 2) (b / 2) ha,
      bit_and-le_left w (b / 2) (c / 2) hb,
      bit_and_trans w (a / 2) (b / 2) (c / 2) ha hb
          (omega (arith, bit_and-halves a b, bit_and-le_left w (a / 2) (b / 2) ha))
          (omega (arith, bit_and-halves b c, bit_and-le_left w (b / 2) (c / 2) hb)),
    )

-- `(high << w) | low` is a sum when `low` has `w` bits.
pub bit_or-zero_fuel : (n a : ℕ) → a ≤ n → bit_or a 0 ≡ a
bit_or-zero_fuel n zero h = bit_or-bitwise 0 0
bit_or-zero_fuel zero (suc a) h = absurd (omega arith)
bit_or-zero_fuel (suc n) (suc a) h =
    omega (arith, bit_or-halves (suc a) 0, bit_or-zero_fuel n (suc a / 2) (omega arith))

pub bit_or-shifted : (w high low : ℕ) → low < 2 ^ w → bit_or (high * 2 ^ w) low ≡ high * 2 ^ w + low
bit_or-shifted zero high low h =
    let e : low ≡ 0 = omega arith in
    rw e (omega (arith, bit_or-zero_fuel (high * 2 ^ 0) (high * 2 ^ 0) (omega arith)))
bit_or-shifted (suc w) high low h =
    let double : high * 2 ^ suc w ≡ 2 * (high * 2 ^ w) =
      omega (arith, ap (λ (t : ℕ). high * t) (pow-suc 2 w)) in
    let half : high * 2 ^ suc w / 2 ≡ high * 2 ^ w = omega arith in
    let step : bit_or (high * 2 ^ suc w) low
        ≡ bit_or (high * 2 ^ w) (low / 2) * 2 + max (high * 2 ^ suc w % 2) (low % 2) =
      rw (← half) (bit_or-halves (high * 2 ^ suc w) low) in
    omega (arith, step, double, bit_or-shifted w high (low / 2) (omega (arith, pow-suc 2 w)))
