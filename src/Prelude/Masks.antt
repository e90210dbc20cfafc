-- ===== src/Prelude/Masks.antt =====
-- Single bits of a word: setting, clearing and testing one, and `leading_zeros`.
use Prim.Native.Nat.{ℕ, zero, suc, ◌-◌, ◌/◌, ◌%◌, ◌^◌, ◌≤◌, ◌<◌, bit_and, bit_or}
use mathlib.Core.Path.{◌≡◌, refl}
use mathlib.Core.Bool.{Bool, true, false, not}
use mathlib.Core.Logic.{◌⊎◌, inl, inr}
use native.Mathlib.Nat.{pow-suc}
use native.Mathlib.Omega.{arith}
use gaxera.Prelude.Tests.{◌==◌, if◌then◌else◌, Bool-cases}
use gaxera.Prelude.Bits.{bit_and-halves, bit_or-halves, zero-bit_and, bit_or-zero_fuel}

-- The digit of `x` at position `p`.
unfoldable pub test_bit : ℕ → ℕ → Bool
test_bit zero x = x % 2 == 1
test_bit (suc p) x = test_bit p (x / 2)

-- `x & !(1 << p)` in a word of `w` bits.
abbrev pub without_bit : ℕ → ℕ → ℕ → ℕ
without_bit w x p = bit_and x (2 ^ w - 1 - 2 ^ p)

-- `leading_zeros` of a word of `w` bits.
unfoldable pub leading_zeros : ℕ → ℕ → ℕ
unfolding test_bit
leading_zeros zero x = 0
leading_zeros (suc w) x = let rest = suc (leading_zeros w x) in if test_bit w x then 0 else rest

half_pow : (p : ℕ) → (2 ^ suc p / 2 ≡ 2 ^ p) × (2 ^ suc p % 2 ≡ 0)
half_pow p = (omega (arith, pow-suc 2 p), omega (arith, pow-suc 2 p))

-- The lowest digit, and the others one place on.
bit_or-pow_suc :
    (p x : ℕ)
    → (bit_or x (2 ^ suc p) / 2 ≡ bit_or (x / 2) (2 ^ p)) × (bit_or x (2 ^ suc p) % 2 ≡ x % 2)
bit_or-pow_suc p x =
    let e = half_pow p in
    let step = rw e.0 at (bit_or-halves x (2 ^ suc p)) in
    (omega (arith, step, e.1), omega (arith, step, e.1))

bit_and-pow_suc :
    (p x : ℕ)
    → (bit_and x (2 ^ suc p) / 2 ≡ bit_and (x / 2) (2 ^ p)) × (bit_and x (2 ^ suc p) % 2 ≡ 0)
bit_and-pow_suc p x =
    let e = half_pow p in
    let step = rw e.0 at (bit_and-halves x (2 ^ suc p)) in
    (omega (arith, step, e.1), omega (arith, step, e.1))

bit_and-zero_fuel : (n x : ℕ) → x ≤ n → bit_and x 0 ≡ 0
bit_and-zero_fuel n zero h = zero-bit_and 0
bit_and-zero_fuel zero (suc x) h = absurd (omega arith)
bit_and-zero_fuel (suc n) (suc x) h =
    omega (arith, bit_and-halves (suc x) 0, bit_and-zero_fuel n (suc x / 2) (omega arith))

pub bit_and-zero_right : (x : ℕ) → bit_and x 0 ≡ 0
bit_and-zero_right x = bit_and-zero_fuel x x (omega arith)

bit_or-one : (x : ℕ) → (bit_or x 1 / 2 ≡ x / 2) × (bit_or x 1 % 2 ≡ 1)
bit_or-one x =
    let z = bit_or-zero_fuel (x / 2) (x / 2) (omega arith) in
    (omega (arith, bit_or-halves x 1, z), omega (arith, bit_or-halves x 1, z))

bit_and-one : (x : ℕ) → bit_and x 1 ≡ x % 2
bit_and-one x = omega (arith, bit_and-halves x 1, bit_and-zero_right (x / 2))

-- `x & (1 << p) != 0` tests the bit.
pub bit_and-test_bit : (p x : ℕ) → (bit_and x (2 ^ p) == 0) ≡ not (test_bit p x)
unfolding test_bit
bit_and-test_bit zero x = ground (arith, bit_and-one x)
bit_and-test_bit (suc p) x = ground (arith, bit_and-pow_suc p x, bit_and-test_bit p (x / 2))

pub test_bit-bit_or :
    (p q x : ℕ) → test_bit q (bit_or x (2 ^ p)) ≡ (if p == q then true else test_bit q x)
unfolding test_bit
test_bit-bit_or zero zero x = ground (arith, bit_or-one x)
test_bit-bit_or zero (suc q) x = rw (bit_or-one x).0 (ground arith)
test_bit-bit_or (suc p) zero x = ground (arith, bit_or-pow_suc p x)
test_bit-bit_or (suc p) (suc q) x =
    rw (bit_or-pow_suc p x).0 (ground (arith, test_bit-bit_or p q (x / 2)))

pub positive : (n : ℕ) → 0 < 2 ^ n
positive zero = omega arith
positive (suc n) = omega (arith, pow-suc 2 n, positive n)

pub pow_mono : (w p : ℕ) → p < w → 2 ^ p < 2 ^ w
pow_mono zero p h = absurd (omega arith)
pow_mono (suc w) zero h = omega (arith, pow-suc 2 w, positive w)
pow_mono (suc w) (suc p) h = omega (arith, pow-suc 2 w, pow-suc 2 p, pow_mono w p (omega arith))

-- The complement mask one place on.
mask_half :
    (w p : ℕ)
    → p < w
    → ((2 ^ suc w - 1 - 2 ^ suc p) / 2 ≡ 2 ^ w - 1 - 2 ^ p) × ((2 ^ suc w - 1 - 2 ^ suc p) % 2 ≡ 1)
mask_half w p h = (
  omega (arith, pow-suc 2 w, pow-suc 2 p, pow_mono w p h),
  omega (arith, pow-suc 2 w, pow-suc 2 p, pow_mono w p h),
)

without_bit-suc :
    (w p x : ℕ)
    → p < w
    → (without_bit (suc w) x (suc p) / 2 ≡ without_bit w (x / 2) p)
      × (without_bit (suc w) x (suc p) % 2 ≡ x % 2)
without_bit-suc w p x h =
    let e = mask_half w p h in
    let step = rw e.0 at (bit_and-halves x (2 ^ suc w - 1 - 2 ^ suc p)) in
    (omega (arith, step, e.1), omega (arith, step, e.1))

full-bit_and : (w x : ℕ) → x < 2 ^ w → bit_and x (2 ^ w - 1) ≡ x
full-bit_and zero x h = let e : x ≡ 0 = omega arith in rw e (zero-bit_and (2 ^ 0 - 1))
full-bit_and (suc w) x h =
    let e : (2 ^ suc w - 1) / 2 ≡ 2 ^ w - 1 = omega (arith, pow-suc 2 w) in
    let odd : (2 ^ suc w - 1) % 2 ≡ 1 = omega (arith, pow-suc 2 w) in
    let step = rw e at (bit_and-halves x (2 ^ suc w - 1)) in
    omega (arith, step, odd, full-bit_and w (x / 2) (omega (arith, pow-suc 2 w)))

without_bit-zero :
    (w x : ℕ)
    → x < 2 ^ suc w
    → (without_bit (suc w) x 0 / 2 ≡ x / 2) × (without_bit (suc w) x 0 % 2 ≡ 0)
without_bit-zero w x h =
    let e : (2 ^ suc w - 1 - 2 ^ 0) / 2 ≡ 2 ^ w - 1 = omega (arith, pow-suc 2 w) in
    let even : (2 ^ suc w - 1 - 2 ^ 0) % 2 ≡ 0 = omega (arith, pow-suc 2 w) in
    let step = rw e at (bit_and-halves x (2 ^ suc w - 1 - 2 ^ 0)) in
    let rest = full-bit_and w (x / 2) (omega (arith, pow-suc 2 w)) in
    (omega (arith, step, even, rest), omega (arith, step, even, rest))

pub test_bit-without_bit :
    (w p q x : ℕ)
    → p < w
    → x < 2 ^ w
    → test_bit q (without_bit w x p) ≡ (if p == q then false else test_bit q x)
unfolding test_bit
test_bit-without_bit zero p q x h k = absurd (omega arith)
test_bit-without_bit (suc w) zero zero x h k = ground (arith, without_bit-zero w x k)
test_bit-without_bit (suc w) zero (suc q) x h k = rw (without_bit-zero w x k).0 (ground arith)
test_bit-without_bit (suc w) (suc p) zero x h k =
    ground (arith, without_bit-suc w p x (omega arith))
test_bit-without_bit (suc w) (suc p) (suc q) x h k =
    rw (without_bit-suc w p x (omega arith)).0 (
      ground (arith, test_bit-without_bit w p q (x / 2) (omega arith) (omega (arith, pow-suc 2 w))))

pub bit_or-pow_lt : (w p x : ℕ) → p < w → x < 2 ^ w → bit_or x (2 ^ p) < 2 ^ w
bit_or-pow_lt zero p x h k = absurd (omega arith)
bit_or-pow_lt (suc w) zero x h k = omega (arith, bit_or-one x, pow-suc 2 w)
bit_or-pow_lt (suc w) (suc p) x h k = omega (
  arith,
  bit_or-pow_suc p x,
  pow-suc 2 w,
  bit_or-pow_lt w p (x / 2) (omega arith) (omega (arith, pow-suc 2 w)),
)

pub test_bit-zero : (q : ℕ) → test_bit q 0 ≡ false
unfolding test_bit
test_bit-zero zero = refl
test_bit-zero (suc q) = ground (arith, test_bit-zero q)

-- A word without a set bit is zero.
pub zero_of_bits : (w x : ℕ) → x < 2 ^ w → ((q : ℕ) → q < w → test_bit q x ≡ false) → x ≡ 0
unfolding test_bit
zero_of_bits zero x h clear = omega arith
zero_of_bits (suc w) x h clear =
    let even : x % 2 ≡ 0 = ground (arith, clear 0 (omega arith)) in
    omega (
      arith,
      even,
      zero_of_bits w (x / 2) (omega (arith, pow-suc 2 w)) (λ q k. clear (suc q) (omega arith)),
    )

-- No bit of the lowest `w` is set, or the highest of those that are is at `w - 1 - leading_zeros`.
pub leading_zeros_cases :
    (w x : ℕ)
    → ((q : ℕ) → q < w → test_bit q x ≡ false)
      ⊎ ((p : ℕ) × (p < w)
          × (w - 1 - leading_zeros w x ≡ p)
          × (test_bit p x ≡ true)
          × ((q : ℕ) → p < q → q < w → test_bit q x ≡ false))
unfolding leading_zeros
leading_zeros_cases zero x = inl (λ q h. absurd (omega arith))
leading_zeros_cases (suc w) x = elim (Bool-cases (test_bit w x)) [
  | inl top ↦ inr (w, omega arith, ground arith, top, λ q h k. absurd (omega arith))
  | inr clear ↦ elim (leading_zeros_cases w x) [
    | inl none_set ↦
        inl (λ q h. elim (eq_or_lt q w h) [ inl e ↦ rw e clear | inr below ↦ none_set q below ])
    | inr (p, h, at, set, above) ↦ inr (
      p,
      omega arith,
      ground arith,
      set,
      λ q k l. elim (eq_or_lt q w l) [ inl e ↦ rw e clear | inr below ↦ above q k below ],
    )
  ]
]
  where
    eq_or_lt : (q n : ℕ) → q < suc n → (q ≡ n) ⊎ (q < n)
    eq_or_lt q n h = ground arith
