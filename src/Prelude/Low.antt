-- ===== src/Prelude/Low.antt =====
-- Remainders: the low bits of a word, `x & (2^w - 1)`, and numbers that are close to each other.
use Prim.Native.Nat.{ℕ, zero, suc, ◌+◌, ◌-◌, ◌*◌, ◌/◌, ◌%◌, ◌^◌, ◌≤◌, ◌<◌, bit_and}
use mathlib.Core.Path.{◌≡◌, sym, ap, ◌∙◌}
use mathlib.Core.Logic.{◌≢◌, inl, inr}
use gaxera.Prelude.Tests.{ltb, Bool-cases}
use native.Mathlib.Nat.{
  add-mod, mod-eq-sub-mod, pow-suc, mod-eq_of_lt, mul-add-mod_self_right, div-add-mod', mul_assoc,
}
use native.Mathlib.Omega.{arith}
use gaxera.Prelude.Bits.{bit_and-halves}
use gaxera.Prelude.Masks.{bit_and-zero_right, positive}

halve_mod : (x m : ℕ) → 0 < m → x % (m * 2) ≡ (x / 2 % m) * 2 + x % 2
halve_mod x m h =
    let r = (x / 2 % m) * 2 + x % 2 in
    let small : r < m * 2 = omega arith in
    let whole : x / 2 / m * m + x / 2 % m ≡ x / 2 = div-add-mod' (x / 2) m in
    let parts : x / 2 / m * (m * 2) + r ≡ x = omega (arith, whole, mul_assoc (x / 2 / m) m 2) in
    ap (λ (y : ℕ). y % (m * 2)) (sym parts)
    ∙ mul-add-mod_self_right (x / 2 / m) (m * 2) r
    ∙ mod-eq_of_lt small

pub bit_and-low : (w x : ℕ) → bit_and x (2 ^ w - 1) ≡ x % 2 ^ w
bit_and-low zero x = omega (arith, bit_and-zero_right x)
bit_and-low (suc w) x =
    let half : (2 ^ suc w - 1) / 2 ≡ 2 ^ w - 1 = omega (arith, pow-suc 2 w, positive w) in
    let odd : (2 ^ suc w - 1) % 2 ≡ 1 = omega (arith, pow-suc 2 w, positive w) in
    let upper : bit_and (x / 2) ((2 ^ suc w - 1) / 2) ≡ x / 2 % 2 ^ w =
      rw half (bit_and-low w (x / 2)) in
    omega (arith, bit_and-halves x (2 ^ suc w - 1), upper, odd)
    ∙ sym (halve_mod x (2 ^ w) (positive w))
    ∙ ap (λ (y : ℕ). x % y) (sym (pow-suc 2 w))

halve_pow_mod : (w x : ℕ) → x % 2 ^ suc w ≡ (x / 2 % 2 ^ w) * 2 + x % 2
halve_pow_mod w x = ap (λ (m : ℕ). x % m) (pow-suc 2 w) ∙ halve_mod x (2 ^ w) (positive w)

-- A remainder by a power of two keeps the remainders by the lower ones.
pub pow_mod-mod : (k w x : ℕ) → k ≤ w → x % 2 ^ w % 2 ^ k ≡ x % 2 ^ k
pow_mod-mod zero w x h = omega arith
pow_mod-mod (suc k) zero x h = absurd (omega (arith, h))
pow_mod-mod (suc k) (suc w) x h =
    let y = x % 2 ^ suc w in
    let at = halve_pow_mod w x in
    let half : y / 2 ≡ x / 2 % 2 ^ w = omega (arith, at) in
    let low : y % 2 ≡ x % 2 = omega (arith, at) in
    let rest : y / 2 % 2 ^ k ≡ x / 2 % 2 ^ k =
      ap (λ (m : ℕ). m % 2 ^ k) half ∙ pow_mod-mod k w (x / 2) (omega arith) in
    halve_pow_mod k y ∙ omega (arith, rest, low) ∙ sym (halve_pow_mod k x)

-- Numbers less than `c` apart have different remainders.
pub mod_apart : (c k n : ℕ) → k < n → n < k + c → k % c ≢ n % c
mod_apart c k n low high = λ same. elim (Bool-cases (ltb (k % c + (n - k)) c)) [
  | inl under ↦
      let e : n % c ≡ k % c + (n - k) = split ∙ mod-eq_of_lt (ground arith) in
      omega (arith, same, e)
  | inr over ↦
      let e : n % c ≡ k % c + (n - k) - c =
        split ∙ mod-eq-sub-mod (ground arith) ∙ mod-eq_of_lt (omega arith) in
      let past : c ≤ k % c + (n - k) = ground arith in omega (arith, same, e, past)
]
  where
    split : n % c ≡ (k % c + (n - k)) % c
    split =
        let the_sum : n ≡ k + (n - k) = omega arith in
        ap (λ (m : ℕ). m % c) the_sum
        ∙ add-mod k (n - k) c
        ∙ ap (λ (m : ℕ). (k % c + m) % c) (mod-eq_of_lt (omega arith))
