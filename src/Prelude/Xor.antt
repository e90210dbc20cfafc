-- ===== src/Prelude/Xor.antt =====
-- `^` on words: what it does to a shifted word, and that it can be taken back.
use Prim.Native.Nat.{ℕ, zero, suc, ◌+◌, ◌*◌, ◌/◌, ◌%◌, ◌^◌, ◌<◌, bit_xor, bit_xor-bitwise, differ}
use mathlib.Core.Path.{◌≡◌, refl, ◌∙◌}
use native.Mathlib.Nat.{pow-suc}
use native.Mathlib.Omega.{arith}
use gaxera.Prelude.Bits.{digits_enough}

bit_xor-halves : (a b : ℕ) → bit_xor a b ≡ bit_xor (a / 2) (b / 2) * 2 + differ (a % 2) (b % 2)
bit_xor-halves zero b = omega (arith, bit_xor-bitwise 0 b, bit_xor-bitwise 0 (b / 2))
bit_xor-halves (suc a) b = omega (
  arith,
  bit_xor-bitwise (suc a) b,
  bit_xor-bitwise (suc a / 2) (b / 2),
  digits_enough (λ c. c) differ a (suc a / 2) (suc a / 2) (b / 2) (omega arith) (omega arith),
)

differ_zero : (a : ℕ) → a < 2 → differ a 0 ≡ a
differ_zero zero h = refl
differ_zero (suc zero) h = refl
differ_zero (suc (suc a)) h = absurd (omega arith)

differ_lt : (a b : ℕ) → a < 2 → b < 2 → differ a b < 2
differ_lt zero zero h k = omega arith
differ_lt zero (suc zero) h k = omega arith
differ_lt (suc zero) zero h k = omega arith
differ_lt (suc zero) (suc zero) h k = omega arith
differ_lt (suc (suc a)) b h k = absurd (omega arith)
differ_lt a (suc (suc b)) h k = absurd (omega arith)

differ_cancel : (a b c : ℕ) → a < 2 → b < 2 → c < 2 → differ a b ≡ differ a c → b ≡ c
differ_cancel zero zero zero h k l e = refl
differ_cancel zero zero (suc zero) h k l e = absurd (omega (arith, e))
differ_cancel zero (suc zero) zero h k l e = absurd (omega (arith, e))
differ_cancel zero (suc zero) (suc zero) h k l e = refl
differ_cancel (suc zero) zero zero h k l e = refl
differ_cancel (suc zero) zero (suc zero) h k l e = absurd (omega (arith, e))
differ_cancel (suc zero) (suc zero) zero h k l e = absurd (omega (arith, e))
differ_cancel (suc zero) (suc zero) (suc zero) h k l e = refl
differ_cancel (suc (suc a)) b c h k l e = absurd (omega arith)
differ_cancel a (suc (suc b)) c h k l e = absurd (omega arith)
differ_cancel a b (suc (suc c)) h k l e = absurd (omega arith)

shift_suc : (x w : ℕ) → x * 2 ^ suc w ≡ x * 2 ^ w * 2
shift_suc x w = grind (arith, pow-suc 2 w)

-- A word whose lower `w` bits are zero leaves the other's lower bits as they are.
pub bit_xor-shifted :
    (w g i s : ℕ) → i < 2 ^ w → bit_xor (g * 2 ^ w + i) (s * 2 ^ w) ≡ bit_xor g s * 2 ^ w + i
bit_xor-shifted zero g i s h =
    let e : i ≡ 0 = omega arith in
    let e1 : g * 2 ^ 0 + i ≡ g = omega arith in
    let e2 : s * 2 ^ 0 ≡ s = omega arith in rw (e1, e2) (omega arith)
bit_xor-shifted (suc w) g i s h =
    let half : (g * 2 ^ suc w + i) / 2 ≡ g * 2 ^ w + i / 2 =
      omega (arith, shift_suc g w, shift_suc s w) in
    let low : (g * 2 ^ suc w + i) % 2 ≡ i % 2 = omega (arith, shift_suc g w, shift_suc s w) in
    let half_s : s * 2 ^ suc w / 2 ≡ s * 2 ^ w = omega (arith, shift_suc g w, shift_suc s w) in
    let low_s : s * 2 ^ suc w % 2 ≡ 0 = omega (arith, shift_suc g w, shift_suc s w) in
    bit_xor-halves (g * 2 ^ suc w + i) (s * 2 ^ suc w)
    ∙ rw (half, low, half_s, low_s)
        (omega (
          arith,
          pow-suc 2 w,
          shift_suc (bit_xor g s) w,
          differ_zero (i % 2) (omega arith),
          bit_xor-shifted w g (i / 2) s (omega (arith, pow-suc 2 w)),
        ))

-- `^` with one word can be taken back.
pub bit_xor_cancel : (w g a b : ℕ) → a < 2 ^ w → b < 2 ^ w → bit_xor g a ≡ bit_xor g b → a ≡ b
bit_xor_cancel zero g a b p q e = omega arith
bit_xor_cancel (suc w) g a b p q e =
    let x = differ_lt (g % 2) (a % 2) (omega arith) (omega arith) in
    let y = differ_lt (g % 2) (b % 2) (omega arith) (omega arith) in
    let d : differ (g % 2) (a % 2) ≡ differ (g % 2) (b % 2) =
      omega (arith, bit_xor-halves g a, bit_xor-halves g b) in
    let r : bit_xor (g / 2) (a / 2) ≡ bit_xor (g / 2) (b / 2) =
      omega (arith, bit_xor-halves g a, bit_xor-halves g b) in
    omega (
      arith,
      differ_cancel (g % 2) (a % 2) (b % 2) (omega arith) (omega arith) (omega arith) d,
      bit_xor_cancel w (g / 2) (a / 2) (b / 2) (omega (arith, pow-suc 2 w))
          (omega (arith, pow-suc 2 w)) r,
    )
