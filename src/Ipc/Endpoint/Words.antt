-- ===== src/Ipc/Endpoint/Words.antt =====
-- crates/kernel-core/src/ipc.rs: the word of a reply token.
use gaxera.Prelude.{ℕ, ◌+◌, ◌*◌, ◌%◌, ◌^◌, ◌<◌, ◌≡◌, bit_xor, arith, u64_mod, ap, ◌∙◌, sym, refl}
use gaxera.Prelude.Bits.{bit_or-shifted}
use gaxera.Prelude.Xor.{bit_xor-shifted, bit_xor_cancel}
use gaxera.Abi.Ids.{ObjectId, raw}
use gaxera.Ipc.Endpoint.{make_reply_token}

-- The word of a token that carries the number `n`.
unfoldable pub word : ℕ → ObjectId → ℕ
word n c = bit_xor (raw c) (n * 2 ^ 32 % u64_mod)

pub make_reply_token-word :
    (n : ℕ) (c : ObjectId)
    → make_reply_token n c ≡ (record { raw = word ((n + 1) % u64_mod) c }, (n + 1) % u64_mod)
unfolding make_reply_token word
make_reply_token-word n c = refl

-- The index and the generation are words of 32 bits.
pub record IsWide (c : ObjectId) : Type 0 where
  pub index : c.index < 2 ^ 32
  pub generation : c.generation < 2 ^ 32

word-halves :
    (n : ℕ) (c : ObjectId)
    → IsWide c
    → word n c ≡ bit_xor c.generation (n % 2 ^ 32) * 2 ^ 32 + c.index
unfolding word raw
word-halves n c w =
    let e : n * 2 ^ 32 % u64_mod ≡ (n % 2 ^ 32) * 2 ^ 32 = omega arith in
    rw (e, bit_or-shifted 32 c.generation c.index w.index)
      (bit_xor-shifted 32 c.generation c.index (n % 2 ^ 32) w.index)

-- Two tokens of one identity have the same word only if their numbers agree in the lower half.
pub word-agrees :
    (n m : ℕ) (c d : ObjectId)
    → IsWide c
    → IsWide d
    → word n c ≡ word m d
    → (d.index ≡ c.index) × (d.generation ≡ c.generation → n % 2 ^ 32 ≡ m % 2 ^ 32)
word-agrees n m c d v w e =
    let same : bit_xor c.generation (n % 2 ^ 32) * 2 ^ 32 + c.index
        ≡ bit_xor d.generation (m % 2 ^ 32) * 2 ^ 32 + d.index =
      sym (word-halves n c v) ∙ e ∙ word-halves m d w in
    (
      omega (arith, v.index, w.index),
      (λ g.
          bit_xor_cancel 32 c.generation (n % 2 ^ 32) (m % 2 ^ 32) (omega arith) (omega arith)
            (omega (arith, v.index, w.index, ap (λ (x : ℕ). bit_xor x (m % 2 ^ 32)) g))),
    )
