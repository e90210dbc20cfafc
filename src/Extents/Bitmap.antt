-- ===== src/Extents/Bitmap.antt =====
-- crates/gax_storage_engine/src/extent_allocator.rs: the blocks that are marked.
use gaxera.Prelude.{
  ℕ, zero, suc, ◌+◌, ◌-◌, ◌*◌, ◌/◌, ◌%◌, ◌^◌, ◌≤◌, ◌<◌, ◌≡◌, ◌⊎◌, ◌&&◌, inl, inr, refl, sym, ap,
  subst, ◌∙◌, Bool, true, false, none, some, List, [], ◌∷◌, length, length-set, set, replicate,
  length-replicate, bit_or, ltb, leb, ◌==◌, if◌then◌else◌, All, All-set, arith, Bool-cases,
}
use gaxera.Prelude.Masks.{
  test_bit, bit_and-test_bit, test_bit-bit_or, test_bit-without_bit, bit_or-pow_lt, without_bit,
}
use gaxera.Prelude.Bits.{bit_and-le_left}
use gaxera.Extents.{
  ExtentAllocator, new_allocator, word_at, is_block_allocated, set_block_allocated, first_allocated,
  mark, unmark,
}

-- A bitmap of 64-bit words for all blocks.
pub record IsSized (a : ExtentAllocator) : Type 0 where
  pub covers : a.total_blocks ≤ 64 * length a.free_bitmap
  pub words : All (λ w. w < 2 ^ 64) a.free_bitmap
  pub small : a.total_blocks < 2 ^ 62
  pub aligned : a.erase_block_align < 2 ^ 32

pub is_block_allocated_lem :
    (a : ExtentAllocator) (b : ℕ)
    → is_block_allocated a b ≡ test_bit (b % 64) (word_at a.free_bitmap (b / 64))
unfolding is_block_allocated
is_block_allocated_lem a b =
    ground (arith, bit_and-test_bit (b % 64) (word_at a.free_bitmap (b / 64)))

word_at-set :
    (ws : List ℕ) (i j w : ℕ)
    → i < length ws
    → word_at (set ws i w) j ≡ (if i == j then w else word_at ws j)
word_at-set [] i j w h = absurd (omega arith)
word_at-set (x ∷ ws) zero zero w h = ground arith
word_at-set (x ∷ ws) zero (suc j) w h = ground arith
word_at-set (x ∷ ws) (suc i) zero w h = ground arith
word_at-set (x ∷ ws) (suc i) (suc j) w h = ground (arith, word_at-set ws i j w (omega arith))

word_at-Fits : (ws : List ℕ) (i : ℕ) → All (λ w. w < 2 ^ 64) ws → word_at ws i < 2 ^ 64
word_at-Fits [] i h = omega arith
word_at-Fits (w ∷ ws) zero h = h.0
word_at-Fits (w ∷ ws) (suc i) h = word_at-Fits ws i h.1

pub set_block-IsSized :
    (a : ExtentAllocator) (b : ℕ) (value : Bool)
    → IsSized a
    → IsSized (set_block_allocated a b value)
unfolding set_block_allocated
set_block-IsSized a b true v =
    let fits = word_at-Fits a.free_bitmap (b / 64) v.words in
    record {
      covers = omega (
        arith,
        v.covers,
        length-set a.free_bitmap (b / 64) (bit_or (word_at a.free_bitmap (b / 64)) (2 ^ (b % 64))),
      );
      words =
          All-set (λ w. w < 2 ^ 64) a.free_bitmap (b / 64)
            (bit_or (word_at a.free_bitmap (b / 64)) (2 ^ (b % 64)))
            (bit_or-pow_lt 64 (b % 64) (word_at a.free_bitmap (b / 64)) (omega arith) fits) v.words;
      small = v.small;
      aligned = v.aligned;
    }
set_block-IsSized a b false v =
    let fits = word_at-Fits a.free_bitmap (b / 64) v.words in
    let cut = without_bit 64 (word_at a.free_bitmap (b / 64)) (b % 64) in
    record {
      covers = omega (arith, v.covers, length-set a.free_bitmap (b / 64) cut);
      words =
          All-set (λ w. w < 2 ^ 64) a.free_bitmap (b / 64) cut
            (omega (
              arith,
              fits,
              bit_and-le_left 64 (word_at a.free_bitmap (b / 64)) (2 ^ 64 - 1 - 2 ^ (b % 64)) fits,
            ))
            v.words;
      small = v.small;
      aligned = v.aligned;
    }

-- A write to one block changes that block only.
pub is_block_allocated-set_block :
    (a : ExtentAllocator) (b c : ℕ) (value : Bool)
    → IsSized a
    → b < a.total_blocks
    → is_block_allocated (set_block_allocated a b value) c
      ≡ (if b == c then value else is_block_allocated a c)
unfolding set_block_allocated
is_block_allocated-set_block a b c true v h =
    let word = word_at a.free_bitmap (b / 64) in
    let put =
      word_at-set a.free_bitmap (b / 64) (c / 64) (bit_or word (2 ^ (b % 64)))
        (omega (arith, v.covers)) in
    is_block_allocated_lem (set_block_allocated a b true) c
    ∙ ap (test_bit (c % 64)) put
    ∙ ground (arith, test_bit-bit_or (b % 64) (c % 64) word, is_block_allocated_lem a c)
is_block_allocated-set_block a b c false v h =
    let word = word_at a.free_bitmap (b / 64) in
    let put =
      word_at-set a.free_bitmap (b / 64) (c / 64) (without_bit 64 word (b % 64))
        (omega (arith, v.covers)) in
    is_block_allocated_lem (set_block_allocated a b false) c
    ∙ ap (test_bit (c % 64)) put
    ∙ ground (
      arith,
      is_block_allocated_lem a c,
      test_bit-without_bit 64 (b % 64) (c % 64) word (omega arith)
          (word_at-Fits a.free_bitmap (b / 64) v.words),
    )

abbrev pub SameLayout : ExtentAllocator → ExtentAllocator → Type 0
SameLayout a a' = (a'.total_blocks ≡ a.total_blocks) × (a'.erase_block_align ≡ a.erase_block_align)

set_block-SameLayout :
    (a : ExtentAllocator) (b : ℕ) (value : Bool) → SameLayout a (set_block_allocated a b value)
unfolding set_block_allocated
set_block-SameLayout a b true = (refl, refl)
set_block-SameLayout a b false = (refl, refl)

pub mark_cases :
    (a : ExtentAllocator) (b n : ℕ)
    → IsSized a
    → b + n ≤ a.total_blocks
    → IsSized (mark a b n)
      × SameLayout a (mark a b n)
      × ((c : ℕ)
          → is_block_allocated (mark a b n) c
            ≡ (if leb b c && ltb c (b + n) then true else is_block_allocated a c))
unfolding mark
mark_cases a b zero v h = (v, (refl, refl), λ c. ground arith)
mark_cases a b (suc n) v h =
    let a' = set_block_allocated a b true in
    let (same, align) = set_block-SameLayout a b true in
    let (valid, (total, align'), marked) =
      mark_cases a' (b + 1) n (set_block-IsSized a b true v) (omega (arith, same)) in
    (
      valid,
      (total ∙ same, align' ∙ align),
      λ c. ground (arith, marked c, is_block_allocated-set_block a b c true v (omega arith)),
    )

-- What freeing `n` blocks from `b` on leaves.
unfoldable pub Cleared : ExtentAllocator → ℕ → ℕ → ExtentAllocator → Type 0
Cleared a b n a' =
    IsSized a'
    × SameLayout a a'
    × ((c : ℕ)
        → is_block_allocated a' c ≡ (
            if leb b c && ltb c (b + n) && ltb c a.total_blocks
            then false
            else is_block_allocated a c))

pub unmark_cases : (a : ExtentAllocator) (b n : ℕ) → IsSized a → Cleared a b n (unmark a b n)
unfolding unmark Cleared
unmark_cases a b zero v = (v, (refl, refl), λ c. ground arith)
unmark_cases a b (suc n) v =
    let next : ExtentAllocator =
      if ltb b a.total_blocks then set_block_allocated a b false else a in
    elim (Bool-cases (ltb b a.total_blocks)) [
      | inl inside ↦
          let a' = set_block_allocated a b false in
          let (same, align) = set_block-SameLayout a b false in
          let e : next ≡ a' =
            ap (λ (t : Bool). if t then set_block_allocated a b false else a) inside in
          let (valid, (total, align'), cleared) =
            unmark_cases a' (b + 1) n (set_block-IsSized a b false v) in
          subst (λ (x : ExtentAllocator). Cleared a b (suc n) (unmark x (b + 1) n)) (sym e)
            (
              valid,
              (total ∙ same, align' ∙ align),
              λ c. ground (
                arith,
                cleared c,
                same,
                is_block_allocated-set_block a b c false v (ground arith),
              ),
            )
      | inr outside ↦
          let e : next ≡ a =
            ap (λ (t : Bool). if t then set_block_allocated a b false else a) outside in
          let (valid, layout, cleared) = unmark_cases a (b + 1) n v in
          subst (λ (x : ExtentAllocator). Cleared a b (suc n) (unmark x (b + 1) n)) (sym e)
            (valid, layout, λ c. ground (arith, cleared c))
    ]

pub first_allocated_cases :
    (a : ExtentAllocator) (b n : ℕ)
    → ((first_allocated a b n ≡ none)
        × ((c : ℕ) → b ≤ c → c < b + n → is_block_allocated a c ≡ false))
      ⊎ ((d : ℕ) × (first_allocated a b n ≡ some d)
          × (b ≤ d)
          × (d < b + n)
          × (is_block_allocated a d ≡ true))
unfolding first_allocated
first_allocated_cases a b zero = inl (refl, λ c l h. absurd (omega arith))
first_allocated_cases a b (suc n) = elim (Bool-cases (is_block_allocated a b)) [
  | inl here ↦ inr (b, ground arith, omega arith, omega arith, here)
  | inr not_here ↦ elim (first_allocated_cases a (b + 1) n) [
    | inl (e, free) ↦ inl (
      ground (arith, e),
      λ c l h. elim (Bool-cases (b == c)) [
        | inl same ↦ ap (is_block_allocated a) (sym (ground arith)) ∙ not_here
        | inr other ↦ free c (ground arith) (omega arith)
      ],
    )
    | inr (d, e, low, high, taken) ↦ inr (d, ground (arith, e), omega arith, omega arith, taken)
  ]
]

pub new_allocator-IsSized :
    (total_blocks erase_block_align : ℕ)
    → total_blocks < 2 ^ 62
    → erase_block_align < 2 ^ 32
    → IsSized (new_allocator total_blocks erase_block_align)
unfolding new_allocator
new_allocator-IsSized total_blocks erase_block_align small aligned = record {
  covers = omega (arith, length-replicate {A = ℕ} ((total_blocks + 63) / 64) 0);
  words = zeros ((total_blocks + 63) / 64);
  small = small;
  aligned = aligned;
}
  where
    zeros : (n : ℕ) → All (λ w. w < 2 ^ 64) (replicate n 0)
    zeros zero = tt
    zeros (suc n) = (omega arith, zeros n)
