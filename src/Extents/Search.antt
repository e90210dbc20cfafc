-- ===== src/Extents/Search.antt =====
-- crates/gax_storage_engine/src/extent_allocator.rs: the search for an extent, with its loop.
use native.Mathlib.Nat.{mul-le-mul_right, div-add-mod', suc-mul}
use gaxera.Prelude.{
  ℕ, zero, suc, ◌+◌, ◌*◌, ◌/◌, ◌%◌, ◌^◌, ◌≤◌, ◌<◌, ◌≡◌, ◌≢◌, ◌⊎◌, ◌&&◌, inl, inr, refl, sym, subst,
  true, false, Option, none, some, ltb, leb, ◌==◌, if◌then◌else◌, u64_mod, ok, err, arith,
  Bool-cases,
}
use gaxera.Extents.{
  ExtentAllocator, ExtentDescriptor, out_of_bounds, Allocated, align_of, is_block_allocated,
  first_allocated, mark, allocate_loop,
}
use gaxera.Extents.Bitmap.{IsSized, SameLayout, mark_cases, first_allocated_cases}

-- No multiple of `c` lies between a number that is none and the next one.
next_multiple : (c curr s : ℕ) → s % c ≡ 0 → curr % c ≢ 0 → curr ≤ s → (curr / c + 1) * c ≤ s
next_multiple c curr s exact odd low =
    let q = s / c in
    let p = curr / c in
    let whole = div-add-mod' s c in
    let part = div-add-mod' curr c in
    elim (Bool-cases (leb q p)) [
      | inl at_most ↦
          let at_most' : q ≤ p = ground arith in
          absurd (omega (arith, whole, part, mul-le-mul_right c at_most'))
      | inr above ↦
          let above' : p + 1 ≤ q = ground arith in omega (arith, whole, mul-le-mul_right c above')
    ]

-- An allocated block in the range of `n` blocks from `s`.
unfoldable pub IsBlocked : ExtentAllocator → ℕ → ℕ → Type 0
IsBlocked a s n = (b : ℕ) × (s ≤ b) × (b < s + n) × (is_block_allocated a b ≡ true)

-- Every aligned place before `end` where `n` blocks would fit is blocked.
unfoldable pub NoneBefore : ExtentAllocator → ℕ → ℕ → Type 0
unfolding IsBlocked
NoneBefore a n end =
    (s : ℕ) → s % align_of a ≡ 0 → s < end → s + n ≤ a.total_blocks → IsBlocked a s n

pub record Granted (a : ExtentAllocator) (n : ℕ) (extent : ExtentDescriptor) (a' : ExtentAllocator)
    : Type 0 where
  pub whole : extent.num_blocks ≡ n
  pub aligned : extent.start_block % align_of a ≡ 0
  pub within : extent.start_block + n ≤ a.total_blocks
  pub free :
      (b : ℕ) → extent.start_block ≤ b → b < extent.start_block + n → is_block_allocated a b ≡ false
  pub marked :
      (b : ℕ)
      → is_block_allocated a' b ≡ (
          if leb extent.start_block b && ltb b (extent.start_block + n)
          then true
          else is_block_allocated a b)
  pub layout : SameLayout a a'
  pub sized : IsSized a'
  pub first : NoneBefore a n extent.start_block

unfoldable pub Outcome : ExtentAllocator → ℕ → Option Allocated → Type 0
Outcome a n r =
    ((extent : ExtentDescriptor) × (a' : ExtentAllocator) × (r ≡ some (ok extent, a'))
      × Granted a n extent a')
    ⊎ ((r ≡ some (err (out_of_bounds n a.total_blocks), a)) × NoneBefore a n (a.total_blocks + 1))

leb→le : (m n : ℕ) → leb m n ≡ true → m ≤ n
leb→le m n h = ground arith

align_bounds : (a : ExtentAllocator) → IsSized a → (0 < align_of a) × (align_of a < 2 ^ 32)
align_bounds a v = (omega arith, omega (arith, v.aligned))

next_bounds : (c curr : ℕ) → 0 < c → (curr < (curr / c + 1) * c) × ((curr / c + 1) * c ≤ curr + c)
next_bounds c curr positive =
    let part = div-add-mod' curr c in
    let step = suc-mul (curr / c) c in
    let e : (curr / c + 1) * c ≡ curr / c * c + c = omega (arith, step) in
    (omega (arith, part, e), omega (arith, part, e))

module _ (fuel : ℕ) (a : ExtentAllocator) (n curr : ℕ)
    (small : a.total_blocks + n + curr + 2 ^ 32 < u64_mod) where
  loop_ends :
      a.total_blocks < curr + n
      → allocate_loop (suc fuel) a n curr ≡ some (err (out_of_bounds n a.total_blocks), a)
  unfolding allocate_loop
  loop_ends past = let e : (curr + n) % u64_mod ≡ curr + n = omega arith in ground (arith, e)

  loop_jumps :
      (next : ℕ)
      → (curr / align_of a + 1) * align_of a ≡ next
      → next < u64_mod
      → curr + n ≤ a.total_blocks
      → curr % align_of a ≢ 0
      → allocate_loop (suc fuel) a n curr ≡ allocate_loop fuel a n next
  unfolding allocate_loop
  loop_jumps next at bound fits odd =
      let e : (curr + n) % u64_mod ≡ curr + n = omega arith in
      let f : ((curr / align_of a + 1) * align_of a) % u64_mod ≡ next = omega (arith, at) in
      ground (arith, e, f)

  loop_skips :
      (b : ℕ)
      → curr + n ≤ a.total_blocks
      → curr % align_of a ≡ 0
      → first_allocated a curr n ≡ some b
      → allocate_loop (suc fuel) a n curr ≡ allocate_loop fuel a n (b + 1)
  unfolding allocate_loop
  loop_skips b fits exact taken =
      let e : (curr + n) % u64_mod ≡ curr + n = omega arith in ground (arith, e)

  loop_grants :
      curr + n ≤ a.total_blocks
      → curr % align_of a ≡ 0
      → first_allocated a curr n ≡ none
      → allocate_loop (suc fuel) a n curr
        ≡ some (ok (record { start_block = curr; num_blocks = n }), mark a curr n)
  unfolding allocate_loop
  loop_grants fits exact free =
      let e : (curr + n) % u64_mod ≡ curr + n = omega arith in ground (arith, e)

pub allocate_loop_cases :
    (fuel : ℕ) (a : ExtentAllocator) (n curr : ℕ)
    → IsSized a
    → 0 < n
    → n < 2 ^ 32
    → curr ≤ a.total_blocks + 2 ^ 32
    → 1 ≤ fuel
    → a.total_blocks + 2 ≤ fuel + curr
    → NoneBefore a n curr
    → Outcome a n (allocate_loop fuel a n curr)
unfolding Outcome NoneBefore IsBlocked
allocate_loop_cases zero a n curr v some_blocks few near turns enough before =
    absurd (omega (arith, turns))
allocate_loop_cases (suc fuel) a n curr v some_blocks few near turns enough before =
    let small : a.total_blocks + n + curr + 2 ^ 32 < u64_mod = omega (arith, v.small) in
    let (positive, narrow) = align_bounds a v in
    let next = (curr / align_of a + 1) * align_of a in
    let (onward, close_by) = next_bounds (align_of a) curr positive in
    elim (Bool-cases (leb (curr + n) a.total_blocks)) [
      | inr past ↦ inr (
        loop_ends fuel a n curr small (ground arith),
        λ s exact low fits. before s exact (ground (arith, some_blocks)) fits,
      )
      | inl fits ↦ elim (Bool-cases (curr % align_of a == 0)) [
        | inr odd ↦
            let far : (s : ℕ) → s % align_of a ≡ 0 → s < next → s < curr = λ s exact low.
              elim (Bool-cases (ltb s curr)) [
                | inl less ↦ ground arith
                | inr not_less ↦ absurd (
                    omega (
                      arith,
                      next_multiple (align_of a) curr s exact (ground arith) (ground arith),
                    ))
              ] in
            subst (Outcome a n)
              (sym (
                loop_jumps fuel a n curr small next refl (omega (arith, close_by, narrow))
                  (ground arith) (ground arith)))
              (allocate_loop_cases fuel a n next v some_blocks few
                (omega (arith, close_by, narrow, leb→le (curr + n) a.total_blocks fits))
                (omega (arith, leb→le (curr + n) a.total_blocks fits)) (omega (arith, onward))
                (λ s exact low here. before s exact (far s exact low) here))
        | inl exact ↦ elim (first_allocated_cases a curr n) [
          | inl (none_taken, free) ↦
              let (sized, layout, marked) = mark_cases a curr n v (ground arith) in
              inl (
                record { start_block = curr; num_blocks = n },
                mark a curr n,
                loop_grants fuel a n curr small (ground arith) (ground arith) none_taken,
                record {
                  whole = refl;
                  aligned = ground arith;
                  within = ground arith;
                  free = free;
                  marked = marked;
                  layout = layout;
                  sized = sized;
                  first = before;
                },
              )
          | inr (d, at, low, high, taken) ↦
              subst (Outcome a n)
                (sym (loop_skips fuel a n curr small d (ground arith) (ground arith) at))
                (allocate_loop_cases fuel a n (d + 1) v some_blocks few
                  (omega (arith, leb→le (curr + n) a.total_blocks fits))
                  (omega (arith, leb→le (curr + n) a.total_blocks fits)) (omega arith)
                  (λ s exact' below here. elim (Bool-cases (ltb s curr)) [
                    | inl less ↦ before s exact' (ground arith) here
                    | inr not_less ↦ (d, omega arith, ground (arith, high), taken)
                  ]))
        ]
      ]
    ]
