-- ===== src/Extents/Allocation.antt =====
-- crates/gax_storage_engine/src/extent_allocator.rs: which extent is given out, and when none is.
use gaxera.Prelude.{
  ℕ, ◌+◌, ◌-◌, ◌%◌, ◌^◌, ◌<◌, ◌≡◌, ◌&&◌, inl, inr, sym, ap, subst, ◌∙◌, false, some, ltb, leb,
  if◌then◌else◌, u64_mod, ok, arith, Bool-cases,
}
use gaxera.Extents.{
  ExtentAllocator, ExtentDescriptor, is_block_allocated, allocate_loop, allocate_extent,
  free_extent,
}
use gaxera.Extents.Bitmap.{IsSized, Cleared, unmark_cases}
use gaxera.Extents.Search.{NoneBefore, Granted, Outcome, allocate_loop_cases}

-- With fewer than 2^62 blocks and an alignment and a request below 2^32, the search ends, and a
-- request for `n` blocks, not 0, has one of two outcomes. It is granted an extent of `n` blocks within the
-- device, at the first multiple of the alignment where all of them were free, and these blocks
-- and no others are newly marked. Or it is refused, nothing changes, and at every
-- multiple of the alignment where `n` blocks would fit one of them is allocated.
pub allocate_extent_cases :
    (a : ExtentAllocator) (n : ℕ)
    → IsSized a
    → 0 < n
    → n < 2 ^ 32
    → Outcome a n (allocate_extent a n)
unfolding allocate_extent NoneBefore
allocate_extent_cases a n v some_blocks few =
    let e : allocate_extent a n ≡ allocate_loop (a.total_blocks + 2) a n 0 = ground arith in
    subst (Outcome a n) (sym e) (
      allocate_loop_cases (a.total_blocks + 2) a n 0 v some_blocks few (omega arith) (omega arith)
        (omega arith) (λ s exact low. absurd (omega (arith, low))))

-- Under the same bounds, freeing an extent that has been granted marks the same blocks as before the
-- request, and keeps the bitmap well-formed.
pub free-allocate :
    (a a' : ExtentAllocator) (n : ℕ) (extent : ExtentDescriptor)
    → IsSized a
    → 0 < n
    → n < 2 ^ 32
    → allocate_extent a n ≡ some (ok extent, a')
    → IsSized (free_extent a' extent)
      × ((b : ℕ) → is_block_allocated (free_extent a' extent) b ≡ is_block_allocated a b)
unfolding free_extent Outcome Cleared
free-allocate a a' n extent v some_blocks few h =
    elim (allocate_extent_cases a n v some_blocks few) [
      | inr (refused, none_free) ↦ absurd (cc (h, refused))
      | inl (extent', a'', granted, g) ↦
          let same_extent : extent' ≡ extent = ground (arith, h, granted) in
          let same_state : a'' ≡ a' = ground (arith, h, granted) in
          let g' : Granted a n extent a' =
            subst (λ (p : ExtentDescriptor × ExtentAllocator). Granted a n p.0 p.1)
              (ap (λ (x : ExtentDescriptor). (x, a'')) same_extent
                ∙ ap (λ (x : ExtentAllocator). (extent, x)) same_state)
              g in
          let count = (extent.start_block + extent.num_blocks) % u64_mod - extent.start_block in
          let e : count ≡ n = omega (arith, g'.whole, g'.within, v.small) in
          let (sized, layout, cleared) = unmark_cases a' extent.start_block count g'.sized in
          (sized, λ b. cleared b ∙ restored b e g')
    ]
  where
    restored :
        (b : ℕ) {count : ℕ}
        → count ≡ n
        → Granted a n extent a'
        → (if leb extent.start_block b
              && ltb b (extent.start_block + count)
              && ltb b a'.total_blocks
            then false
            else is_block_allocated a' b)
          ≡ is_block_allocated a b
    restored b {count} e g =
        elim (Bool-cases (leb extent.start_block b && ltb b (extent.start_block + n))) [
          | inl inside ↦
              ground
                (arith, e, g.marked b, g.free b (ground arith) (ground arith), g.layout, g.within)
          | inr outside ↦ ground (arith, e, g.marked b)
        ]
