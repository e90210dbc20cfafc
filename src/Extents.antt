-- ===== src/Extents.antt =====
-- crates/gax_storage_engine/src/extent_allocator.rs: `ExtentAllocator`, a bitmap of blocks in words of
-- 64 bits. A `usize` has 64 bits.
pub mod Bitmap
pub mod Search
pub mod Allocation
use gaxera.Prelude.{
  ℕ, zero, suc, ◌+◌, ◌-◌, ◌*◌, ◌/◌, ◌%◌, ◌^◌, Bool, true, false, not, Option, none, some, List, [],
  ◌∷◌, get_elem?, set, replicate, max, bit_and, bit_or, ltb, leb, ◌==◌, u64_mod, if◌then◌else◌,
  Result, ok, err,
}
use gaxera.Prelude.Masks.{without_bit}

-- gaxfs_types/src/providers.rs; the message is the list of its bytes.
pub data StorageError : Type 0 where
  io_error : List ℕ → StorageError
  out_of_bounds : (requested max : ℕ) → StorageError
  checksum_mismatch device_not_ready : StorageError

pub record ExtentDescriptor : Type 0 where
  pub start_block : ℕ
  pub num_blocks : ℕ

pub record ExtentAllocator : Type 0 where
  pub total_blocks : ℕ
  pub erase_block_align : ℕ
  pub free_bitmap : List ℕ

-- `div_ceil(64)` words of free blocks.
unfoldable pub new_allocator : ℕ → ℕ → ExtentAllocator
new_allocator total_blocks erase_block_align = record {
  total_blocks = total_blocks;
  erase_block_align = erase_block_align;
  free_bitmap = replicate ((total_blocks + 63) / 64) 0;
}

-- `self.free_bitmap[i]`; an index past the end panics, and the theorems are about bitmaps that cover all
-- blocks.
abbrev pub word_at : List ℕ → ℕ → ℕ
word_at [] i = 0
word_at (w ∷ ws) zero = w
word_at (w ∷ ws) (suc i) = word_at ws i

unfoldable pub is_block_allocated : ExtentAllocator → ℕ → Bool
is_block_allocated a block =
    not (bit_and (word_at a.free_bitmap (block / 64)) (2 ^ (block % 64)) == 0)

unfoldable pub set_block_allocated : ExtentAllocator → ℕ → Bool → ExtentAllocator
set_block_allocated a block allocated =
    let word_idx = block / 64 in
    let word = word_at a.free_bitmap word_idx in
    if allocated
    then record a { free_bitmap = set a.free_bitmap word_idx (bit_or word (2 ^ (block % 64))) }
    else record a { free_bitmap = set a.free_bitmap word_idx (without_bit 64 word (block % 64)) }

-- The loop over `n` blocks from `b` on that looks for one that is allocated.
unfoldable pub first_allocated : ExtentAllocator → ℕ → ℕ → Option ℕ
unfolding is_block_allocated
first_allocated a b zero = none
first_allocated a b (suc n) =
    let rest = first_allocated a (b + 1) n in if is_block_allocated a b then some b else rest

-- The loop that marks `n` blocks from `b` on.
unfoldable pub mark : ExtentAllocator → ℕ → ℕ → ExtentAllocator
unfolding set_block_allocated
mark a b zero = a
mark a b (suc n) = mark (set_block_allocated a b true) (b + 1) n

abbrev pub Allocated : Type 0
Allocated = Result ExtentDescriptor StorageError × ExtentAllocator

abbrev pub align_of : ExtentAllocator → ℕ
align_of a = max a.erase_block_align 1

-- The `while` loop, on fuel for its turns; `none` when that runs out.
unfoldable pub allocate_loop : ℕ → ExtentAllocator → ℕ → ℕ → Option Allocated
unfolding first_allocated mark
allocate_loop zero a requested curr_block = none
allocate_loop (suc fuel) a requested curr_block =
    let next = ((curr_block / align_of a + 1) * align_of a) % u64_mod in
    if leb ((curr_block + requested) % u64_mod) a.total_blocks
    then elim (curr_block % align_of a == 0) [
      | false ↦ allocate_loop fuel a requested next
      | true ↦ elim (first_allocated a curr_block requested) [
        | some b ↦ allocate_loop fuel a requested (b + 1)
        | none ↦ some (
          ok (record { start_block = curr_block; num_blocks = requested }),
          mark a curr_block requested,
        )
      ]
    ]
    else some (err (out_of_bounds requested a.total_blocks), a)

unfoldable pub allocate_extent : ExtentAllocator → ℕ → Option Allocated
unfolding allocate_loop
allocate_extent a requested_blocks =
    if requested_blocks == 0
    then some (err (out_of_bounds 0 a.total_blocks), a)
    else allocate_loop (a.total_blocks + 2) a requested_blocks 0

-- The loop that frees `n` blocks from `b` on.
unfoldable pub unmark : ExtentAllocator → ℕ → ℕ → ExtentAllocator
unfolding set_block_allocated
unmark a b zero = a
unmark a b (suc n) =
    unmark (if ltb b a.total_blocks then set_block_allocated a b false else a) (b + 1) n

unfoldable pub free_extent : ExtentAllocator → ExtentDescriptor → ExtentAllocator
unfolding unmark
free_extent a extent =
    unmark a extent.start_block
      ((extent.start_block + extent.num_blocks) % u64_mod - extent.start_block)
