-- ===== src/Memory/Ranges.antt =====
-- crates/kernel-core/src/memory.rs: the part of a memory object's frames that a range covers.
use gaxera.Prelude.{
  ℕ, ◌+◌, ◌/◌, ◌%◌, ◌≤◌, ◌<◌, ◌≡◌, ◌↔◌, List, length, take, get_elem?, u64_mod, ok, is_error, false,
  arith,
}
use gaxera.Prelude.Slices.{drop, length-take-drop, get_elem?-take-drop}
use gaxera.Memory.{MemoryObject, frames_subrange}

-- Of an object below 2^64 bytes: a range has frames exactly when its start and size are multiples of
-- 4096 and it ends within the object and its frames. These are then as many frames as the range has
-- pages, the frames of the object from the page of the start on.
pub frames_subrange_cases :
    (m : MemoryObject) (offset size : ℕ)
    → m.size_bytes < u64_mod
    → ((is_error (frames_subrange m offset size) ≡ false) ↔ (
        (offset % 4096 ≡ 0)
        × (size % 4096 ≡ 0)
        × (offset + size ≤ m.size_bytes)
        × (offset / 4096 + size / 4096 ≤ length m.frames)))
      × ((frames : List ℕ)
          → frames_subrange m offset size ≡ ok frames
          → (length frames ≡ size / 4096)
            × ((i : ℕ)
                → i < size / 4096
                → get_elem? frames i ≡ get_elem? m.frames (offset / 4096 + i)))
unfolding frames_subrange
frames_subrange_cases m offset size small = (
  (ground arith, ground arith),
  (λ frames h.
      let fits : offset / 4096 + size / 4096 ≤ length m.frames = ground arith in
      let e : frames ≡ take (size / 4096) (drop (offset / 4096) m.frames) = ground arith in
      (
        rw e (length-take-drop (offset / 4096) (size / 4096) m.frames fits),
        λ i k. rw e (get_elem?-take-drop (offset / 4096) (size / 4096) i m.frames k),
      )),
)
