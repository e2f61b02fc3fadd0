-- ===== src/FrameAllocator.antt =====
-- include/afxdp/frame_alloc.hpp: `FrameAllocator<CAPACITY>`, a stack of frame offsets in an array.
-- `frames` is the array by index. The asserts are no branches here: `FrameAllocator.Stack` and
-- the engine's invariant show where they hold.
pub mod Stack
use af_xdp_reimpl.Prelude.{
  ℕ, zero, suc, ◌+◌, ◌*◌, ◌%◌, ◌^◌, Option, none, some, add32, sub32, store, ◌==◌, if◌then◌else◌,
}

pub record FrameAllocator : Type 0 where
  pub capacity : ℕ
  pub frames : ℕ → ℕ
  pub count : ℕ

-- The constructor's loop, with `n` rounds left at index `i`.
unfoldable pub fill_frames : ℕ → ℕ → ℕ → (ℕ → ℕ) → ℕ → ℕ
fill_frames zero i frame_size frames = frames
fill_frames (suc n) i frame_size frames =
    fill_frames n (i + 1) frame_size (store frames i (i * frame_size % 2 ^ 64))

unfoldable pub init : ℕ → ℕ → ℕ → FrameAllocator
unfolding fill_frames
init capacity num_frames frame_size = record {
  capacity = capacity;
  frames = fill_frames num_frames 0 frame_size (λ _. 0);
  count = num_frames;
}

unfoldable pub alloc : FrameAllocator → Option ℕ × FrameAllocator
alloc a =
    let top = sub32 a.count 1 in
    if a.count == 0 then (none, a) else (some (a.frames top), record a { count = top })

unfoldable pub free : FrameAllocator → ℕ → FrameAllocator
free a offset = record a { frames = store a.frames a.count offset; count = add32 a.count 1 }

abbrev pub free_count : FrameAllocator → ℕ
free_count a = a.count
