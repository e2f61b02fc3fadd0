-- ===== src/Xsk.antt =====
-- include/afxdp/xsk.hpp: the state of an open `Xsk` socket, the refill of its fill ring, its
-- wakeup requests and its statistics. `errno` values are numbers; a system call is given by its
-- outcome, an argument.
pub mod Refill
pub mod Stats
use af_xdp_reimpl.Prelude.{
  ℕ, zero, suc, ◌+◌, ◌∷◌, Bool, true, false, ◌||◌, Option, none, some, add32, ltb, ◌==◌,
  if◌then◌else◌,
}
use af_xdp_reimpl.Ring.{
  MmapRing, set_desc_at, capacity, need_wakeup, writable_range, publish_written_entries,
}
use af_xdp_reimpl.FrameAllocator.{FrameAllocator, alloc}

-- `xdp_desc`
pub record Desc : Type 0 where
  pub addr : ℕ
  pub len : ℕ
  pub options : ℕ

pub record Xsk : Type 0 where
  pub rx : MmapRing Desc
  pub tx : MmapRing Desc
  pub fill : MmapRing ℕ
  pub completion : MmapRing ℕ
  pub busy_poll : Bool
  pub zero_copy : Bool

abbrev pub eintr : ℕ
eintr = 4

abbrev pub eagain : ℕ
eagain = 11

abbrev pub ebusy : ℕ
ebusy = 16

unfoldable pub is_expected_wakeup_retry : ℕ → Bool
is_expected_wakeup_retry error = error == eagain || error == eintr || error == ebusy

-- The `while` loop of `refill_fill`, with `n` rounds left and `pushed` frames written.
unfoldable pub refill_loop :
    ℕ → ℕ → ℕ → MmapRing ℕ → FrameAllocator → ℕ × MmapRing ℕ × FrameAllocator
refill_loop zero start pushed fill a = (pushed, fill, a)
refill_loop (suc n) start pushed fill a =
    let (frame, a') = alloc a in
    elim frame [
      | none ↦ (pushed, fill, a')
      | some x ↦ refill_loop n start (add32 pushed 1) (set_desc_at fill (add32 start pushed) x) a'
    ]

unfoldable pub refill_fill : MmapRing ℕ → FrameAllocator → ℕ × MmapRing ℕ × FrameAllocator
unfolding refill_loop
refill_fill fill a =
    let (range, fill') = writable_range fill (capacity fill) in
    let (pushed, fill'', a') = refill_loop range.amount range.start 0 fill' a in
    (pushed, (if ltb 0 pushed then publish_written_entries fill'' pushed else fill''), a')
