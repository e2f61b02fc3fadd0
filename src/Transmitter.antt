-- ===== src/Transmitter.antt =====
-- include/afxdp/transmitter.hpp: `Transmitter`, over the socket and the frame allocator that it
-- shares with the receiver. `Engine` is the state that one worker owns; the kernel moves before
-- each access to a word that it writes. The relaxed atomic counters are plain fields.
pub mod Invariant
pub mod Reclaim
pub mod Stage
pub mod Send
pub mod Publish
pub mod Errors
pub mod Kick
pub mod Service
pub mod Rx
pub mod Drain
use af_xdp_reimpl.Prelude.{
  ℕ, zero, suc, ◌-◌, ◌^◌, Bool, true, false, ◌||◌, Option, none, some, add32, sub32, add64, bit_and,
  ltb, ◌==◌, if◌then◌else◌,
}
use af_xdp_reimpl.Ring.{
  MmapRing, Range, desc_at, set_desc_at, capacity, need_wakeup, readable_range,
  release_consumed_entries, writable_range, publish_written_entries,
}
use af_xdp_reimpl.FrameAllocator.{FrameAllocator, free}
use af_xdp_reimpl.Xsk.{Desc, is_expected_wakeup_retry}
use af_xdp_reimpl.Kernel.{Io, Kernel}

pub record Transmitter : Type 0 where
  pub frame_size : ℕ
  pub frame_mask : ℕ
  pub tx_start : ℕ
  pub tx_avail : ℕ
  pub tx_used : ℕ
  pub reserved : Bool
  pub outstanding : ℕ
  pub frames_submitted : ℕ
  pub frames_reclaimed : ℕ
  pub frames_rejected : ℕ
  pub retryable_wakeup_errors : ℕ
  pub first_wakeup_error : ℕ

-- `Transmitter::Stats`
pub record Stats : Type 0 where
  pub frames_submitted : ℕ
  pub frames_reclaimed : ℕ
  pub frames_rejected : ℕ
  pub retryable_wakeup_errors : ℕ
  pub first_wakeup_error : ℕ

abbrev pub stats : Transmitter → Stats
stats t = record {
  frames_submitted = t.frames_submitted;
  frames_reclaimed = t.frames_reclaimed;
  frames_rejected = t.frames_rejected;
  retryable_wakeup_errors = t.retryable_wakeup_errors;
  first_wakeup_error = t.first_wakeup_error;
}

pub record Engine (S : Type 0) : Type 0 where
  pub io : Io S
  pub alloc : FrameAllocator
  pub tx : Transmitter

-- `~(frame_size - 1)` in 64 bits
abbrev pub mask_of : ℕ → ℕ
mask_of frame_size = 2 ^ 64 - 1 - (frame_size - 1)

-- The constructor.
unfoldable pub init : ℕ → Transmitter
init frame_size = record {
  frame_size = frame_size;
  frame_mask = mask_of frame_size;
  tx_start = 0;
  tx_avail = 0;
  tx_used = 0;
  reserved = false;
  outstanding = 0;
  frames_submitted = 0;
  frames_reclaimed = 0;
  frames_rejected = 0;
  retryable_wakeup_errors = 0;
  first_wakeup_error = 0;
}

-- The loop that frees `n` completed frames from index `i` on.
unfoldable pub free_completed : ℕ → ℕ → ℕ → ℕ → MmapRing ℕ → FrameAllocator → FrameAllocator
free_completed zero start i mask ring a = a
free_completed (suc n) start i mask ring a =
    free_completed n start (add32 i 1) mask ring
      (free a (bit_and (desc_at ring (add32 start i)) mask))

abbrev pub enobufs : ℕ
enobufs = 105

-- What `publish_and_service_tx` records of the outcome of a kick.
unfoldable pub note_error : Transmitter → Option ℕ → Transmitter
note_error t none = t
note_error t (some error) =
    if is_expected_wakeup_retry error || error == enobufs
    then record t { retryable_wakeup_errors = add64 t.retryable_wakeup_errors 1 }
    else if t.first_wakeup_error == 0
    then record t { first_wakeup_error = error }
    else t

module _ {S : Type 0} where
  abbrev pub set_tx_ring : Engine S → MmapRing Desc → Engine S
  set_tx_ring e ring = record e { io = record e.io { xsk = record e.io.xsk { tx = ring } } }

  abbrev pub set_completion : Engine S → MmapRing ℕ → Engine S
  set_completion e ring = record e {
    io = record e.io { xsk = record e.io.xsk { completion = ring } };
  }

  -- `frames_rejected_.fetch_add(1)` and the refusal.
  abbrev pub reject : Engine S → Bool × Engine S
  reject e =
      (false, record e { tx = record e.tx { frames_rejected = add64 e.tx.frames_rejected 1 } })

  -- The descriptor goes to the next slot of the reserved window.
  unfoldable pub stage : Engine S → ℕ → ℕ → Bool × Engine S
  stage e addr length =
      let slot = add32 e.tx.tx_start e.tx.tx_used in
      let desc : Desc = record { addr = addr; len = length; options = 0 } in
      let e' = set_tx_ring e (set_desc_at e.io.xsk.tx slot desc) in
      (true, record e' { tx = record e'.tx { tx_used = add32 e'.tx.tx_used 1 } })

  -- The part of `reclaim_completed_frames` behind its early return.
  unfoldable pub reclaim_some : Engine S → Range → Engine S
  reclaim_some e range =
      let n = range.amount in
      let ring = e.io.xsk.completion in
      let e' = set_completion e (release_consumed_entries ring n) in
      record e' {
        alloc = free_completed n range.start 0 e.tx.frame_mask ring e.alloc;
        tx = record e.tx {
          outstanding = sub32 e.tx.outstanding n;
          frames_reclaimed = add64 e.tx.frames_reclaimed n;
        };
      }

  -- The first part of `publish_and_service_tx`, up to the test of `outstanding_`.
  unfoldable pub publish_staged : Engine S → Engine S
  publish_staged e =
      let n = e.tx.tx_used in
      let done =
        if ltb 0 n
        then record (set_tx_ring e (publish_written_entries e.io.xsk.tx n)) {
          tx = record e.tx {
            outstanding = add32 e.tx.outstanding n;
            frames_submitted = add64 e.tx.frames_submitted n;
          };
        }
        else e in
      record done { tx = record done.tx { tx_used = 0; reserved = false } }

module _ {S : Type 0} (k : Kernel S) where
  -- What the kernel does before the engine's next access.
  abbrev pub meanwhile : Engine S → Engine S
  meanwhile e = record e { io = k.run e.io }

  unfoldable pub reclaim_completed_frames : ℕ → Engine S → ℕ × Engine S
  reclaim_completed_frames budget e =
      let e1 = meanwhile e in
      let (range, ring) = readable_range e1.io.xsk.completion budget in
      let e2 = set_completion e1 ring in
      if range.amount == 0 then (0, e2) else (range.amount, reclaim_some e2 range)

  -- `xsk_.tx().writable_range(xsk_.tx().capacity())`
  unfoldable pub tx_window : Engine S → Range × Engine S
  tx_window e =
      let e1 = meanwhile e in
      let (range, ring) = writable_range e1.io.xsk.tx (capacity e1.io.xsk.tx) in
      (range, set_tx_ring e1 ring)

  unfoldable pub reserve : Engine S → Engine S
  reserve e =
      let (range, e1) = tx_window e in
      record e1 {
        tx = record e1.tx {
          tx_avail = range.amount;
          tx_start = range.start;
          tx_used = 0;
          reserved = true;
        };
      }

  unfoldable pub refresh_avail : Engine S → Engine S
  refresh_avail e =
      let (range, e1) = tx_window e in record e1 { tx = record e1.tx { tx_avail = range.amount } }

  unfoldable pub stage_or_refresh : Engine S → ℕ → ℕ → Bool × Engine S
  stage_or_refresh e addr length =
      if e.tx.tx_used == e.tx.tx_avail
      then (let e2 = refresh_avail e in
          if e2.tx.tx_used == e2.tx.tx_avail then reject e2 else stage e2 addr length)
      else stage e addr length

  unfoldable pub send_in_place : ℕ → ℕ → Engine S → Bool × Engine S
  send_in_place addr length e =
      if length == 0 || ltb e.tx.frame_size length
      then reject e
      else stage_or_refresh (if e.tx.reserved then e else reserve e) addr length

  -- `request_tx_progress`
  unfoldable pub request_tx_progress : Engine S → Option ℕ × Engine S
  request_tx_progress e =
      let e1 = meanwhile e in
      if e1.io.xsk.busy_poll || need_wakeup e1.io.xsk.tx
      then (let (error, io) = k.sendto e1.io in (error, record e1 { io = io }))
      else (none, e1)

  -- The rest, with frames outstanding and `reaped` of them just reclaimed.
  unfoldable pub kick_and_reclaim : ℕ → ℕ → Engine S → Engine S
  kick_and_reclaim budget reaped e =
      let (error, e1) = request_tx_progress e in
      let e2 = record e1 { tx = note_error e1.tx error } in
      if ltb reaped budget then (reclaim_completed_frames (budget - reaped) e2).1 else e2

  unfoldable pub service_tx : Engine S → Engine S
  service_tx e =
      let budget = capacity e.io.xsk.completion in
      let (reaped, e1) = reclaim_completed_frames budget e in
      if e1.tx.outstanding == 0 then e1 else kick_and_reclaim budget reaped e1

  unfoldable pub publish_and_service_tx : Engine S → Engine S
  publish_and_service_tx e =
      let e1 = publish_staged e in if e1.tx.outstanding == 0 then e1 else service_tx e1

  -- `drain_until`, when the clock is read `before` times before its reading reaches the deadline.
  unfoldable pub drain_until : ℕ → Engine S → ℕ × Engine S
  drain_until zero e = let e1 = publish_and_service_tx e in (e1.tx.outstanding, e1)
  drain_until (suc before) e =
      let e1 = publish_and_service_tx e in
      if e1.tx.outstanding == 0 then (e1.tx.outstanding, e1) else drain_until before e1
