-- ===== src/Receiver.antt =====
-- include/afxdp/receiver.hpp: `Receiver`, the worker's loop. The callback and the commit of the
-- staged frames are arguments, as they are template parameters of the class; both act on the
-- engine, to which the worker's transmitter belongs.
pub mod Frames
pub mod Batch
pub mod Order
pub mod Maintain
pub mod Loop
pub mod Thread
use af_xdp_reimpl.Prelude.{
  ℕ, ℤ, zero, suc, ◌/◌, ◌%◌, ◌^◌, Bool, not, ◌&&◌, ◌||◌, Option, none, some, add32, add64, bit_and,
  ltb, ◌==◌, if◌then◌else◌,
}
use af_xdp_reimpl.Ring.{
  MmapRing, desc_at, need_wakeup, capacity, readable_range, release_consumed_entries,
  queued_entry_count,
}
use af_xdp_reimpl.FrameAllocator.{FrameAllocator, free}
use af_xdp_reimpl.Xsk.{Desc, is_expected_wakeup_retry, refill_fill}
use af_xdp_reimpl.Kernel.{Io, Kernel}
use af_xdp_reimpl.Transmitter.{Engine, mask_of, meanwhile}

-- `data` is the span of `size` bytes at `offset` in the UMEM region.
pub record PacketView : Type 0 where
  pub offset : ℕ
  pub size : ℕ
  pub addr : ℕ

pub data FrameDisposition : Type 0 where
  recycle transferred : FrameDisposition

pub record ReceiverConfig : Type 0 where
  pub cpu_affinity : ℤ
  pub realtime_sched : Bool
  pub batch_size : ℕ
  pub fill_refill_threshold : ℕ

pub record Receiver : Type 0 where
  pub batch_size : ℕ
  pub fill_threshold : ℕ
  pub busy_poll : Bool
  pub frame_mask : ℕ
  pub packets_received : ℕ
  pub fill_refills : ℕ
  pub first_wakeup_error : ℕ

-- `Receiver::Stats`
pub record Stats : Type 0 where
  pub packets_received : ℕ
  pub fill_refills : ℕ
  pub first_wakeup_error : ℕ

abbrev pub stats : Receiver → Stats
stats r = record {
  packets_received = r.packets_received;
  fill_refills = r.fill_refills;
  first_wakeup_error = r.first_wakeup_error;
}

-- The constructor, from the fill ring's capacity, the socket's mode and the size of a frame.
unfoldable pub init : ReceiverConfig → ℕ → Bool → ℕ → Receiver
init cfg fill_capacity busy_poll frame_size = record {
  batch_size = cfg.batch_size;
  fill_threshold =
      if ltb 0 cfg.fill_refill_threshold then cfg.fill_refill_threshold else fill_capacity / 2;
  busy_poll = busy_poll;
  frame_mask = mask_of frame_size;
  packets_received = 0;
  fill_refills = 0;
  first_wakeup_error = 0;
}

-- What a pass records of the outcome of its wakeup.
unfoldable pub note_error : Receiver → Option ℕ → Receiver
note_error r none = r
note_error r (some error) =
    if not (is_expected_wakeup_retry error) && r.first_wakeup_error == 0
    then record r { first_wakeup_error = error }
    else r

abbrev pub view_of : Desc → PacketView
view_of desc = record { offset = desc.addr; size = desc.len; addr = desc.addr }

module _ {S : Type 0} where
  abbrev pub set_rx_ring : Engine S → MmapRing Desc → Engine S
  set_rx_ring e ring = record e { io = record e.io { xsk = record e.io.xsk { rx = ring } } }

  -- A frame that the callback did not transfer goes back to the allocator.
  unfoldable pub settle : FrameDisposition → ℕ → Engine S → Engine S
  settle recycle offset e = record e { alloc = free e.alloc offset }
  settle transferred offset e = e

  -- `if (n > 0) release_consumed_entries(n)`
  unfoldable pub release_batch : ℕ → Engine S → Engine S
  release_batch n e = if ltb 0 n then set_rx_ring e (release_consumed_entries e.io.xsk.rx n) else e

  abbrev set_fill : Engine S → ℕ × MmapRing ℕ × FrameAllocator → Engine S
  set_fill e out = record e {
    io = record e.io { xsk = record e.io.xsk { fill = out.1 } };
    alloc = out.2;
  }

  -- `refill_fill` on the engine's ring and allocator.
  unfoldable pub refill : Engine S → ℕ × Engine S
  refill e = let out = refill_fill e.io.xsk.fill e.alloc in (out.0, set_fill e out)

module _ {S C : Type 0}
    (callback : PacketView → C → Engine S → FrameDisposition × C × Engine S) where
  -- The loop over the batch, with `n` packets left from index `i` on. `desc` is a reference into
  -- the ring, which is read again after the callback.
  unfoldable pub handle_frames : ℕ → ℕ → ℕ → ℕ → C → Engine S → C × Engine S
  handle_frames zero start i mask c e = (c, e)
  handle_frames (suc n) start i mask c e =
      let desc = desc_at e.io.xsk.rx (add32 start i) in
      let (disposition, c1, e1) = callback (view_of desc) c e in
      let again = desc_at e1.io.xsk.rx (add32 start i) in
      handle_frames n start (add32 i 1) mask c1 (settle disposition (bit_and again.addr mask) e1)

  -- The RX part of a pass.
  unfoldable pub handle_batch : Kernel S → ℕ → ℕ → C → Engine S → ℕ × C × Engine S
  handle_batch k batch_size mask c e =
      let e1 = meanwhile k e in
      let (range, ring) = readable_range e1.io.xsk.rx batch_size in
      let (c1, e2) = handle_frames range.amount range.start 0 mask c (set_rx_ring e1 ring) in
      (range.amount, c1, release_batch range.amount e2)

-- The worker: the engine, what the callback has captured, and the receiver's own fields.
pub record Worker (S C : Type 0) : Type 0 where
  pub engine : Engine S
  pub captured : C
  pub receiver : Receiver

module _ {S : Type 0} (k : Kernel S) where
  unfoldable pub request_rx_progress : Engine S → Option ℕ × Engine S
  request_rx_progress e =
      let e1 = meanwhile k e in
      if e1.io.xsk.busy_poll || need_wakeup e1.io.xsk.fill
      then (let (error, io) = k.recvfrom e1.io in (error, record e1 { io = io }))
      else (none, e1)

  -- The refill when the fill ring runs low.
  unfoldable pub maintain_fill : ℕ → Engine S → ℕ × Engine S
  maintain_fill threshold e =
      let e1 = meanwhile k e in
      if ltb (queued_entry_count e1.io.xsk.fill) threshold then refill (meanwhile k e1) else (0, e1)

  -- The wakeup at the end of a pass that processed `n` packets and refilled `pushed` frames.
  unfoldable pub wake : ℕ → ℕ → Receiver → Engine S → Receiver × Engine S
  wake n pushed r e =
      let e1 = meanwhile k e in
      if n == 0 || ltb 0 pushed || need_wakeup e1.io.xsk.fill
      then (let (error, e2) = request_rx_progress e1 in (note_error r error, e2))
      else (r, e1)

  module _ {C : Type 0} (callback : PacketView → C → Engine S → FrameDisposition × C × Engine S)
      (commit_tx : Engine S → Engine S) where
    unfoldable pub process_rx_and_maintain_io : Worker S C → ℕ × Worker S C
    process_rx_and_maintain_io w =
        let r = w.receiver in
        let (n, c, e1) =
          handle_batch callback k (r.batch_size % 2 ^ 32) r.frame_mask w.captured w.engine in
        let (pushed, e2) = maintain_fill r.fill_threshold (commit_tx e1) in
        let refills = if ltb 0 pushed then add64 r.fill_refills 1 else r.fill_refills in
        let (r3, e3) = wake n pushed (record r { fill_refills = refills }) e2 in
        (n, record { engine = e3; captured = c; receiver = r3 })

    -- One round of `run`.
    unfoldable pub round : Worker S C → Worker S C
    round w =
        let (processed, w1) = process_rx_and_maintain_io w in
        if processed == 0 then w1 else record w1 {
          receiver = record w1.receiver {
            packets_received = add64 w1.receiver.packets_received processed;
          };
        }

    -- `run`, whose token asks to stop after `rounds` rounds.
    unfoldable pub run : ℕ → Worker S C → Worker S C
    run zero w = w
    run (suc rounds) w = run rounds (round w)
