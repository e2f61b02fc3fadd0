-- ===== src/Main.antt =====
-- main.cpp: the reflector that `run_receiver` builds from the parts: the callback `strategy`, the
-- commit `service_tx` and the state before the worker starts. The clock of the latency samples is
-- outside the repository; its readings are arguments.
pub mod Strategy
pub mod System
pub mod Control
pub mod Run
pub mod Program
use af_xdp_reimpl.Prelude.{ℕ, ◌+◌, ◌^◌, ◌%◌, Bool, true, false, sub64, add64, pos, if◌then◌else◌}
use af_xdp_reimpl.Ring.{capacity}
use af_xdp_reimpl.FrameAllocator
use af_xdp_reimpl.Kernel.{Io, Kernel}
use af_xdp_reimpl.Transmitter
use af_xdp_reimpl.Transmitter.{Engine, meanwhile, send_in_place, publish_and_service_tx}
use af_xdp_reimpl.Receiver
use af_xdp_reimpl.Receiver.{
  PacketView, FrameDisposition, recycle, transferred, Worker, ReceiverConfig, refill,
  request_rx_progress, run,
}
use af_xdp_reimpl.Bench.{reflect_swap}
use af_xdp_reimpl.Bench.Samples
use af_xdp_reimpl.Bench.Samples.{Samples, recording, record_ticks}

-- The compile-time constants that shape the reflector, checked by its static assertions.
pub record Layout : Type 0 where
  pub num_frames : ℕ
  pub frame_size : ℕ
  pub alloc_cap : ℕ
  pub rx_batch_size : ℕ
  pub sample_capacity : ℕ

abbrev pub layout : Layout
layout = record {
  num_frames = 8192;
  frame_size = 2048;
  alloc_cap = 8192;
  rx_batch_size = 64;
  sample_capacity = 2 ^ 22;
}

pub record BenchStats : Type 0 where
  pub callbacks : ℕ
  pub bytes : ℕ
  pub staged : ℕ
  pub unsupported : ℕ

-- What `strategy` captures besides the transmitter; `clock` is the reading of `rdtsc` at each of
-- its calls, and `ticks` says how many calls there were.
pub record Captured : Type 0 where
  pub bench : BenchStats
  pub samples : Samples
  pub clock : ℕ → ℕ
  pub ticks : ℕ

-- A call of `rdtsc`.
abbrev pub rdtsc : Captured → ℕ × Captured
rdtsc c = (c.clock c.ticks, record c { ticks = c.ticks + 1 })

abbrev pub disposition_of : Bool → FrameDisposition
disposition_of true = transferred
disposition_of false = recycle

-- The configuration of the receiver.
abbrev pub config_of : Layout → ℕ → Bool → ReceiverConfig
config_of c worker_cpu realtime = record {
  cpu_affinity = pos worker_cpu;
  realtime_sched = realtime;
  batch_size = c.rx_batch_size;
  fill_refill_threshold = 0;
}

-- The counters at the entry of a callback.
abbrev pub count_callback : BenchStats → ℕ → BenchStats
count_callback b size = record b { callbacks = add64 b.callbacks 1; bytes = add64 b.bytes size }

module _ {S : Type 0} where
  -- The packet is turned round and its frame goes to the transmitter; the first component says
  -- whether that took it.
  unfoldable pub reflect :
      Kernel S → PacketView → BenchStats → Engine S → Bool × BenchStats × Engine S
  reflect k pkt b e =
      let (swapped, mem) = reflect_swap e.io.mem pkt.offset pkt.size in
      let e1 = record e { io = record e.io { mem = mem } } in
      if swapped
      then (let (taken, e2) = send_in_place k pkt.addr (pkt.size % 2 ^ 32) e1 in
          (taken, (if taken then record b { staged = add64 b.staged 1 } else b), e2))
      else (false, record b { unsupported = add64 b.unsupported 1 }, e1)

  unfoldable pub strategy :
      Kernel S → PacketView → Captured → Engine S → FrameDisposition × Captured × Engine S
  strategy k pkt c e =
      let timed = recording c.samples in
      let (t0, c1) = if timed then rdtsc c else (0, c) in
      let (taken, b, e1) = reflect k pkt (count_callback c1.bench pkt.size) e in
      let c2 = record c1 { bench = b } in
      let (t1, c3) = if timed then rdtsc c2 else (0, c2) in
      let c4 =
        if timed then record c3 { samples = record_ticks c3.samples (sub64 t1 t0) } else c3 in
      (disposition_of taken, c4, e1)

  unfoldable pub service_tx : Kernel S → Engine S → Engine S
  service_tx k e = publish_and_service_tx k e

  -- The state in which the worker starts, on a socket that was just opened: the first refill and
  -- its wakeup are done.
  unfoldable pub setup : Kernel S → Layout → ReceiverConfig → (ℕ → ℕ) → Io S → Worker S Captured
  setup k c cfg clock io =
      let e0 : Engine S = record {
        io = io;
        alloc = FrameAllocator.init c.alloc_cap c.num_frames c.frame_size;
        tx = Transmitter.init c.frame_size;
      } in
      let (pushed, e1) = refill (meanwhile k e0) in
      let (error, e2) = request_rx_progress k e1 in
      record {
        engine = e2;
        captured = record {
          bench = record { callbacks = 0; bytes = 0; staged = 0; unsupported = 0 };
          samples = Samples.init c.sample_capacity;
          clock = clock;
          ticks = 0;
        };
        receiver = Receiver.init cfg (capacity e2.io.xsk.fill) e2.io.xsk.busy_poll c.frame_size;
      }

  -- The worker after `rounds` rounds.
  abbrev pub reflector : Kernel S → Layout → ReceiverConfig → (ℕ → ℕ) → ℕ → Io S → Worker S Captured
  reflector k c cfg clock rounds io =
      run k (strategy k) (service_tx k) rounds (setup k c cfg clock io)
