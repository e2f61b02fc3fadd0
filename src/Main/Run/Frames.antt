-- ===== src/Main/Run/Frames.antt =====
-- No frame is lost over a whole run.
use af_xdp_reimpl.Prelude.{
  ℕ, ◌*◌, ◌<◌, ◌≡◌, refl, arith, ◌∙◌, Bool, true, false, not, Option, none, some,
}
use af_xdp_reimpl.Os.{History, value}
use af_xdp_reimpl.Kernel.Contract.{Held, Sizes, Obeys}
use af_xdp_reimpl.Transmitter.{mask_of, drain_until}
use af_xdp_reimpl.Transmitter.Invariant.{Inv, total, in_flight}
use af_xdp_reimpl.Transmitter.Drain.{drain_until_lem}
use af_xdp_reimpl.Socket.{XskHandle}
use af_xdp_reimpl.Loader.{XdpLoader, stop_redirect, detach}
use af_xdp_reimpl.Receiver.{Worker, ReceiverConfig, run}
use af_xdp_reimpl.Receiver.Loop.{IsSound, run_lem}
use af_xdp_reimpl.Xsk.Stats.{StatsResult, stats, stats_error, kernel_stats}
use af_xdp_reimpl.CommandLine.{Args}
use af_xdp_reimpl.Main.{layout, Captured, setup, strategy, service_tx}
use af_xdp_reimpl.Main.Strategy.{strategy-Handles, service_tx-Commits}
use af_xdp_reimpl.Main.System.{IsLayout, IsFresh, ledger_of, is_chunk, setup-IsSound, sole_place}
use af_xdp_reimpl.Main.Control.{RunSummary, Control, control_loop, note_stats}
use af_xdp_reimpl.Os.Troubles.{troubles}
use af_xdp_reimpl.Main.Run.{
  World, Outcome, returned, running, ended, finish, shut_down, with_loader, active_part, export,
  run_receiver, select_cpu, stopped_worker, open_samples, note_redirect, note_drain, totals,
}
use af_xdp_reimpl.Main.Run.Ends.{Ends, either-Ends, active_part-Ends}

layout-IsLayout : IsLayout 11 layout
layout-IsLayout = record {
  fits = omega arith;
  word = omega arith;
  power = refl;
  small = omega arith;
  region = omega arith;
}

-- The summary has the counters of the engine, of the receiver and of the callback.
pub record Counted {S : Type 0} (r : RunSummary) (worker : Worker S Captured) : Type 0 where
  pub rejected : r.tx_rejected ≡ worker.engine.tx.frames_rejected
  pub submitted : r.tx_submitted ≡ worker.engine.tx.frames_submitted
  pub reclaimed : r.tx_reclaimed ≡ worker.engine.tx.frames_reclaimed
  pub retried : r.tx_retryable_wakeup_errors ≡ worker.engine.tx.retryable_wakeup_errors
  pub tx_errno : r.tx_first_wakeup_errno ≡ worker.engine.tx.first_wakeup_error
  pub received : r.rx_processed ≡ worker.receiver.packets_received
  pub refills : r.fill_refill_batches ≡ worker.receiver.fill_refills
  pub rx_errno : r.rx_first_wakeup_errno ≡ worker.receiver.first_wakeup_error
  pub staged_frames : r.tx_staged ≡ worker.captured.bench.staged
  pub bytes : r.callback_bytes ≡ worker.captured.bench.bytes
  pub callbacks : r.callbacks ≡ worker.captured.bench.callbacks
  pub unsupported : r.unsupported ≡ worker.captured.bench.unsupported

-- The summary and the frames at the end.
pub record Finished {S : Type 0} (held : Held S) (z : Sizes) (r : RunSummary)
    (worker : Worker S Captured) : Type 0 where
  pub place :
      (i : ℕ)
      → i < layout.num_frames
      → total held z (is_chunk (i * layout.frame_size)) worker.engine ≡ 1
  pub staged : worker.engine.tx.tx_used ≡ 0
  pub abandoned : r.tx_abandoned ≡ in_flight held z worker.engine.io
  pub counted : Counted r worker

-- Nothing is said of an early return.
abbrev pub Anything : ℕ → Type 0
Anything exit_code = Unit

module _ {S : Type 0} (held : Held S) (z : Sizes) where
  abbrev pub Finishes : ℕ → RunSummary → Worker S Captured → History → Type 0
  Finishes exit_code r worker h = Finished held z r worker

module _ {S : Type 0} (held : Held S) (z : Sizes)
    (masked : z.frame_mask ≡ mask_of layout.frame_size) (w : World S) (args : Args)
    (obeys : Obeys held z w.k) (fresh : (x : XskHandle) → IsFresh held z (w.shared x)) where
  open_samples-IsSound :
      (b : Bool) (worker : Worker S Captured)
      → IsSound held z (ledger_of layout) worker
      → IsSound held z (ledger_of layout) (open_samples b worker)
  open_samples-IsSound false worker v = v
  open_samples-IsSound true worker v = record { inv = v.inv; mask = v.mask }

  stopped_worker-IsSound :
      (cfg : ReceiverConfig) (x : XskHandle) (sampling : Bool)
      → IsSound held z (ledger_of layout) (stopped_worker w args cfg x sampling)
  unfolding stopped_worker
  stopped_worker-IsSound cfg x sampling =
      let l = ledger_of layout in
      let runs =
        run_lem held z l w.k obeys (strategy w.k) (strategy-Handles held z w.k obeys)
          (service_tx w.k) (service_tx-Commits held z w.k obeys l) refl in
      let w0 = setup w.k layout cfg w.clock (w.shared x) in
      let v0 =
        setup-IsSound held z 11 layout layout-IsLayout masked w.k obeys cfg w.clock (w.shared x)
          (fresh x) in
      let w1 = run w.k (strategy w.k) (service_tx w.k) w.before w0 in
      runs w.after (open_samples sampling w1)
        (open_samples-IsSound sampling w1 (runs w.before w0 v0))

  -- The query of the kernel's counters changes nothing else of the summary.
  note_stats-totals :
      (result : StatsResult) (worker : Worker S Captured) (c : Control)
      → let r = (note_stats result (record c { run = totals worker c.run })).run in
        (r.tx_abandoned ≡ c.run.tx_abandoned) × Counted r worker
  unfolding note_stats
  note_stats-totals (stats s) worker c = (
    refl,
    record {
      rejected = refl;
      submitted = refl;
      reclaimed = refl;
      retried = refl;
      tx_errno = refl;
      received = refl;
      refills = refl;
      rx_errno = refl;
      staged_frames = refl;
      bytes = refl;
      callbacks = refl;
      unsupported = refl;
    },
  )
  note_stats-totals (stats_error e) worker c = (
    refl,
    record {
      rejected = refl;
      submitted = refl;
      reclaimed = refl;
      retried = refl;
      tx_errno = refl;
      received = refl;
      refills = refl;
      rx_errno = refl;
      staged_frames = refl;
      bytes = refl;
      callbacks = refl;
      unsupported = refl;
    },
  )

  finish_frames :
      (fd : ℕ) (error : Option ℕ) (l : XdpLoader) (worker : Worker S Captured) (c : Control)
      (h : History)
      → Inv held z (ledger_of layout) worker.engine
      → worker.engine.tx.tx_used ≡ 0
      → c.run.tx_abandoned ≡ in_flight held z worker.engine.io
      → Ends Anything (Finishes held z) (finish w args fd error l worker c h)
  unfolding finish
  finish_frames fd (some e) l worker c h inv used abandoned = tt
  finish_frames fd none l worker c h inv used abandoned =
      let t = note_stats-totals (kernel_stats w.os fd h).0 worker c in
      record {
        place =
            λ i below. sole_place held z 11 layout layout-IsLayout masked worker.engine i inv below;
        staged = used;
        abandoned = t.0 ∙ abandoned;
        counted = t.1;
      }

  shut_down_frames :
      (cfg : ReceiverConfig) (x : XskHandle) (l : XdpLoader) (c : Control) (h : History)
      → Ends Anything (Finishes held z) (shut_down w args cfg x l c h)
  unfolding shut_down
  shut_down_frames cfg x l c h =
      let (error, l1, h1) = stop_redirect w.os l h in
      let c1 = note_redirect error c in
      let worker = stopped_worker w args cfg x c.run.sampling_started in
      let v = stopped_worker-IsSound cfg x c.run.sampling_started in
      let d = drain_until_lem held z (ledger_of layout) w.k obeys w.passes worker.engine v.inv in
      let (remaining, e) = drain_until w.k w.passes worker.engine in
      let (error2, l2, h2) = detach w.os l1 h1 in
      finish_frames x.fd error2 l2 (record worker { engine = e }) (note_drain remaining c1) h2 d.inv
        d.used d.answer

  with_loader_frames :
      (cfg : ReceiverConfig) (x : XskHandle) (r : RunSummary) (l : XdpLoader) (h : History)
      → troubles h ≡ 0
      → Ends Anything (Finishes held z) (with_loader w args cfg x r (value l, h))
  unfolding with_loader
  with_loader_frames cfg x r l h fine =
      let c : Control = record {
        g_stop = false;
        run = record r { native_xdp = l.native };
        exit_code = 0;
        last_rejected = 0;
      } in
      let (done, c1, h1) = control_loop w.os x.fd w.ticks c h in
      either-Ends Anything (Finishes held z) (not done) (running, h1)
        (shut_down w args cfg x l c1 h1) (λ _. tt) (shut_down_frames cfg x l c1 h1)

  export_frames :
      (out : Outcome S) (h : History)
      → Ends Anything (Finishes held z) (out, h)
      → Ends Anything (Finishes held z) (export w args out h)
  unfolding export
  export_frames (returned exit_code) h e = e
  export_frames running h e = e
  export_frames (ended exit_code r worker) h e = record {
    place = e.place;
    staged = e.staged;
    abandoned = e.abandoned;
    counted = record {
      rejected = e.counted.rejected;
      submitted = e.counted.submitted;
      reclaimed = e.counted.reclaimed;
      retried = e.counted.retried;
      tx_errno = e.counted.tx_errno;
      received = e.counted.received;
      refills = e.counted.refills;
      rx_errno = e.counted.rx_errno;
      staged_frames = e.counted.staged_frames;
      bytes = e.counted.bytes;
      callbacks = e.counted.callbacks;
      unsupported = e.counted.unsupported;
    };
  }

  -- For a kernel that keeps to the AF_XDP contract, from rings that it has newly set up: when
  -- `run_receiver` comes to its end, every frame of the region is in exactly one place, nothing is
  -- staged, and the summary gives the number of frames that were published for sending and have not
  -- come back, and all counters of the engine, of the receiver and of the callback.
  pub run_receiver_frames : (h : History) → Ends Anything (Finishes held z) (run_receiver w args h)
  unfolding run_receiver
  run_receiver_frames h =
      let first = select_cpu w.os args.cpu_pin h in
      export_frames (active_part w args first).0 (active_part w args first).1 (
        active_part-Ends Anything (Finishes held z) w args tt (λ stop. tt)
          (λ code r worker h h1 same e. e) with_loader_frames first)
