-- ===== src/Main/Run.antt =====
-- main.cpp: `run_receiver`, from the choice of the worker's CPU to the exit code: it opens the
-- parts, runs the worker under the control loop, and closes the parts in the reverse order. What it
-- does not decide itself is given by a `World`: the kernel and the system calls, how far the
-- worker gets, and the outcomes of what is not modelled. A scope with a local owner is written
-- `leave_scope`: its destructor runs when the scope is left, in whatever way.
pub mod Quiet
pub mod Settles
pub mod Clean
pub mod Ends
pub mod ExitCode
pub mod Frames
use af_xdp_reimpl.Prelude.{
  ℕ, ◌+◌, ◌%◌, ◌^◌, List, Bool, true, false, not, ◌||◌, ◌&&◌, Option, none, some, ◌==◌,
  if◌then◌else◌, ℤ, pos, negsuc, Text, codes,
}
use af_xdp_reimpl.Os.{
  Os, Call, Answer, History, Expect, unexpected, value, failed, gave, perform, close_raw,
}
use af_xdp_reimpl.Kernel.{Io, Kernel}
use af_xdp_reimpl.Mapping.{unmap}
use af_xdp_reimpl.Umem
use af_xdp_reimpl.Umem.{Umem, UmemConfig}
use af_xdp_reimpl.Socket
use af_xdp_reimpl.Socket.{XskConfig, XskHandle}
use af_xdp_reimpl.Loader
use af_xdp_reimpl.Loader.{XdpLoader, stop_redirect, detach, release}
use af_xdp_reimpl.Transmitter
use af_xdp_reimpl.Transmitter.{drain_until}
use af_xdp_reimpl.Receiver
use af_xdp_reimpl.Receiver.{Worker, ReceiverConfig, run}
use af_xdp_reimpl.Receiver.Thread.{prepare_thread}
use af_xdp_reimpl.Xsk.Stats.{kernel_stats}
use af_xdp_reimpl.Bench.Samples
use af_xdp_reimpl.Bench.Samples.{Samples}
use af_xdp_reimpl.Bench.Samples.Report.{report}
use af_xdp_reimpl.Bench.Calibration.{
  Machine, Calibrated, calibrated, calibration_error, asleep, is_asleep, calibrate_tsc,
}
use af_xdp_reimpl.Export.{dump_csv, dump_run_metadata}
use af_xdp_reimpl.CommandLine.{Args}
use af_xdp_reimpl.Main.{layout, config_of, Captured, setup, strategy, service_tx}
use af_xdp_reimpl.Main.Control.{RunSummary, new_run, Control, Tick, control_loop, note_stats}

-- `shared` is the memory of the mapped rings and the region, with the kernel's state. The worker
-- makes `before` rounds, and `after` more once the sampling window is open, until the control thread
-- stops it; `passes` is the number of clock readings before the deadline of the drain, and `naps` that of the
-- calls of `nanosleep` that are observed. `format` is how a
-- sample is printed, and `text` how the run metadata read, with a known host or without.
pub record World (S : Type 0) : Type 0 where
  pub k : Kernel S
  pub os : Os
  pub shared : XskHandle → Io S
  pub clock : ℕ → ℕ
  pub machine : Machine
  pub naps : ℕ
  pub interrupted : Bool
  pub ticks : List Tick
  pub before : ℕ
  pub after : ℕ
  pub passes : ℕ
  pub format : ℕ → Text
  pub text : RunSummary → ℕ → Bool → Text

-- How the function stands: it has returned early, or the control loop goes on, or it has come to the
-- end of the active part, with the worker as it is then.
pub data Outcome (S : Type 0) : Type 0 where
  returned : (exit_code : ℕ) → Outcome S
  running : Outcome S
  ended : (exit_code : ℕ) → (run : RunSummary) → (worker : Worker S Captured) → Outcome S

abbrev pub umem_config : Args → UmemConfig
umem_config args = record {
  num_frames = layout.num_frames;
  frame_size = layout.frame_size;
  headroom = 2;
  use_huge_pages = args.huge_pages;
}

abbrev pub xsk_config : Args → XskConfig
xsk_config args = record {
  iface = args.iface;
  queue_id = args.queue;
  ring_size = 2048;
  zero_copy = args.zerocopy;
  need_wakeup = true;
  busy_poll = true;
  busy_poll_budget = 64;
  busy_poll_timeout_us = 20;
}

-- The CPU of the worker, or none when there is none to be found.
unfoldable pub select_cpu : Os → ℤ → History → Option ℕ × History
select_cpu os (pos cpu) h = (some cpu, h)
select_cpu os (negsuc n) h =
    let (a, h1) = perform os Call.sched_getcpu h in
    (elim a [ failed e ↦ none | gave cpu ↦ some cpu ], h1)

-- The destructor of `Xsk`: its members, the last one first.
unfoldable pub close_socket : Os → XskHandle → History → History
close_socket os x h =
    let h1 = (unmap os x.completion h).1 in
    let h2 = (unmap os x.fill h1).1 in
    let h3 = (unmap os x.tx h2).1 in let h4 = (unmap os x.rx h3).1 in close_raw os (some x.fd) h4

abbrev pub leave_scope :
    {S : Type 0} → (History → History) → Outcome S × History → Outcome S × History
leave_scope destructor (returned exit_code, h) = (returned exit_code, destructor h)
leave_scope destructor (running, h) = (running, h)
leave_scope destructor (ended exit_code run worker, h) = (ended exit_code run worker, destructor h)

-- An error of `stop_redirect` is noted, and so are frames that the drain leaves behind.
abbrev pub note_redirect : Option ℕ → Control → Control
note_redirect none c = c
note_redirect (some e) c = record c {
  run = record c.run { stop_redirect_errno = e };
  exit_code = 1;
}

abbrev pub note_drain : ℕ → Control → Control
note_drain remaining c = record c {
  run = record c.run { tx_abandoned = remaining };
  exit_code = if remaining == 0 then c.exit_code else 1;
}

abbrev pub is_failed : Option ℕ → Bool
is_failed none = false
is_failed (some e) = true

module _ {S : Type 0} where
  -- The counters at the end.
  abbrev pub totals : Worker S Captured → RunSummary → RunSummary
  totals w r =
      let rstats = Receiver.stats w.receiver in
      let tstats = Transmitter.stats w.engine.tx in
      record r {
        rx_processed = rstats.packets_received;
        fill_refill_batches = rstats.fill_refills;
        rx_first_wakeup_errno = rstats.first_wakeup_error;
        tx_submitted = tstats.frames_submitted;
        tx_reclaimed = tstats.frames_reclaimed;
        tx_rejected = tstats.frames_rejected;
        tx_retryable_wakeup_errors = tstats.retryable_wakeup_errors;
        tx_first_wakeup_errno = tstats.first_wakeup_error;
        tx_staged = w.captured.bench.staged;
        callback_bytes = w.captured.bench.bytes;
        callbacks = w.captured.bench.callbacks;
        unsupported = w.captured.bench.unsupported;
      }

  -- The control thread opens the window of the worker's samples.
  abbrev pub open_samples : Bool → Worker S Captured → Worker S Captured
  open_samples false w = w
  open_samples true w = record w {
    captured = record w.captured { samples = Samples.start w.captured.samples };
  }

  module _ (w : World S) (args : Args) where
    -- The worker when it has stopped.
    unfoldable pub stopped_worker : ReceiverConfig → XskHandle → Bool → Worker S Captured
    stopped_worker cfg x sampling =
        let w0 = setup w.k layout cfg w.clock (w.shared x) in
        let w1 = run w.k (strategy w.k) (service_tx w.k) w.before w0 in
        run w.k (strategy w.k) (service_tx w.k) w.after (open_samples sampling w1)

    -- What follows the detachment, which ended so.
    unfoldable pub finish :
        ℕ → Option ℕ → XdpLoader → Worker S Captured → Control → History → Outcome S × History
    finish fd (some e) l worker c h = (returned 1, (release w.os l h).1)
    finish fd none l worker c h =
        let (result, h1) = kernel_stats w.os fd h in
        let c1 = note_stats result (record c { run = totals worker c.run }) in
        (ended c1.exit_code c1.run worker, (release w.os l h1).1)

    -- What follows the control loop: the redirection stops, the worker is joined, the transmitter
    -- is drained, and the program is detached.
    unfoldable pub shut_down :
        ReceiverConfig → XskHandle → XdpLoader → Control → History → Outcome S × History
    shut_down cfg x l c h =
        let (error, l1, h1) = stop_redirect w.os l h in
        let c1 = note_redirect error c in
        let worker = stopped_worker cfg x c.run.sampling_started in
        let (remaining, e) = drain_until w.k w.passes worker.engine in
        let (error2, l2, h2) = detach w.os l1 h1 in
        finish x.fd error2 l2 (record worker { engine = e }) (note_drain remaining c1) h2

    -- The active part, with the loader in place.
    unfoldable pub with_loader :
        ReceiverConfig → XskHandle → RunSummary → Expect XdpLoader × History → Outcome S × History
    with_loader cfg x r (unexpected e, h) = (returned 1, h)
    with_loader cfg x r (value l, h) =
        let c : Control = record {
          g_stop = false;
          run = record r { native_xdp = l.native };
          exit_code = 0;
          last_rejected = 0;
        } in
        let (done, c1, h1) = control_loop w.os x.fd w.ticks c h in
        if not done then (running, h1) else shut_down cfg x l c1 h1

    -- The calibration on the worker's thread, which comes after its preparation.
    abbrev pub calibrate : Option ℕ → History → Calibrated × History
    calibrate (some e) h = (calibration_error e, h)
    calibrate none h = calibrate_tsc w.os w.machine w.naps h

    -- What follows the calibration.
    unfoldable pub after_startup :
        ReceiverConfig → XskHandle → RunSummary → Calibrated → History → Outcome S × History
    after_startup cfg x r (calibration_error e) h = (returned 1, h)
    after_startup cfg x r asleep h = (running, h)
    after_startup cfg x r (calibrated c) h =
        with_loader cfg x r
          (Loader.create w.os (codes "xdp_prog.bpf.o") args.iface args.queue x.fd args.filter_ip h)

    -- The scope of the socket; the control thread waits for the calibration.
    unfoldable pub with_socket : ℕ → RunSummary → Expect XskHandle × History → Outcome S × History
    with_socket cpu r (unexpected e, h) = (returned 1, h)
    with_socket cpu r (value x, h) =
        let cfg = config_of layout cpu args.realtime in
        let r1 = record r { zero_copy = x.zero_copy } in
        let (error, h1) = prepare_thread w.os cfg h in
        let (startup, h2) = calibrate error h1 in
        leave_scope (close_socket w.os x) (
          if w.interrupted && not (is_asleep startup)
          then (returned 0, h2)
          else after_startup cfg x r1 startup h2)

    abbrev pub release_region : Umem → History → History
    release_region u h = (Umem.release w.os u h).1

    -- The scope of the region.
    unfoldable pub with_region : ℕ → Expect Umem × History → Outcome S × History
    with_region cpu (unexpected e, h) = (returned 1, h)
    with_region cpu (value u, h) = leave_scope (release_region u) (
        with_socket cpu (record (new_run cpu) { hugetlb = u.uses_hugetlb })
          (Socket.create w.os (xsk_config args) u h))

    -- Everything up to the end of the active part.
    unfoldable pub active_part : Option ℕ × History → Outcome S × History
    active_part (none, h) = (returned 1, h)
    active_part (some cpu, h) = with_region cpu (Umem.create w.os (umem_config args) h)

    -- The exports at the end.
    abbrev pub write_csv : Samples → History → Option ℕ × History
    write_csv samples h = dump_csv w.os w.format (codes "callback_tx_staging_ns.csv") samples h

    abbrev pub write_metadata : RunSummary → ℕ → History → Option ℕ × History
    write_metadata r exit_code h = dump_run_metadata w.os (w.text r exit_code) r.kernel_stats h

    unfoldable pub export : Outcome S → History → Outcome S × History
    export (returned exit_code) h = (returned exit_code, h)
    export running h = (running, h)
    export (ended exit_code r worker) h =
        let samples = report worker.captured.samples in
        let (csv, h1) = write_csv samples h in
        let r1 = record r { samples_recorded = samples.n; csv_exported = not (is_failed csv) } in
        let code : ℕ = if is_failed csv then 1 else exit_code in
        let (metadata, h2) = write_metadata r1 code h1 in
        let worker1 = record worker { captured = record worker.captured { samples = samples } } in
        (ended (if is_failed metadata then 1 else code) r1 worker1, h2)

    unfoldable pub run_receiver : History → Outcome S × History
    run_receiver h = let (out, h1) = active_part (select_cpu w.os args.cpu_pin h) in export out h1
